-- ===== src/Store/Waiters.antt =====
-- state.go: the requests `timeoutWaiters` and `getWaiterInfo`.
use metassh.Base.{
  ℕ, ◌≡◌, refl, ◌∙◌, ◌≢◌, Bool, true, false, none, some, [], ◌∷◌, ◌++◌, arith, All, Str, Dict,
  is_some, ok, panic, blocked, ◌>>=◌,
}
use metassh.Store.Types.{WaitInfo, Reply, Slots, World, timeout_waiters, flag}
use metassh.Store.Serializer.{put, send, abort_waiters, timeout_all, handle}

-- The buffer of the waiter's channel is taken.
abbrev pub IsFull : Slots → Str × WaitInfo → Type 0
IsFull slots e = is_some (slots e.1.timeout_chan) ≡ true

pub timeout_all-ne-panic : (m : Dict WaitInfo) (slots : Slots) → timeout_all m slots ≢ panic
unfolding timeout_all send
timeout_all-ne-panic [] slots = λ e. cc
timeout_all-ne-panic ((k, wi) ∷ m) slots =
    ground (arith, timeout_all-ne-panic m (put wi.timeout_chan false slots))

-- A buffer that is full stays full.
timeout_all_keeps :
    (m : Dict WaitInfo) (slots slots' : Slots) (c : ℕ)
    → timeout_all m slots ≡ ok slots'
    → is_some (slots c) ≡ true
    → slots' c ≡ slots c
unfolding timeout_all send
timeout_all_keeps [] slots slots' c e h = let p : slots' ≡ slots = cc in rw p
timeout_all_keeps ((k, wi) ∷ m) slots slots' c e h =
    ground (arith, timeout_all_keeps m (put wi.timeout_chan false slots) slots' c)

timeout_all_fills :
    (m : Dict WaitInfo) (slots slots' : Slots)
    → timeout_all m slots ≡ ok slots'
    → All (λ e. slots' (e.1.timeout_chan) ≡ some false) m
unfolding timeout_all send
timeout_all_fills [] slots slots' e = tt
timeout_all_fills ((k, wi) ∷ m) slots slots' e = ground (
  arith,
  timeout_all_keeps m (put wi.timeout_chan false slots) slots' wi.timeout_chan,
  timeout_all_fills m (put wi.timeout_chan false slots) slots',
)

-- The other buffers keep what they hold.
timeout_all_frame :
    (m : Dict WaitInfo) (slots slots' : Slots) (c : ℕ)
    → timeout_all m slots ≡ ok slots'
    → All (λ e. e.1.timeout_chan ≢ c) m
    → slots' c ≡ slots c
unfolding timeout_all send
timeout_all_frame [] slots slots' c e h = let p : slots' ≡ slots = cc in rw p
timeout_all_frame ((k, wi) ∷ m) slots slots' c e h =
    ground (arith, timeout_all_frame m (put wi.timeout_chan false slots) slots' c)

timeout_all_blocked :
    (m : Dict WaitInfo) (slots : Slots)
    → m ≢ []
    → All (IsFull slots) m
    → timeout_all m slots ≡ blocked
unfolding timeout_all send
timeout_all_blocked [] slots n h = absurd (n refl)
timeout_all_blocked ((k, wi) ∷ m) slots n h = ground arith

-- Distinct channels, all of them empty.
abbrev pub Fresh : Slots → Dict WaitInfo → Type 0
Fresh slots [] = Unit
Fresh slots ((k, wi) ∷ m) =
    (slots wi.timeout_chan ≡ none) × All (λ e. e.1.timeout_chan ≢ wi.timeout_chan) m × Fresh slots m

Fresh-put :
    (c : ℕ) (b : Bool) (slots : Slots) (m : Dict WaitInfo)
    → All (λ e. e.1.timeout_chan ≢ c) m
    → Fresh slots m
    → Fresh (put c b slots) m
Fresh-put c b slots [] d f = tt
Fresh-put c b slots ((k, wi) ∷ m) d f = ground (arith, Fresh-put c b slots m)

timeout_all_ends :
    (m : Dict WaitInfo) (slots : Slots)
    → Fresh slots m
    → (slots' : Slots) × (timeout_all m slots ≡ ok slots')
unfolding timeout_all send
timeout_all_ends [] slots f = (slots, refl)
timeout_all_ends ((k, wi) ∷ m) slots (empty, distinct, f) =
    let (s', e) =
      timeout_all_ends m (put wi.timeout_chan false slots)
        (Fresh-put wi.timeout_chan false slots m distinct f) in
    (s', ground arith)

abbrev pub Timed : Slots → Dict WaitInfo → Type 0
Timed slots m = All (λ e. slots (e.1.timeout_chan) ≡ some false) m

timeout_all_keeps_Timed :
    (m n : Dict WaitInfo) (slots slots' : Slots)
    → timeout_all m slots ≡ ok slots'
    → Timed slots n
    → Timed slots' n
timeout_all_keeps_Timed m [] slots slots' e h = tt
timeout_all_keeps_Timed m ((k, wi) ∷ n) slots slots' e (p, h) = (
  timeout_all_keeps m slots slots' wi.timeout_chan e (ground arith) ∙ p,
  timeout_all_keeps_Timed m n slots slots' e h,
)

Timed→IsFull : (m : Dict WaitInfo) (slots : Slots) → Timed slots m → All (IsFull slots) m
Timed→IsFull [] slots h = tt
Timed→IsFull ((k, wi) ∷ m) slots (p, h) = (ground arith, Timed→IsFull m slots h)

IsFull-append :
    (m n : Dict WaitInfo) (slots : Slots)
    → All (IsFull slots) m
    → All (IsFull slots) n
    → All (IsFull slots) (m ++ n)
IsFull-append [] n slots h k = k
IsFull-append (e ∷ m) n slots (p, h) k = (p, IsFull-append m n slots h k)

abort_splits :
    (w w' : World) (r : Reply)
    → abort_waiters w ≡ ok (w', r)
    → (slots : Slots) × (timeout_all w.state.conn_waiters w.slots ≡ ok slots)
      × (timeout_all w.state.run_waiters slots ≡ ok w'.slots)
      × (w'.state ≡ w.state)
unfolding abort_waiters
abort_splits w w' r h = ground arith

-- An abort that ends has put `false` into the channel of every waiter, touched no other channel,
-- and left the state alone.
pub timeout_waiters_reach_all :
    (w w' : World) (r : Reply)
    → handle timeout_waiters w ≡ ok (w', r)
    → Timed w'.slots w.state.conn_waiters
      × Timed w'.slots w.state.run_waiters
      × ((c : ℕ)
          → All (λ e. e.1.timeout_chan ≢ c) w.state.conn_waiters
          → All (λ e. e.1.timeout_chan ≢ c) w.state.run_waiters
          → w'.slots c ≡ w.slots c)
      × (w'.state ≡ w.state)
unfolding handle
timeout_waiters_reach_all w w' r h =
    let (slots, e, f, same) = abort_splits w w' r h in
    (
      timeout_all_keeps_Timed w.state.run_waiters w.state.conn_waiters slots w'.slots f
          (timeout_all_fills w.state.conn_waiters w.slots slots e),
      timeout_all_fills w.state.run_waiters slots w'.slots f,
      λ c d d'.
          timeout_all_frame w.state.run_waiters slots w'.slots c f d'
          ∙ timeout_all_frame w.state.conn_waiters w.slots slots c e d,
      same,
    )

timeout_all-append :
    (m n : Dict WaitInfo) (slots : Slots)
    → timeout_all (m ++ n) slots ≡ (timeout_all m slots >>= timeout_all n)
unfolding timeout_all send
timeout_all-append [] n slots = refl
timeout_all-append ((k, wi) ∷ m) n slots =
    ground (arith, timeout_all-append m n (put wi.timeout_chan false slots))

-- While the channels of the waiters are distinct and empty, an abort does not block.
pub timeout_waiters_ends :
    (w : World)
    → Fresh w.slots (w.state.conn_waiters ++ w.state.run_waiters)
    → (w' : World) × (handle timeout_waiters w ≡ ok (w', flag true))
unfolding handle abort_waiters
timeout_waiters_ends w f =
    let (slots, e) = timeout_all_ends (w.state.conn_waiters ++ w.state.run_waiters) w.slots f in
    (
      record w { slots = slots },
      ground (arith, timeout_all-append w.state.conn_waiters w.state.run_waiters w.slots),
    )

-- A second abort, before any waiter has taken the first one's message, hangs the serializer.
pub timeout_waiters_twice_blocks :
    (w w' : World) (r : Reply)
    → handle timeout_waiters w ≡ ok (w', r)
    → w.state.conn_waiters ++ w.state.run_waiters ≢ []
    → handle timeout_waiters w' ≡ blocked
unfolding handle abort_waiters
timeout_waiters_twice_blocks w w' r h n =
    let (conn, run, _, same) = timeout_waiters_reach_all w w' r h in
    rw (same, abort_waiters)
      (ground (
        arith,
        timeout_all-append w.state.conn_waiters w.state.run_waiters w'.slots,
        timeout_all_blocked (w.state.conn_waiters ++ w.state.run_waiters) w'.slots n (
            IsFull-append w.state.conn_waiters w.state.run_waiters w'.slots
              (Timed→IsFull w.state.conn_waiters w'.slots conn)
              (Timed→IsFull w.state.run_waiters w'.slots run)),
      ))

-- While the channels of the waiters are distinct and empty, an abort ends, with `true`. It has then
-- put `false` into the channel of every waiter, touched no other channel, and left the state alone.
pub timeout_waiters_lem :
    (w : World)
    → Fresh w.slots (w.state.conn_waiters ++ w.state.run_waiters)
    → (w' : World) × (handle timeout_waiters w ≡ ok (w', flag true))
      × Timed w'.slots w.state.conn_waiters
      × Timed w'.slots w.state.run_waiters
      × ((c : ℕ)
          → All (λ e. e.1.timeout_chan ≢ c) w.state.conn_waiters
          → All (λ e. e.1.timeout_chan ≢ c) w.state.run_waiters
          → w'.slots c ≡ w.slots c)
      × (w'.state ≡ w.state)
timeout_waiters_lem w fresh =
    let (w', e) = timeout_waiters_ends w fresh in
    let (conn, run, others, same) = timeout_waiters_reach_all w w' (flag true) e in
    (w', e, conn, run, others, same)
