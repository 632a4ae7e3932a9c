-- ===== src/Fleet/Stragglers.antt =====
-- resolve.go: every goroutine of a direct dial comes to its end.
use metassh.Base.{
  ℕ, ◌+◌, ◌<◌, ◌≡◌, refl, ap, ◌∙◌, ◌≢◌, ◌⊎◌, inl, inr, false, Option, none, some, arith, Bool-cases,
  Str,
}
use metassh.Fleet.Race.{
  Dialer, at_work, offers, gone, waits, Drainer, unborn, takes_timer, takes_dial, drained, Dialling,
  Move, dials, fails, wakes, take_client, take_error, take_timer, drain_timer, drain_dial, Reach,
  dial_begun,
}
use metassh.Fleet.Tokens.{
  bit, is_waiting, is_connected, is_late, is_unborn, IsBalanced, still_waiting, at_first,
  Reach-IsBalanced,
}

-- What the goroutines have yet to do.
abbrev pub dial_left : Dialer → ℕ
dial_left at_work = 2
dial_left (offers r) = 1
dial_left gone = 0

abbrev pub drain_left : Drainer → ℕ
drain_left drained = 0
drain_left _ = 1

abbrev pub left : Dialling → ℕ
left s = dial_left s.dialer + bit s.asleep + bit (is_waiting s.selected) + drain_left s.drainer

Move-left : {s t : Dialling} → IsBalanced s → Move s t → left t < left s
Move-left {s} {t} h (dials w e) = rw e (ground arith)
Move-left {s} {t} h (fails err w e) = rw e (ground arith)
Move-left {s} {t} h (wakes a f e) = rw e (ground arith)
Move-left {s} {t} h (take_client w o e) = let first = at_first s h w in rw e (ground arith)
Move-left {s} {t} h (take_error err w o e) = let first = at_first s h w in rw e (ground arith)
Move-left {s} {t} h (take_timer w f e) = let first = at_first s h w in rw e (ground arith)
Move-left {s} {t} h (drain_timer w f e) = rw e (ground arith)
Move-left {s} {t} h (drain_dial r w o e) = rw e (ground arith)

-- All four goroutines have returned, and nothing is left in the timer's buffer.
pub record IsOver (s : Dialling) : Type 0 where
  pub dialled : s.dialer ≡ gone
  pub awake : s.asleep ≡ false
  pub empty : s.timer ≡ false
  pub chosen : s.selected ≢ waits
  pub drained_all : s.drainer ≡ drained

next_of : (s : Dialling) → IsBalanced s → IsOver s ⊎ ((t : Dialling) × Move s t)
next_of s h = by_dialer s.dialer refl
  where
    at_select : s.drainer ≡ unborn → s.selected ≡ waits
    at_select first = still_waiting s.selected (h.born ∙ ap is_unborn first)

    by_timer :
        (d : Drainer)
        → s.drainer ≡ d
        → s.dialer ≡ gone
        → s.asleep ≡ false
        → IsOver s ⊎ ((t : Dialling) × Move s t)
    by_timer unborn at_d over awake = absurd (ground (arith, h.sends))
    by_timer takes_timer at_d over awake = inr (_, drain_timer at_d (ground (arith, h.timers)) refl)
    by_timer takes_dial at_d over awake = absurd (ground (arith, h.sends))
    by_timer drained at_d over awake = inl (record {
      dialled = over;
      awake = awake;
      empty = ground (arith, h.timers);
      chosen = λ w. ground (arith, h.born);
      drained_all = at_d;
    })

    by_sleeper : s.dialer ≡ gone → IsOver s ⊎ ((t : Dialling) × Move s t)
    by_sleeper over = elim (Bool-cases s.asleep) [
      | inl a ↦ inr (_, wakes a (ground (arith, h.timers)) refl)
      | inr awake ↦ by_timer s.drainer refl over awake
    ]

    by_drainer :
        (r : Option Str) (d : Drainer)
        → s.drainer ≡ d
        → s.dialer ≡ offers r
        → IsOver s ⊎ ((t : Dialling) × Move s t)
    by_drainer none unborn at_d o = inr (_, take_client (at_select at_d) o refl)
    by_drainer (some err) unborn at_d o = inr (_, take_error err (at_select at_d) o refl)
    by_drainer r takes_timer at_d o = absurd (ground (arith, h.sends))
    by_drainer r takes_dial at_d o = inr (_, drain_dial r at_d o refl)
    by_drainer r drained at_d o = absurd (ground (arith, h.sends))

    by_dialer : (d : Dialer) → s.dialer ≡ d → IsOver s ⊎ ((t : Dialling) × Move s t)
    by_dialer at_work w = inr (_, dials w refl)
    by_dialer (offers r) o = by_drainer r s.drainer refl o
    by_dialer gone over = by_sleeper over

-- In a direct dial nobody waits for good: as long as one of its goroutines has not returned there
-- is a step to take, and every step brings the end nearer. At the end a client is served exactly if
-- the `select` took one, and unless it took the timer no other client is open.
pub Reach-ends :
    {s : Dialling}
    → Reach dial_begun s
    → ((IsOver s
          × (s.served ≡ bit (is_connected s.selected))
          × (is_late s.selected ≡ false → s.clients ≡ s.served))
        ⊎ ((t : Dialling) × Move s t))
      × ((t : Dialling) → Move s t → left t < left s)
Reach-ends {s} r =
    let h = Reach-IsBalanced r in
    (
      elim (next_of s h) [
        | inl over ↦ inl (over, h.served, λ n. ground (arith, h.clients n, over.dialled))
        | inr (t, m) ↦ inr (t, m)
      ],
      λ t m. Move-left h m,
    )
