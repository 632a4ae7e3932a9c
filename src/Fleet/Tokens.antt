-- ===== src/Fleet/Tokens.antt =====
-- resolve.go: the sends and receives of a direct dial are in balance.
use metassh.Base.{ℕ, ◌+◌, ◌≡◌, refl, sym, ap, ◌∙◌, Bool, true, false, none, some, arith}
use metassh.Fleet.Resolve.{connected, late}
use metassh.Fleet.Race.{
  Dialer, at_work, offers, gone, Selected, waits, took, Drainer, unborn, takes_timer, takes_dial,
  drained, Dialling, Move, dials, fails, wakes, take_client, take_error, take_timer, drain_timer,
  drain_dial, Reach, here, next, dial_begun,
}

abbrev pub bit : Bool → ℕ
bit true = 1
bit false = 0

-- The sends that the dialer has yet to make, and the clients that it holds.
abbrev pub to_send : Dialer → ℕ
to_send at_work = 1
to_send (offers r) = 1
to_send gone = 0

abbrev pub holds : Dialer → ℕ
holds at_work = 0
holds (offers none) = 1
holds (offers (some err)) = 0
holds gone = 0

abbrev pub is_waiting : Selected → Bool
is_waiting waits = true
is_waiting (took d) = false

abbrev pub is_connected : Selected → Bool
is_connected (took connected) = true
is_connected _ = false

abbrev pub is_late : Selected → Bool
is_late (took late) = true
is_late _ = false

abbrev pub is_unborn : Drainer → Bool
is_unborn unborn = true
is_unborn _ = false

-- The receives from the timer and from the dialer that are yet to come.
abbrev pub timer_due : Drainer → ℕ
timer_due unborn = 1
timer_due takes_timer = 1
timer_due takes_dial = 0
timer_due drained = 0

abbrev pub dial_due : Drainer → ℕ
dial_due unborn = 1
dial_due takes_timer = 0
dial_due takes_dial = 1
dial_due drained = 0

-- Sends and receives are in balance, and clients are accounted for.
pub record IsBalanced (s : Dialling) : Type 0 where
  pub timers : bit s.asleep + bit s.timer ≡ timer_due s.drainer
  pub sends : to_send s.dialer ≡ dial_due s.drainer
  pub born : is_waiting s.selected ≡ is_unborn s.drainer
  pub served : s.served ≡ bit (is_connected s.selected)
  pub rest : s.drainer ≡ takes_dial → is_late s.selected ≡ true
  pub clients : is_late s.selected ≡ false → s.clients ≡ holds s.dialer + s.served

pub at_start : (d : Drainer) → is_unborn d ≡ true → d ≡ unborn
at_start unborn e = refl
at_start takes_timer e = cc
at_start takes_dial e = cc
at_start drained e = cc

pub at_first : (s : Dialling) → IsBalanced s → s.selected ≡ waits → s.drainer ≡ unborn
at_first s h w = at_start s.drainer (sym h.born ∙ ap is_waiting w)

pub still_waiting : (w : Selected) → is_waiting w ≡ true → w ≡ waits
still_waiting waits e = refl
still_waiting (took d) e = cc

pub Move-IsBalanced : {s t : Dialling} → IsBalanced s → Move s t → IsBalanced t
Move-IsBalanced {s} {t} h (dials w e) = rw e (record {
  timers = h.timers;
  sends = ground (arith, h.sends);
  born = h.born;
  served = h.served;
  rest = h.rest;
  clients = λ n. ground (arith, h.clients n);
})
Move-IsBalanced {s} {t} h (fails err w e) = rw e (record {
  timers = h.timers;
  sends = ground (arith, h.sends);
  born = h.born;
  served = h.served;
  rest = h.rest;
  clients = λ n. ground (arith, h.clients n);
})
Move-IsBalanced {s} {t} h (wakes a f e) = rw e (record {
  timers = ground (arith, h.timers);
  sends = h.sends;
  born = h.born;
  served = h.served;
  rest = h.rest;
  clients = h.clients;
})
Move-IsBalanced {s} {t} h (take_client w o e) =
    let first = at_first s h w in
    rw e (record {
      timers = h.timers ∙ ap timer_due first;
      sends = refl;
      born = refl;
      served = ground (arith, h.served);
      rest = λ q. cc;
      clients = λ n. ground (arith, h.served, h.clients);
    })
Move-IsBalanced {s} {t} h (take_error err w o e) =
    let first = at_first s h w in
    rw e (record {
      timers = h.timers ∙ ap timer_due first;
      sends = refl;
      born = refl;
      served = ground (arith, h.served);
      rest = λ q. cc;
      clients = λ n. ground (arith, h.served, h.clients);
    })
Move-IsBalanced {s} {t} h (take_timer w f e) =
    let first = at_first s h w in
    rw e (record {
      timers = ground (arith, h.timers, first);
      sends = h.sends ∙ ap dial_due first;
      born = refl;
      served = ground (arith, h.served);
      rest = λ q. refl;
      clients = λ n. ground arith;
    })
Move-IsBalanced {s} {t} h (drain_timer w f e) = rw e (record {
  timers = ground (arith, h.timers);
  sends = h.sends ∙ ap dial_due w;
  born = h.born ∙ ap is_unborn w;
  served = h.served;
  rest = λ q. cc;
  clients = h.clients;
})
Move-IsBalanced {s} {t} h (drain_dial r w o e) = rw e (record {
  timers = h.timers ∙ ap timer_due w;
  sends = refl;
  born = h.born ∙ ap is_unborn w;
  served = h.served;
  rest = λ q. cc;
  clients = λ n. ground (arith, h.rest w);
})

dial_begun-IsBalanced : IsBalanced dial_begun
dial_begun-IsBalanced = record {
  timers = refl;
  sends = refl;
  born = refl;
  served = refl;
  rest = λ q. cc;
  clients = λ n. refl;
}

pub Reach-IsBalanced : {s : Dialling} → Reach dial_begun s → IsBalanced s
Reach-IsBalanced here = dial_begun-IsBalanced
Reach-IsBalanced (next r m) = Move-IsBalanced (Reach-IsBalanced r) m
