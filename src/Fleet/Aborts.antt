-- ===== src/Fleet/Aborts.antt =====
-- proxy.go: runs of a `proxyConnect` that is aborted.
use metassh.Base.{◌<◌, ◌≡◌, refl, ◌⊎◌, true, false, none, some, arith}
use metassh.Fleet.Proxy.{aborted}
use metassh.Fleet.Race.{gone, drained}
use metassh.Fleet.Relay.{
  Relay, Move, dials, fails, wakes, abort_wait, respond, give_up, unregister, drain_timer,
  drain_dial, Reach, here, next, relay_begun,
}
use metassh.Fleet.Receipts.{is_response}
use metassh.Fleet.Aftermath.{relay_left, IsReturned, Reach-returns}

-- The client that comes after the abort is not closed, and the timer's message stays.
abbrev aborted_once : Relay
aborted_once = record {
  dialer = gone;
  asleep = false;
  timeout = some true;
  answer = some aborted;
  drainer = drained;
  registered = false;
  aborts = 1;
  clients = 1;
  handed = 0;
}

run_once_aborted : Reach relay_begun aborted_once
run_once_aborted =
    next
      (next
        (next
          (next (next (next here (abort_wait refl refl refl)) (give_up false refl refl refl))
            (unregister refl refl refl))
          (dials refl refl))
        (drain_dial none refl refl refl))
      (wakes refl refl refl)

Reach-returns_example :
    ((IsReturned aborted_once
        × (is_response aborted_once.answer ≡ true → aborted_once.clients ≡ aborted_once.handed)
        × (is_response aborted_once.answer ≡ false → aborted_once.handed ≡ 0))
      ⊎ ((t : Relay) × Move aborted_once t))
    × ((t : Relay)
        → Move aborted_once t
        → t.aborts ≡ aborted_once.aborts
        → relay_left t < relay_left aborted_once)
Reach-returns_example = Reach-returns run_once_aborted (omega arith)

-- A second abort, before the waiter is gone, takes the room for the timer's message.
abbrev aborted_twice : Relay
aborted_twice = record aborted_once { asleep = true; timeout = some false; aborts = 2 }

run_twice_aborted : Reach relay_begun aborted_twice
run_twice_aborted =
    next
      (next
        (next
          (next (next (next here (abort_wait refl refl refl)) (give_up false refl refl refl))
            (abort_wait refl refl refl))
          (unregister refl refl refl))
        (dials refl refl))
      (drain_dial none refl refl refl)

timer_stuck : (t : Relay) → Move aborted_twice t → ⊥
timer_stuck t (dials w e) = cc
timer_stuck t (fails err w e) = cc
timer_stuck t (wakes a f e) = cc
timer_stuck t (abort_wait r f e) = cc
timer_stuck t (respond r w o e) = cc
timer_stuck t (give_up b w f e) = cc
timer_stuck t (unregister a r e) = cc
timer_stuck t (drain_timer b w f e) = cc
timer_stuck t (drain_dial r w o e) = cc
