-- ===== src/Fleet/Receipts.antt =====
-- proxy.go: the sends and receives of a `proxyConnect` are in balance.
use metassh.Base.{
  ℕ, ◌+◌, ◌≡◌, refl, sym, ap, ◌∙◌, Bool, true, false, not, Option, none, some, arith, is_some,
}
use metassh.Fleet.Proxy.{Arrival, response}
use metassh.Fleet.Race.{Drainer, unborn, takes_timer, takes_dial, drained}
use metassh.Fleet.Tokens.{bit, to_send, holds, is_unborn, dial_due, at_start}
use metassh.Fleet.Relay.{
  Relay, Move, dials, fails, wakes, abort_wait, respond, give_up, unregister, drain_timer,
  drain_dial, Reach, here, next, relay_begun,
}

abbrev pub is_response : Option Arrival → Bool
is_response (some response) = true
is_response _ = false

-- What has been received from the timer's channel.
abbrev pub taken : Option Arrival → Drainer → ℕ
taken none d = 0
taken (some response) drained = 1
taken (some response) _ = 0
taken (some _) d = 1

pub record IsBalanced (s : Relay) : Type 0 where
  pub timers : bit s.asleep + bit (is_some s.timeout) + taken s.answer s.drainer ≡ 1 + s.aborts
  pub sends : to_send s.dialer ≡ dial_due s.drainer
  pub born : not (is_some s.answer) ≡ is_unborn s.drainer
  pub by_dial : s.drainer ≡ takes_dial → is_response s.answer ≡ false
  pub by_timer : s.drainer ≡ takes_timer → is_response s.answer ≡ true
  pub handed : is_response s.answer ≡ false → s.handed ≡ 0
  pub clients : is_some s.answer ≡ is_response s.answer → s.clients ≡ holds s.dialer + s.handed

unanswered : (a : Option Arrival) → a ≡ none → is_some a ≡ false
unanswered a e = ap is_some e

pub at_first : (s : Relay) → IsBalanced s → s.answer ≡ none → s.drainer ≡ unborn
at_first s h w = at_start s.drainer (sym h.born ∙ ap (λ a. not (is_some a)) w)

pub Move-IsBalanced : {s t : Relay} → IsBalanced s → Move s t → IsBalanced t
Move-IsBalanced {s} {t} h (dials w e) = rw e (record {
  timers = h.timers;
  sends = ground (arith, h.sends);
  born = h.born;
  by_dial = h.by_dial;
  by_timer = h.by_timer;
  handed = h.handed;
  clients = λ n. ground (arith, h.clients n);
})
Move-IsBalanced {s} {t} h (fails err w e) = rw e (record {
  timers = h.timers;
  sends = ground (arith, h.sends);
  born = h.born;
  by_dial = h.by_dial;
  by_timer = h.by_timer;
  handed = h.handed;
  clients = λ n. ground (arith, h.clients n);
})
Move-IsBalanced {s} {t} h (wakes a f e) = rw e (record {
  timers = ground (arith, h.timers);
  sends = h.sends;
  born = h.born;
  by_dial = h.by_dial;
  by_timer = h.by_timer;
  handed = h.handed;
  clients = h.clients;
})
Move-IsBalanced {s} {t} h (abort_wait r f e) = rw e (record {
  timers = ground (arith, h.timers);
  sends = h.sends;
  born = h.born;
  by_dial = h.by_dial;
  by_timer = h.by_timer;
  handed = h.handed;
  clients = h.clients;
})
Move-IsBalanced {s} {t} h (respond r w o e) =
    let first = at_first s h w in
    rw e (record {
      timers = ground (arith, h.timers);
      sends = refl;
      born = refl;
      by_dial = λ q. cc;
      by_timer = λ q. refl;
      handed = λ n. cc;
      clients = λ n. ground (arith, h.clients, h.handed);
    })
Move-IsBalanced {s} {t} h (give_up b w f e) =
    let first = at_first s h w in
    rw e (record {
      timers = ground (arith, h.timers);
      sends = h.sends ∙ ap dial_due first;
      born = refl;
      by_dial = λ q. ground arith;
      by_timer = λ q. cc;
      handed = λ n. ground (arith, h.handed);
      clients = λ n. ground arith;
    })
Move-IsBalanced {s} {t} h (unregister a r e) = rw e (record {
  timers = h.timers;
  sends = h.sends;
  born = h.born;
  by_dial = h.by_dial;
  by_timer = h.by_timer;
  handed = h.handed;
  clients = h.clients;
})
Move-IsBalanced {s} {t} h (drain_timer b w f e) =
    let kind = h.by_timer w in
    rw e (record {
      timers = ground (arith, h.timers);
      sends = h.sends ∙ ap dial_due w;
      born = h.born ∙ ap is_unborn w;
      by_dial = λ q. cc;
      by_timer = λ q. cc;
      handed = h.handed;
      clients = h.clients;
    })
Move-IsBalanced {s} {t} h (drain_dial r w o e) =
    let kind = h.by_dial w in
    rw e (record {
      timers = ground (arith, h.timers);
      sends = refl;
      born = h.born ∙ ap is_unborn w;
      by_dial = λ q. cc;
      by_timer = λ q. cc;
      handed = h.handed;
      clients = λ n. ground (arith, h.born);
    })

pub Reach-IsBalanced : {s : Relay} → Reach relay_begun s → IsBalanced s
Reach-IsBalanced here = record {
  timers = refl;
  sends = refl;
  born = refl;
  by_dial = λ q. cc;
  by_timer = λ q. cc;
  handed = λ n. refl;
  clients = λ n. refl;
}
Reach-IsBalanced (next r m) = Move-IsBalanced (Reach-IsBalanced r) m
