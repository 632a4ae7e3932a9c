-- ===== src/Fleet/Aftermath.antt =====
-- proxy.go: every goroutine of a `proxyConnect` comes to its end, if it is aborted once at most.
use metassh.Base.{
  ℕ, ◌+◌, ◌≤◌, ◌<◌, ◌≡◌, refl, sym, ap, ◌∙◌, ◌⊎◌, inl, inr, true, false, not, Option, none, some,
  arith, Bool-cases, Option-cases, Str, is_some,
}
use metassh.Fleet.Proxy.{Arrival}
use metassh.Fleet.Race.{
  Dialer, at_work, offers, gone, Drainer, unborn, takes_timer, takes_dial, drained,
}
use metassh.Fleet.Tokens.{bit, is_unborn}
use metassh.Fleet.Stragglers.{dial_left, drain_left}
use metassh.Fleet.Relay.{
  Relay, Move, dials, fails, wakes, abort_wait, respond, give_up, unregister, drain_timer,
  drain_dial, Reach, relay_begun,
}
use metassh.Fleet.Receipts.{is_response, IsBalanced, at_first, Reach-IsBalanced}

abbrev pub relay_left : Relay → ℕ
relay_left s =
    dial_left s.dialer
    + bit s.asleep
    + bit (not (is_some s.answer))
    + drain_left s.drainer
    + bit s.registered

Move-relay_left :
    {s t : Relay} → IsBalanced s → Move s t → t.aborts ≡ s.aborts → relay_left t < relay_left s
Move-relay_left {s} {t} h (dials w e) same = rw e (ground arith)
Move-relay_left {s} {t} h (fails err w e) same = rw e (ground arith)
Move-relay_left {s} {t} h (wakes a f e) same = rw e (ground arith)
Move-relay_left {s} {t} h (abort_wait r f e) same =
    absurd (ground (arith, ap (λ (x : Relay). x.aborts) e))
Move-relay_left {s} {t} h (respond r w o e) same = let first = at_first s h w in rw e (ground arith)
Move-relay_left {s} {t} h (give_up b w f e) same = let first = at_first s h w in rw e (ground arith)
Move-relay_left {s} {t} h (unregister a r e) same = rw e (ground arith)
Move-relay_left {s} {t} h (drain_timer b w f e) same = rw e (ground arith)
Move-relay_left {s} {t} h (drain_dial r w o e) same = rw e (ground arith)

-- All four goroutines have returned, and the waiter is gone.
pub record IsReturned (s : Relay) : Type 0 where
  pub dialled : s.dialer ≡ gone
  pub awake : s.asleep ≡ false
  pub answered : is_some s.answer ≡ true
  pub left_over : s.drainer ≡ drained
  pub unregistered : s.registered ≡ false

abbrev Further : Relay → Type 0
Further s = IsReturned s ⊎ ((t : Relay) × Move s t)

answered_if : (a : Option Arrival) → not (is_some a) ≡ false → is_some a ≡ true
answered_if none e = cc
answered_if (some x) e = refl

open_if : (a : Option Arrival) → not (is_some a) ≡ true → a ≡ none
open_if none e = refl
open_if (some x) e = cc

module _ (s : Relay) (h : IsBalanced s) (once : s.aborts ≤ 1) where
  after_timer : s.drainer ≡ takes_timer → s.dialer ≡ gone → Further s
  after_timer at_d over = elim (Option-cases s.timeout) [
    | inr (b, full) ↦ inr (_, drain_timer b at_d full refl)
    | inl empty ↦ elim (Bool-cases s.asleep) [
      | inl a ↦ inr (_, wakes a empty refl)
      | inr awake ↦ absurd (let kind = h.by_timer at_d in ground (arith, h.timers))
    ]
  ]

  after_drain : s.drainer ≡ drained → s.dialer ≡ gone → Further s
  after_drain at_d over =
      let answered = answered_if s.answer (h.born ∙ ap is_unborn at_d) in
      elim (Bool-cases s.registered) [
        | inl r ↦ inr (_, unregister answered r refl)
        | inr gone_too ↦ elim (Bool-cases s.asleep) [
          | inr awake ↦ inl (record {
            dialled = over;
            awake = awake;
            answered = answered;
            left_over = at_d;
            unregistered = gone_too;
          })
          | inl a ↦ elim (Option-cases s.timeout) [
            | inl empty ↦ inr (_, wakes a empty refl)
            | inr (b, full) ↦ absurd (ground (arith, h.timers))
          ]
        ]
      ]

  once_dialled : (d : Drainer) → s.drainer ≡ d → s.dialer ≡ gone → Further s
  once_dialled unborn at_d over = absurd (ground (arith, h.sends))
  once_dialled takes_timer at_d over = after_timer at_d over
  once_dialled takes_dial at_d over = absurd (ground (arith, h.sends))
  once_dialled drained at_d over = after_drain at_d over

  at_offer : (r : Option Str) (d : Drainer) → s.drainer ≡ d → s.dialer ≡ offers r → Further s
  at_offer r unborn at_d o =
      inr (_, respond r (open_if s.answer (h.born ∙ ap is_unborn at_d)) o refl)
  at_offer r takes_timer at_d o = absurd (ground (arith, h.sends))
  at_offer r takes_dial at_d o = inr (_, drain_dial r at_d o refl)
  at_offer r drained at_d o = absurd (ground (arith, h.sends))

  from_dialer : (d : Dialer) → s.dialer ≡ d → Further s
  from_dialer at_work w = inr (_, dials w refl)
  from_dialer (offers r) o = at_offer r s.drainer refl o
  from_dialer gone over = once_dialled s.drainer refl over

-- In a `proxyConnect` that is aborted once at most nobody waits for good: as long as one of its
-- goroutines has not returned, or its waiter is registered, there is a step to take, and every step
-- but an abort brings the end nearer. At the end, if the `select` took the response, the client in
-- it is the only one that is open; otherwise no client is handed on.
pub Reach-returns :
    {s : Relay}
    → Reach relay_begun s
    → s.aborts ≤ 1
    → ((IsReturned s
          × (is_response s.answer ≡ true → s.clients ≡ s.handed)
          × (is_response s.answer ≡ false → s.handed ≡ 0))
        ⊎ ((t : Relay) × Move s t))
      × ((t : Relay) → Move s t → t.aborts ≡ s.aborts → relay_left t < relay_left s)
Reach-returns {s} r once =
    let h = Reach-IsBalanced r in
    (
      elim (from_dialer s h once s.dialer refl) [
        | inl over ↦
            inl (
              over,
              (λ n. ground (arith, h.clients (over.answered ∙ sym n), over.dialled)),
              h.handed,
            )
        | inr (t, m) ↦ inr (t, m)
      ],
      λ t m same. Move-relay_left h m same,
    )
