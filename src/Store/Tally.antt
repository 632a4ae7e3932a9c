-- ===== src/Store/Tally.antt =====
-- state.go: the request `getWaiterInfo`.
use metassh.Base.{
  ℕ, suc, ◌+◌, ◌-◌, ◌*◌, ◌≤◌, ◌<◌, ◌≡◌, refl, [], ◌∷◌, arith, if◌then◌else◌, length, Str, str_eq,
  str_eq_iff, Dict, lookup,
}
use native.Mathlib.Nat.{div-add-mod, mod-lt}
use metassh.Store.Types.{WaitInfo, State}
use metassh.Store.Serializer.{bump, tally, average, waiter_info, or_else}

-- The waiters that are in a given state.
abbrev pub in_state : Str → Dict WaitInfo → ℕ
in_state st [] = 0
in_state st ((k, wi) ∷ m) =
    let rest = in_state st m in if str_eq wi.state st then suc rest else rest

abbrev pub waits : ℕ → Dict WaitInfo → ℕ
waits now [] = 0
waits now ((k, wi) ∷ m) = (now - wi.start_time) + waits now m

abbrev pub count_of : Str → Dict ℕ → ℕ
count_of st m = or_else (lookup st m) 0

bump_count :
    (k st : Str) (m : Dict ℕ)
    → count_of st (bump k m) ≡ (if str_eq k st then count_of st m + 1 else count_of st m)
unfolding bump lookup
bump_count k st [] = ground arith
bump_count k st ((j, n) ∷ m) =
    ground (arith, str_eq_iff k st, str_eq_iff j k, str_eq_iff j st, bump_count k st m)

tally_lem :
    (now : ℕ) (m : Dict WaitInfo) (states : Dict ℕ) (total : ℕ) (st : Str)
    → (count_of st (tally now m states total).0 ≡ count_of st states + in_state st m)
      × ((tally now m states total).1 ≡ total + waits now m)
unfolding tally
tally_lem now [] states total st = (omega arith, omega arith)
tally_lem now ((k, wi) ∷ m) states total st = ground (
  arith,
  bump_count wi.state st states,
  tally_lem now m (bump wi.state states) (total + (now - wi.start_time)) st,
)

average_bounds :
    (total n : ℕ) → 0 < n → (average total n * n ≤ total) × (total < (average total n + 1) * n)
unfolding average
average_bounds total n h =
    (grind (arith, div-add-mod total n), grind (arith, div-add-mod total n, mod-lt))

-- What `GetWaiterInfo` reports of one map of waiters: how many there are, how many in the state
-- `st`, and their mean wait, rounded down, which is 0 if there are none.
abbrev pub Reports : ℕ → Str → Dict WaitInfo → ℕ → Dict ℕ → ℕ → Type 0
Reports now st m number states mean =
    (number ≡ length m)
    × (count_of st states ≡ in_state st m)
    × (length m ≡ 0 → mean ≡ 0)
    × (0 < length m → (mean * length m ≤ waits now m) × (waits now m < (mean + 1) * length m))

Reports-tally :
    (now : ℕ) (m : Dict WaitInfo) (st : Str)
    → Reports now st m (length m) (tally now m [] 0).0 (average (tally now m [] 0).1 (length m))
Reports-tally now m st =
    let (counted, added) = tally_lem now m [] 0 st in
    let total : (tally now m [] 0).1 ≡ waits now m = omega (arith, added) in
    (
      refl,
      unfold lookup in omega (arith, counted),
      λ e. rw e (unfold average in refl),
      λ h. rw total (average_bounds (waits now m) (length m) h),
    )

-- The counts and the means of `getWaiterInfo` are those of the waiters, for connections and runs.
pub waiter_info_lem :
    (now : ℕ) (s : State) (st : Str)
    → let wi = waiter_info now s in
      Reports now st s.conn_waiters wi.conn_waiters wi.conn_states wi.avg_conn_wait
      × Reports now st s.run_waiters wi.run_waiters wi.run_states wi.avg_run_wait
unfolding waiter_info
waiter_info_lem now s st = (Reports-tally now s.conn_waiters st, Reports-tally now s.run_waiters st)
