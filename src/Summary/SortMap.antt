-- ===== src/Summary/SortMap.antt =====
-- sortmap.go: the keys of a map, sorted by its values. A `float64` of seconds is known by its
-- number of nanoseconds.
use metassh.Base.{
  ℕ, Bool, List, arith, ltb, Str, Dict, lookup, keys, sort_by, Ordered, sort_by-perm,
  sort_by-Ordered,
}
use mathlib.Core.List.{Perm}
use metassh.Store.Serializer.{or_else}

-- `m[k]`, which is 0 where the key is missing.
abbrev pub at_key : Dict ℕ → Str → ℕ
at_key m k = or_else (lookup k m) 0

abbrev pub int_less : Dict ℕ → Str → Str → Bool
int_less m a b = ltb (at_key m b) (at_key m a)

abbrev pub rev_float_less : Dict ℕ → Str → Str → Bool
rev_float_less m a b = ltb (at_key m a) (at_key m b)

unfoldable pub sorted_int_keys : Dict ℕ → List Str
sorted_int_keys m = sort_by (int_less m) (keys m)

unfoldable pub sorted_rev_float_keys : Dict ℕ → List Str
sorted_rev_float_keys m = sort_by (rev_float_less m) (keys m)

-- Both lists hold the keys of the map and nothing else; the first is by falling counts, the
-- second by rising times.
pub sorted_keys_lem :
    (m : Dict ℕ)
    → (Perm (sorted_int_keys m) (keys m) × Ordered (int_less m) (sorted_int_keys m))
      × (Perm (sorted_rev_float_keys m) (keys m)
          × Ordered (rev_float_less m) (sorted_rev_float_keys m))
unfolding sorted_int_keys sorted_rev_float_keys
sorted_keys_lem m = (
  (
    sort_by-perm (int_less m) (keys m),
    sort_by-Ordered (int_less m) (λ a b e. ground arith) (keys m),
  ),
  (
    sort_by-perm (rev_float_less m) (keys m),
    sort_by-Ordered (rev_float_less m) (λ a b e. ground arith) (keys m),
  ),
)
