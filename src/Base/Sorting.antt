-- ===== src/Base/Sorting.antt =====
-- `sort.Sort` and `sort.Strings`: the result is ordered and keeps the items. The order of equal
-- items, which Go leaves open, is here that of the input.
use mathlib.Core.Path.{◌≡◌, refl}
use mathlib.Core.Bool.{Bool, true, false, ◌&&◌, ◌||◌}
use mathlib.Core.Logic.{inl, inr}
use mathlib.Core.List.{List, [], ◌∷◌, Perm}
use mathlib.Core.List.Perm
use native.Mathlib.Omega.{arith}
use metassh.Base.Tests.{if◌then◌else◌, Bool-cases, ltb, ◌==◌}
use metassh.Base.Text.{Str}

module _ {ℓ} {A : Type ℓ} (less : A → A → Bool) where
  unfoldable pub place : A → List A → List A
  place x [] = x ∷ []
  place x (y ∷ ys) = let rest = place x ys in if less y x then y ∷ rest else x ∷ y ∷ ys

  unfoldable pub sort_by : List A → List A
  unfolding place
  sort_by [] = []
  sort_by (x ∷ xs) = place x (sort_by xs)

  -- No item is less than the one before it.
  abbrev pub Ordered : List A → Type 0
  Ordered [] = Unit
  Ordered (x ∷ []) = Unit
  Ordered (x ∷ y ∷ l) = (less y x ≡ false) × Ordered (y ∷ l)

  place-perm : (x : A) (l : List A) → Perm (place x l) (x ∷ l)
  unfolding place
  place-perm x [] = Perm.rfl
  place-perm x (y ∷ ys) = elim (Bool-cases (less y x)) [
    | inl p ↦ rw p (Perm.trans (Perm.cons y (place-perm x ys)) (Perm.swap x y ys))
    | inr p ↦ rw p Perm.rfl
  ]

  pub sort_by-perm : (l : List A) → Perm (sort_by l) l
  unfolding sort_by
  sort_by-perm [] = Perm.rfl
  sort_by-perm (x ∷ xs) = Perm.trans (place-perm x (sort_by xs)) (Perm.cons x (sort_by-perm xs))

  module _ (asym : (a b : A) → less a b ≡ true → less b a ≡ false) where
    place-Ordered : (x : A) (l : List A) → Ordered l → Ordered (place x l)
    unfolding place
    place-Ordered x [] o = tt
    place-Ordered x (y ∷ []) o = ground (arith, asym y x)
    place-Ordered x (y ∷ z ∷ l) o = ground (arith, asym y x, place-Ordered x (z ∷ l))

    pub sort_by-Ordered : (l : List A) → Ordered (sort_by l)
    unfolding sort_by
    sort_by-Ordered [] = tt
    sort_by-Ordered (x ∷ xs) = place-Ordered x (sort_by xs) (sort_by-Ordered xs)

-- The order of strings: byte by byte.
abbrev pub str_less : Str → Str → Bool
str_less s [] = false
str_less [] (c ∷ t) = true
str_less (b ∷ s) (c ∷ t) = ltb b c || (b == c && str_less s t)

pub str_less_asym : (s t : Str) → str_less s t ≡ true → str_less t s ≡ false
str_less_asym s [] e = ground arith
str_less_asym [] (c ∷ t) e = refl
str_less_asym (b ∷ s) (c ∷ t) e = ground (arith, str_less_asym s t)
