-- ===== src/Base/Maps.antt =====
-- A Go map with string keys, as an association list in the order in which one `range` meets it.
use mathlib.Core.Path.{◌≡◌, refl}
use mathlib.Core.Bool.{Bool, true, false}
use mathlib.Core.List.{List, [], ◌∷◌}
use mathlib.Core.Option
use mathlib.Core.Option.{Option, none, some}
use native.Mathlib.Omega.{arith}
use metassh.Base.Tests.{if◌then◌else◌}
use metassh.Base.Text.{Str, str_eq, str_eq_iff}

abbrev pub Dict {ℓ} : Type ℓ → Type ℓ
Dict V = List (Str × V)

abbrev pub is_some {ℓ} : {A : Type ℓ} → Option A → Bool
is_some none = false
is_some (some a) = true

module _ {ℓ} {V : Type ℓ} where
  unfoldable pub lookup : Str → Dict V → Option V
  lookup k [] = none
  lookup k ((j, v) ∷ m) = if str_eq j k then some v else lookup k m

  unfoldable pub insert : Str → V → Dict V → Dict V
  insert k v [] = (k, v) ∷ []
  insert k v ((j, old) ∷ m) =
      let later = (j, old) ∷ insert k v m in if str_eq j k then (j, v) ∷ m else later

  unfoldable pub delete : Str → Dict V → Dict V
  delete k [] = []
  delete k ((j, v) ∷ m) = let rest = delete k m in if str_eq j k then rest else (j, v) ∷ rest

  -- An assignment to a field of the struct that the map points to.
  unfoldable pub modify : Str → (V → V) → Dict V → Dict V
  modify k f [] = []
  modify k f ((j, v) ∷ m) = if str_eq j k then (j, f v) ∷ m else (j, v) ∷ modify k f m

  abbrev pub keys : Dict V → List Str
  keys [] = []
  keys ((k, v) ∷ m) = k ∷ keys m

  pub lookup-insert :
      (k j : Str) (v : V) (m : Dict V)
      → lookup j (insert k v m) ≡ (if str_eq k j then some v else lookup j m)
  unfolding lookup insert
  lookup-insert k j v [] = refl
  lookup-insert k j v ((i, w) ∷ m) =
      ground (arith, str_eq_iff k j, str_eq_iff i k, str_eq_iff i j, lookup-insert k j v m)

  pub lookup-delete :
      (k j : Str) (m : Dict V) → lookup j (delete k m) ≡ (if str_eq k j then none else lookup j m)
  unfolding lookup delete
  lookup-delete k j [] = ground arith
  lookup-delete k j ((i, w) ∷ m) =
      ground (arith, str_eq_iff k j, str_eq_iff i k, str_eq_iff i j, lookup-delete k j m)

  pub lookup-modify :
      (k j : Str) (f : V → V) (m : Dict V)
      → lookup j (modify k f m) ≡ (if str_eq k j then Option.map f (lookup j m) else lookup j m)
  unfolding lookup modify
  lookup-modify k j f [] = ground arith
  lookup-modify k j f ((i, w) ∷ m) =
      ground (arith, str_eq_iff k j, str_eq_iff i k, str_eq_iff i j, lookup-modify k j f m)

  pub modify-none : (k : Str) (f : V → V) (m : Dict V) → lookup k m ≡ none → modify k f m ≡ m
  unfolding lookup modify
  modify-none k f [] e = refl
  modify-none k f ((i, w) ∷ m) e = ground (arith, modify-none k f m)

  -- Every entry is filed once, under the name that it carries.
  abbrev pub Keyed : (V → Str) → Dict V → Type ℓ
  Keyed name [] = Unit
  Keyed name ((k, v) ∷ m) = (name v ≡ k) × (lookup k m ≡ none) × Keyed name m

  pub lookup-delete_self : (k : Str) (m : Dict V) → lookup k (delete k m) ≡ none
  lookup-delete_self k m = ground (arith, lookup-delete k k m, str_eq_iff k k)

  pub lookup-insert_self : (k : Str) (v : V) (m : Dict V) → lookup k (insert k v m) ≡ some v
  lookup-insert_self k v m = ground (arith, lookup-insert k k v m, str_eq_iff k k)

module _ {ℓ} {V : Type ℓ} (name : V → Str) where
  pub Keyed-insert :
      (k : Str) (v : V) (m : Dict V) → name v ≡ k → Keyed name m → Keyed name (insert k v m)
  unfolding insert lookup
  Keyed-insert k v [] e h = (e, refl, tt)
  Keyed-insert k v ((j, w) ∷ m) e (n, fresh, rest) =
      ground (arith, str_eq_iff j k, lookup-insert k j v m, str_eq_iff k j, Keyed-insert k v m)

  pub Keyed-delete : (k : Str) (m : Dict V) → Keyed name m → Keyed name (delete k m)
  unfolding delete lookup
  Keyed-delete k [] h = tt
  Keyed-delete k ((j, w) ∷ m) (n, fresh, rest) =
      ground (arith, lookup-delete k j m, Keyed-delete k m)

  pub Keyed-modify :
      (k : Str) (f : V → V) (m : Dict V)
      → ((v : V) → name (f v) ≡ name v)
      → Keyed name m
      → Keyed name (modify k f m)
  unfolding modify lookup
  Keyed-modify k f [] e h = tt
  Keyed-modify k f ((j, w) ∷ m) e (n, fresh, rest) =
      ground (arith, lookup-modify k j f m, e w, Keyed-modify k f m e)
