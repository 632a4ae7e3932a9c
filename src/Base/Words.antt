-- ===== src/Base/Words.antt =====
-- `strings.Split`, `strings.Join`, `strings.Fields` and `strings.ToLower`, on ASCII text.
use Prim.Native.Nat.{ℕ, ◌+◌}
use mathlib.Core.Path.{◌≡◌, refl, ap, ◌∙◌}
use mathlib.Core.Logic.{◌≢◌, inl, inr}
use mathlib.Core.Bool.{Bool, true, ◌&&◌, ◌||◌}
use mathlib.Core.List.{List, [], ◌∷◌, ◌++◌, map}
use native.Mathlib.Omega.{arith}
use metassh.Base.Tests.{◌==◌, leb, if◌then◌else◌, if_both, Bool-cases}
use metassh.Base.Lists.{All}
use metassh.Base.Text.{Str}

abbrev pub cons_head : ℕ → List Str → List Str
cons_head x [] = (x ∷ []) ∷ []
cons_head x (w ∷ ws) = (x ∷ w) ∷ ws

-- `strings.Split(s, " ")`, with the separator as its one byte.
unfoldable pub split_on : ℕ → Str → List Str
split_on c [] = [] ∷ []
split_on c (x ∷ s) = let rest = split_on c s in if x == c then [] ∷ rest else cons_head x rest

unfoldable pub join_on : ℕ → List Str → Str
join_on c [] = []
join_on c (w ∷ []) = w
join_on c (w ∷ v ∷ ws) = w ++ (c ∷ join_on c (v ∷ ws))

abbrev pub is_space : ℕ → Bool
is_space c = (c == 32) || (leb 9 c && leb c 13)

abbrev pub flush : Str → List Str → List Str
flush [] ws = ws
flush (x ∷ word) ws = (x ∷ word) ∷ ws

-- `strings.Fields`: `word` is the field that is being read.
unfoldable pub fields_from : Str → Str → List Str
fields_from word [] = flush word []
fields_from word (x ∷ s) =
    let here = flush word (fields_from [] s) in
    let more = fields_from (word ++ (x ∷ [])) s in if is_space x then here else more

unfoldable pub fields : Str → List Str
unfolding fields_from
fields s = fields_from [] s

-- A text of spaces has no field.
pub fields_blank : (s : Str) → All (λ c. is_space c ≡ true) s → fields s ≡ []
unfolding fields fields_from
fields_blank [] h = refl
fields_blank (x ∷ s) (h, hs) = rw h (fields_blank s hs)

abbrev pub lower : ℕ → ℕ
lower c = if leb b'A' c && leb c b'Z' then c + 32 else c

unfoldable pub to_lower : Str → Str
to_lower s = map lower s

-- The text does not have the separator in it.
abbrev pub Free : ℕ → Str → Type 0
Free c s = All (λ x. x ≢ c) s

cons_head_ne : (x : ℕ) (l : List Str) → cons_head x l ≢ []
cons_head_ne x [] = λ e. cc
cons_head_ne x (w ∷ ws) = λ e. cc

join-cons_head : (c x : ℕ) (l : List Str) → join_on c (cons_head x l) ≡ x ∷ join_on c l
unfolding join_on
join-cons_head c x [] = refl
join-cons_head c x (w ∷ []) = refl
join-cons_head c x (w ∷ v ∷ ws) = refl

join_nil : (c : ℕ) (l : List Str) → l ≢ [] → join_on c ([] ∷ l) ≡ c ∷ join_on c l
unfolding join_on
join_nil c [] n = absurd (n refl)
join_nil c (w ∷ ws) n = refl

cons_head-Free : (c x : ℕ) (l : List Str) → x ≢ c → All (Free c) l → All (Free c) (cons_head x l)
cons_head-Free c x [] n h = ((n, tt), tt)
cons_head-Free c x (w ∷ ws) n (f, fs) = ((n, f), fs)

split_ne : (c : ℕ) (s : Str) → split_on c s ≢ []
unfolding split_on
split_ne c [] = λ e. cc
split_ne c (x ∷ s) =
    if_both (λ (l : List Str). l ≢ []) (x == c) ([] ∷ split_on c s) (cons_head x (split_on c s))
      (λ e. cc) (cons_head_ne x (split_on c s))

pub join-split : (c : ℕ) (s : Str) → join_on c (split_on c s) ≡ s
unfolding split_on join_on
join-split c [] = refl
join-split c (x ∷ s) = elim (Bool-cases (x == c)) [
  | inl e ↦ rw e (join_nil c (split_on c s) (split_ne c s) ∙ ground (arith, join-split c s))
  | inr n ↦ rw n (join-cons_head c x (split_on c s) ∙ ap (◌∷◌ x) (join-split c s))
]

pub split-Free : (c : ℕ) (s : Str) → All (Free c) (split_on c s)
unfolding split_on
split-Free c [] = (tt, tt)
split-Free c (x ∷ s) = elim (Bool-cases (x == c)) [
  | inl e ↦ rw e (tt, split-Free c s)
  | inr n ↦ rw n (cons_head-Free c x (split_on c s) (λ p. ground arith) (split-Free c s))
]

split_word : (c : ℕ) (w : Str) → Free c w → split_on c w ≡ w ∷ []
unfolding split_on
split_word c [] h = refl
split_word c (x ∷ w) h = ground (arith, split_word c w)

split_first : (c : ℕ) (w s : Str) → Free c w → split_on c (w ++ (c ∷ s)) ≡ w ∷ split_on c s
unfolding split_on
split_first c [] s h = ground arith
split_first c (x ∷ w) s h = ground (arith, split_first c w s)

pub split-join :
    (c : ℕ) (w : Str) (ws : List Str)
    → All (Free c) (w ∷ ws)
    → split_on c (join_on c (w ∷ ws)) ≡ w ∷ ws
unfolding join_on
split-join c w [] h = split_word c w h.0
split-join c w (v ∷ ws) (h, hs) =
    split_first c w (join_on c (v ∷ ws)) h ∙ ap (◌∷◌ w) (split-join c v ws hs)
