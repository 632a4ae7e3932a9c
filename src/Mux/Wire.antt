-- ===== src/Mux/Wire.antt =====
-- controlmux.go: the big-endian words, booleans and strings of the protocol. A slice has no
-- capacity beyond its length, so to slice past the length panics.
use metassh.Base.{
  ℕ, ◌+◌, ◌*◌, ◌/◌, ◌%◌, ◌^◌, ◌<◌, ◌≡◌, refl, ap, ◌∙◌, ◌↔◌, Bool, true, false, not, List, [], ◌∷◌,
  ◌++◌, arith, leb, ◌==◌, if◌then◌else◌, length, take, drop, length-append, take-append,
  drop-append, length-take, length-drop, Str, Outcome, ok, panic, ◌>>=◌, bind-ok,
}

abbrev pub IsByte : ℕ → Type 0
IsByte b = b < 256

abbrev pub IsU32 : ℕ → Type 0
IsU32 n = n < 2 ^ 32

-- `binary.BigEndian.Uint32(b)`
unfoldable pub uint32 : List ℕ → Outcome ℕ
uint32 (a ∷ b ∷ c ∷ d ∷ rest) = ok (((a * 256 + b) * 256 + c) * 256 + d)
uint32 _ = panic

-- `binary.BigEndian.PutUint32`
unfoldable pub put_uint32 : ℕ → List ℕ
put_uint32 n = (n / 2 ^ 24 % 256) ∷ (n / 2 ^ 16 % 256) ∷ (n / 2 ^ 8 % 256) ∷ (n % 256) ∷ []

unfoldable pub pull_uint32 : List ℕ → Outcome (List ℕ × ℕ)
unfolding uint32
pull_uint32 stream = uint32 stream >>= λ n. ok (drop 4 stream, n)

-- `string(stream[:length])` and `stream[length:]`; a length of 0 is answered apart.
unfoldable pub cut_string : List ℕ × ℕ → Outcome (List ℕ × Str)
cut_string (stream, n) =
    if n == 0
    then ok (stream, [])
    else if leb n (length stream)
    then ok (drop n stream, take n stream)
    else panic

unfoldable pub pull_string : List ℕ → Outcome (List ℕ × Str)
unfolding pull_uint32 cut_string
pull_string stream = pull_uint32 stream >>= cut_string

unfoldable pub pull_bool : List ℕ → Outcome (List ℕ × Bool)
unfolding uint32
pull_bool stream = uint32 stream >>= λ n. ok (drop 4 stream, not (n == 0))

-- How a client writes them.
unfoldable pub push_string : Str → List ℕ
push_string s = put_uint32 (length s) ++ s

unfoldable pub push_bool : Bool → List ℕ
push_bool true = put_uint32 1
push_bool false = put_uint32 0

pub uint32-put_uint32 : (n : ℕ) (rest : List ℕ) → IsU32 n → uint32 (put_uint32 n ++ rest) ≡ ok n
unfolding uint32 put_uint32
uint32-put_uint32 n rest h = ap ok (omega arith)

pub put_uint32-uint32 :
    (a b c d : ℕ)
    → IsByte a
    → IsByte b
    → IsByte c
    → IsByte d
    → put_uint32 (((a * 256 + b) * 256 + c) * 256 + d) ≡ a ∷ b ∷ c ∷ d ∷ []
unfolding put_uint32
put_uint32-uint32 a b c d ha hb hc hd = ground arith

pub pull_uint32-put_uint32 :
    (n : ℕ) (rest : List ℕ) → IsU32 n → pull_uint32 (put_uint32 n ++ rest) ≡ ok (rest, n)
unfolding pull_uint32 put_uint32
pull_uint32-put_uint32 n rest h = ap {B = Outcome (List ℕ × ℕ)} (λ k. ok (rest, k)) (omega arith)

pub pull_bool-push_bool :
    (b : Bool) (rest : List ℕ) → pull_bool (push_bool b ++ rest) ≡ ok (rest, b)
unfolding pull_bool push_bool put_uint32
pull_bool-push_bool true rest = refl
pull_bool-push_bool false rest = refl

cut_string-append : (s : Str) (rest : List ℕ) → cut_string (s ++ rest, length s) ≡ ok (rest, s)
unfolding cut_string
cut_string-append [] rest = refl
cut_string-append (c ∷ s) rest =
    ground (arith, length-append s rest, take-append s rest, drop-append s rest)

pub pull_string-push_string :
    (s : Str) (rest : List ℕ)
    → IsU32 (length s)
    → pull_string (push_string s ++ rest) ≡ ok (rest, s)
unfolding pull_string push_string put_uint32
pull_string-push_string s rest h =
    ap {B = Outcome (List ℕ × Str)} (λ m. m >>= cut_string)
      (pull_uint32-put_uint32 (length s) (s ++ rest) h)
    ∙ cut_string-append s rest

pub pull_uint32_takes : (s r : List ℕ) (n : ℕ) → pull_uint32 s ≡ ok (r, n) → length s ≡ 4 + length r
unfolding pull_uint32
pull_uint32_takes [] r n e = cc
pull_uint32_takes (a ∷ []) r n e = cc
pull_uint32_takes (a ∷ b ∷ []) r n e = cc
pull_uint32_takes (a ∷ b ∷ c ∷ []) r n e = cc
pull_uint32_takes (a ∷ b ∷ c ∷ d ∷ s) r n e = ground arith

pub pull_bool_takes : (s r : List ℕ) (b : Bool) → pull_bool s ≡ ok (r, b) → length s ≡ 4 + length r
unfolding pull_bool
pull_bool_takes [] r n e = cc
pull_bool_takes (a ∷ []) r n e = cc
pull_bool_takes (a ∷ b ∷ []) r n e = cc
pull_bool_takes (a ∷ b ∷ c ∷ []) r n e = cc
pull_bool_takes (a ∷ b ∷ c ∷ d ∷ s) r n e = ground arith

cut_string_takes :
    (s r : List ℕ) (n : ℕ) (t : Str)
    → cut_string (s, n) ≡ ok (r, t)
    → length s ≡ length t + length r
unfolding cut_string
cut_string_takes s r n t e = ground (arith, length-take n s, length-drop n s)

pub pull_string_takes :
    (s r : List ℕ) (t : Str) → pull_string s ≡ ok (r, t) → length s ≡ 4 + length t + length r
unfolding pull_string
pull_string_takes s r t e =
    let ((s', n), p, q) = bind-ok (pull_uint32 s) cut_string e in
    omega (arith, pull_uint32_takes s s' n p, cut_string_takes s' r n t q)

pub uint32-eq-panic : (s : List ℕ) → (uint32 s ≡ panic) ↔ (length s < 4)
unfolding uint32
uint32-eq-panic [] = (λ e. omega arith, λ h. refl)
uint32-eq-panic (a ∷ []) = (λ e. omega arith, λ h. refl)
uint32-eq-panic (a ∷ b ∷ []) = (λ e. omega arith, λ h. refl)
uint32-eq-panic (a ∷ b ∷ c ∷ []) = (λ e. omega arith, λ h. refl)
uint32-eq-panic (a ∷ b ∷ c ∷ d ∷ s) = (λ e. cc, λ h. absurd (omega arith))
