-- ===== src/Server/Dims.antt =====
-- server.go: the dimensions of a terminal in a "pty-req" and a "window-change" request.
use metassh.Base.{
  ℕ, suc, ◌+◌, ◌%◌, ◌^◌, ◌<◌, ◌≡◌, ap, ◌∙◌, List, ◌∷◌, ◌++◌, arith, leb, if◌then◌else◌, length,
  drop, length-append, drop-append, Str, Outcome, ok, panic, ◌>>=◌,
}
use metassh.Mux.Wire.{IsU32, uint32, put_uint32, push_string, uint32-put_uint32}

abbrev pub Dims : Type 0
Dims = ℕ × ℕ

-- `b[4:]` is in range where `b` had a word.
unfoldable pub parse_dims : List ℕ → Outcome Dims
unfolding uint32
parse_dims b = uint32 b >>= λ w. uint32 (drop 4 b) >>= λ h. ok (w, h)

-- `payload[termLen+4:]`, whose index is a byte.
abbrev pub pty_offset : ℕ → ℕ
pty_offset term_len = (term_len + 4) % 2 ^ 8

unfoldable pub pty_dims : List ℕ → Outcome Dims
pty_dims (a ∷ b ∷ c ∷ term_len ∷ rest) =
    let payload = a ∷ b ∷ c ∷ term_len ∷ rest in
    if leb (pty_offset term_len) (length payload)
    then parse_dims (drop (pty_offset term_len) payload)
    else panic
pty_dims _ = panic

pub record WinSize : Type 0 where
  pub height : ℕ
  pub width : ℕ

-- `uint16(w)` and `uint16(h)`
abbrev pub win_size : Dims → WinSize
win_size (w, h) = record { height = h % 2 ^ 16; width = w % 2 ^ 16 }

-- What a client sends: the name of the terminal, its columns and rows, and what else there is.
unfoldable pub pty_payload : Str → ℕ → ℕ → List ℕ → List ℕ
unfolding push_string put_uint32
pty_payload term w h rest = push_string term ++ (put_uint32 w ++ (put_uint32 h ++ rest))

pub parse_dims-put_uint32 :
    (w h : ℕ) (rest : List ℕ)
    → IsU32 w
    → IsU32 h
    → parse_dims (put_uint32 w ++ (put_uint32 h ++ rest)) ≡ ok (w, h)
unfolding parse_dims put_uint32
parse_dims-put_uint32 w h rest hw hh =
    ap (λ (m : Outcome ℕ). m >>= λ a. uint32 (put_uint32 h ++ rest) >>= λ b. ok (a, b))
      (uint32-put_uint32 w (put_uint32 h ++ rest) hw)
    ∙ ap (λ (m : Outcome ℕ). m >>= λ b. ok (w, b)) (uint32-put_uint32 h rest hh)

pty_dims_named :
    (a b c term_len : ℕ) (term rest : List ℕ)
    → pty_offset term_len ≡ suc (suc (suc (suc (length term))))
    → pty_dims (a ∷ b ∷ c ∷ term_len ∷ (term ++ rest)) ≡ parse_dims rest
unfolding pty_dims
pty_dims_named a b c term_len term rest e =
    rw e (ground (arith, length-append term rest, drop-append term rest))

-- A client's dimensions are read back, as long as the terminal's name is shorter than 252 bytes.
pub pty_dims-pty_payload :
    (term : Str) (w h : ℕ) (rest : List ℕ)
    → length term < 252
    → IsU32 w
    → IsU32 h
    → pty_dims (pty_payload term w h rest) ≡ ok (w, h)
unfolding pty_payload put_uint32
pty_dims-pty_payload term w h rest short hw hh =
    pty_dims_named _ _ _ _ term (put_uint32 w ++ (put_uint32 h ++ rest)) (omega arith)
    ∙ parse_dims-put_uint32 w h rest hw hh
