-- ===== src/Mux/Frames.antt =====
-- controlmux.go: `readMsg` and `sendMsg`, which put a length in front of each message.
use metassh.Base.{
  ℕ, zero, suc, ◌+◌, ◌*◌, ◌%◌, ◌^◌, ◌<◌, ◌≡◌, refl, ap, ◌↔◌, Option, none, some, List, [], ◌∷◌,
  ◌++◌, arith, ◌==◌, if◌then◌else◌, length, replicate, Outcome, ok, panic, ◌>>=◌,
}
use mathlib.Core.List.{append-nil}
use native.Mathlib.Nat.{zero-add, suc-add}
use metassh.Mux.Wire.{uint32-eq-panic, uint32, put_uint32, IsU32, uint32-put_uint32}
use metassh.Mux.Messages.{ControlMsg}

-- What one `conn.Read(buf)` brings: bytes, at most as many as `buf` holds, or an error.
pub data Read : Type 0 where
  got : List ℕ → Read
  failed : Read

-- A buffer of `n` zeros after a read into it.
unfoldable pub fill : ℕ → List ℕ → List ℕ
fill zero chunk = []
fill (suc n) [] = 0 ∷ fill n []
fill (suc n) (b ∷ chunk) = b ∷ fill n chunk

-- The second half of `readMsg`: a buffer of `more` bytes, read into.
unfoldable pub read_body : ℕ → Read → Outcome (Option ControlMsg)
unfolding fill uint32
read_body more failed = ok none
read_body more (got chunk) = uint32 (fill more chunk) >>= λ msg_type.
    ok (some (record { msg_type = msg_type; payload = fill more chunk; bytes_read = length chunk }))

-- `readMsg`, by what its two reads bring; `none` where it returns without a message.
unfoldable pub read_msg : Read → (ℕ → Read) → Outcome (Option ControlMsg)
unfolding read_body
read_msg failed body = ok none
read_msg (got header) body =
    if length header == 4 then (uint32 header >>= λ more. read_body more (body more)) else ok none

-- `sendMsg`: the two writes.
unfoldable pub send_msg : List ℕ → List ℕ × List ℕ
send_msg message = (put_uint32 (length message % 2 ^ 32), message)

fill_lem : (chunk : List ℕ) (n : ℕ) → fill (length chunk + n) chunk ≡ chunk ++ replicate n 0
unfolding fill
fill_lem [] zero = refl
fill_lem [] (suc n) = rw zero-add (ap (◌∷◌ 0) (rw zero-add at (fill_lem [] n)))
fill_lem (b ∷ chunk) n = rw suc-add (ap (◌∷◌ b) (fill_lem chunk n))

length-fill : (n : ℕ) (chunk : List ℕ) → length (fill n chunk) ≡ n
unfolding fill
length-fill zero chunk = refl
length-fill (suc n) [] = omega (arith, length-fill n [])
length-fill (suc n) (b ∷ chunk) = omega (arith, length-fill n chunk)

fill_full : (chunk : List ℕ) → fill (length chunk) chunk ≡ chunk
unfolding fill
fill_full [] = refl
fill_full (b ∷ chunk) = ap (◌∷◌ b) (fill_full chunk)

read_body-eq-panic : (n : ℕ) (chunk : List ℕ) → (read_body n (got chunk) ≡ panic) ↔ (n < 4)
unfolding read_body
read_body-eq-panic n chunk = (
  λ e. ground (arith, uint32-eq-panic (fill n chunk), length-fill n chunk),
  λ h. ground (arith, uint32-eq-panic (fill n chunk), length-fill n chunk),
)

-- A message that is written by `sendMsg` is read back by `readMsg` when both reads are whole.
pub read_msg-send_msg :
    (message : List ℕ) (msg_type : ℕ)
    → IsU32 (length message)
    → uint32 message ≡ ok msg_type
    → let (header, body) = send_msg message in
      read_msg (got header) (λ _. got body)
      ≡ ok (some (record { msg_type = msg_type; payload = message; bytes_read = length message }))
unfolding read_msg send_msg put_uint32
read_msg-send_msg message msg_type fits e = ground (
  arith,
  uint32-put_uint32 (length message % 2 ^ 32) [],
  append-nil (put_uint32 (length message % 2 ^ 32)),
  fill_full message,
)

-- A header that announces fewer than four bytes takes the program down, as soon as the second read
-- succeeds.
pub read_msg-eq-panic :
    (a b c d : ℕ) (body : ℕ → Read) (chunk : List ℕ)
    → let more = ((a * 256 + b) * 256 + c) * 256 + d in
      body more ≡ got chunk → (read_msg (got (a ∷ b ∷ c ∷ d ∷ [])) body ≡ panic) ↔ (more < 4)
unfolding read_msg
read_msg-eq-panic a b c d body chunk e = rw e (read_body-eq-panic _ chunk)

-- A second read that stops short is not noticed: the rest of the message is taken to be zeros.
pub read_msg_short :
    (a b c d e f g h n : ℕ) (chunk : List ℕ)
    → let got_bytes = e ∷ f ∷ g ∷ h ∷ chunk in
      ((a * 256 + b) * 256 + c) * 256 + d ≡ length got_bytes + n
      → read_msg (got (a ∷ b ∷ c ∷ d ∷ [])) (λ _. got got_bytes)
        ≡ ok (
            some (record {
              msg_type = ((e * 256 + f) * 256 + g) * 256 + h;
              payload = got_bytes ++ replicate n 0;
              bytes_read = length got_bytes;
            }))
unfolding read_msg
read_msg_short a b c d e f g h n chunk p = rw (p, fill_lem (e ∷ f ∷ g ∷ h ∷ chunk) n)
