-- ===== src/Output/Serializer.antt =====
-- output.go: `serializer` and the goroutines that hand their texts to it, step by step. Texts go to
-- the screen byte by byte, and any goroutine may take the next step. The writers below take all.
use metassh.Base.{ℕ, ◌≡◌, Bool, true, false, ◌&&◌, List, [], ◌∷◌, ◌++◌, ◌==◌, if◌then◌else◌, Str}
use metassh.Output.Screen.{Fd, std_out, Output, sent}

-- What a goroutine calls: `Out` and `Err`, which are `doOutput` on a file, and `Write`.
pub data Call : Type 0 where
  prints : Fd → Str → Call
  writes : Str → Call

-- The file of a request, and the bytes that it carries.
abbrev pub fd_of : Call → Fd
fd_of (prints fd text) = fd
fd_of (writes p) = std_out

abbrev pub carried : Call → Str
carried (prints fd text) = text
carried (writes p) = p

abbrev pub heeds_mute : Call → Bool
heeds_mute (prints fd text) = true
heeds_mute (writes p) = false

-- A goroutine with the calls that it has yet to make: before the next one, after its request went
-- out, and in a call on a muted output, which sends no request and waits for a response.
pub data Client : Type 0 where
  ready : List Call → Client
  waiting : List Call → Client
  lost : Call → List Call → Client

-- The serializer: before a request, with bytes of a goroutine's request to print, and before the
-- response.
pub data Serializer : Type 0 where
  free : Serializer
  printing : ℕ → Fd → Str → Serializer
  answering : ℕ → Serializer

pub record Printer : Type 0 where
  pub muted : Bool
  pub clients : ℕ → Client
  pub serializer : Serializer
  pub screen : List (Fd × ℕ)

abbrev pub set_client : ℕ → Client → (ℕ → Client) → ℕ → Client
set_client i c clients j = if i == j then c else clients j

-- A step of a goroutine or of the serializer; `add_cr` is fixed when the `Output` is made.
pub data Move (o : Output) (s t : Printer) : Type 0 where
  -- `o.reqChan <- …`, and the receive of it.
  hand_over :
      (i : ℕ) (c : Call) (rest : List Call)
      → s.clients i ≡ ready (c ∷ rest)
      → s.muted && heeds_mute c ≡ false
      → s.serializer ≡ free
      → t ≡ record s {
        clients = set_client i (waiting rest) s.clients;
        serializer = printing i (fd_of c) (sent o (carried c));
      }
      → Move o s t
  -- `<-respChan` with no request before it.
  lose :
      (i : ℕ) (c : Call) (rest : List Call)
      → s.clients i ≡ ready (c ∷ rest)
      → s.muted && heeds_mute c ≡ true
      → t ≡ record s { clients = set_client i (lost c rest) s.clients }
      → Move o s t
  print_byte :
      (i : ℕ) (fd : Fd) (b : ℕ) (left : Str)
      → s.serializer ≡ printing i fd (b ∷ left)
      → t ≡ record s { serializer = printing i fd left; screen = s.screen ++ ((fd, b) ∷ []) }
      → Move o s t
  print_done :
      (i : ℕ) (fd : Fd)
      → s.serializer ≡ printing i fd []
      → t ≡ record s { serializer = answering i }
      → Move o s t
  -- The send of the response, and the receive of it.
  respond :
      (i : ℕ) (rest : List Call)
      → s.serializer ≡ answering i
      → s.clients i ≡ waiting rest
      → t ≡ record s { clients = set_client i (ready rest) s.clients; serializer = free }
      → Move o s t

-- Beside these, anyone may mute the output and turn it on again at any time.
pub data Reach (o : Output) (s : Printer) : Printer → Type 0 where
  here : Reach o s s
  next : {t u : Printer} → Reach o s t → Move o t u → Reach o s u
  set_mute : {t u : Printer} (b : Bool) → Reach o s t → u ≡ record t { muted = b } → Reach o s u

abbrev pub start : Bool → (ℕ → List Call) → Printer
start muted program = record {
  muted = muted;
  clients = λ i. ready (program i);
  serializer = free;
  screen = [];
}
