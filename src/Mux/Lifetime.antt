-- ===== src/Mux/Lifetime.antt =====
-- controlmux.go: the goroutines of one `Mux`: the accept loop, the readers, the handler, and the
-- calls of `Close`. Any of them may take the next step.
use metassh.Base.{
  ℕ, ◌+◌, ◌≤◌, ◌≡◌, refl, sym, ◌∙◌, ◌≢◌, Bool, true, false, Option, none, some, List, [], ◌∷◌,
  arith, ◌==◌, if◌then◌else◌, ok,
}
use metassh.Mux.Messages.{ControlMsg}
use metassh.Mux.Frames.{Read, read_msg}
use metassh.Mux.Handler.{
  Mux, Action, reply, close_conn, read_again, close_on_exec, request_pty, copy_stdin, copy_stdout,
  copy_stderr, start, shell, wait, SessionEnv, handle_msg,
}

-- The goroutine of `readMsg` for a connection: before its reads, with a message for the channel
-- `cc`, and returned.
pub data Reader : Type 0 where
  reading : Reader
  holding : ControlMsg → Reader
  over : Reader

-- A call of `Close`: before it, before its request is received, and returned.
pub data Closer : Type 0 where
  uncalled : Closer
  asking : Closer
  returned : Closer

pub record Master : Type 0 where
  pub mux : Mux
  pub accepting : Bool
  pub handling : Bool
  pub readers : ℕ → Reader
  pub accepted : ℕ
  pub closers : ℕ → Closer

abbrev pub set_at : {A : Type 0} → ℕ → A → (ℕ → A) → ℕ → A
set_at i a f j = if i == j then a else f j

-- What the reader of a message does next, by the actions of the handler.
abbrev pub after_actions : List Action → Reader
after_actions [] = over
after_actions (read_again ∷ acts) = reading
after_actions (reply p ∷ acts) = after_actions acts
after_actions (close_conn ∷ acts) = after_actions acts
after_actions (close_on_exec fd ∷ acts) = after_actions acts
after_actions (request_pty term h w ∷ acts) = after_actions acts
after_actions (copy_stdin fd ∷ acts) = after_actions acts
after_actions (copy_stdout fd ∷ acts) = after_actions acts
after_actions (copy_stderr fd ∷ acts) = after_actions acts
after_actions (start cmd ∷ acts) = after_actions acts
after_actions (shell ∷ acts) = after_actions acts
after_actions (wait sid ∷ acts) = after_actions acts

abbrev pub after_read : Option ControlMsg → Reader
after_read none = over
after_read (some msg) = holding msg

pub data Move (pid : ℕ) (s t : Master) : Type 0 where
  accept :
      s.accepting ≡ true
      → s.mux.listening ≡ true
      → t ≡ record s { readers = set_at s.accepted reading s.readers; accepted = s.accepted + 1 }
      → Move pid s t
  -- The loop returns at any error of `AcceptUnix`.
  accept_fails : s.accepting ≡ true → t ≡ record s { accepting = false } → Move pid s t
  reads :
      (i : ℕ) (header : Read) (body : ℕ → Read) (res : Option ControlMsg)
      → s.readers i ≡ reading
      → read_msg header body ≡ ok res
      → t ≡ record s { readers = set_at i (after_read res) s.readers }
      → Move pid s t
  -- `m.cc <- controlMsg{…}`, and the round of the handler that receives it.
  deliver :
      (i : ℕ) (msg : ControlMsg) (env : SessionEnv) (mux : Mux) (acts : List Action)
      → s.handling ≡ true
      → s.readers i ≡ holding msg
      → handle_msg pid s.mux msg env ≡ ok (mux, acts)
      → t ≡ record s { mux = mux; readers = set_at i (after_actions acts) s.readers }
      → Move pid s t
  call_close :
      (k : ℕ)
      → s.closers k ≡ uncalled
      → t ≡ record s { closers = set_at k asking s.closers }
      → Move pid s t
  -- `m.cc <- controlKill{…}`, the last round of the handler, and its response.
  close :
      (k : ℕ)
      → s.handling ≡ true
      → s.closers k ≡ asking
      → t ≡ record s {
        mux = record (s.mux) { listening = false };
        handling = false;
        closers = set_at k returned s.closers;
      }
      → Move pid s t

pub data Reach (pid : ℕ) (s : Master) : Master → Type 0 where
  here : Reach pid s s
  next : {t u : Master} → Reach pid s t → Move pid t u → Reach pid s u

-- What `NewMux` leaves behind.
abbrev pub made : Mux → Master
made mux = record {
  mux = mux;
  accepting = true;
  handling = true;
  readers = λ i. over;
  accepted = 0;
  closers = λ k. uncalled;
}

-- Once a `Close` has returned, the handler has returned and the listener is closed; no reader is
-- there before its connection.
pub record IsSettled (s : Master) : Type 0 where
  pub shut : s.handling ≡ false → s.mux.listening ≡ false
  pub done : (k : ℕ) → s.closers k ≡ returned → s.handling ≡ false
  pub unused : (i : ℕ) → s.accepted ≤ i → s.readers i ≡ over

true_ne_false : true ≢ false
true_ne_false e = cc

module _ (pid : ℕ) where
  Move-IsSettled : {s t : Master} → IsSettled s → Move pid s t → IsSettled t
  Move-IsSettled {s} {t} h (accept open_loop listens e) =
      rw e (record { shut = h.shut; done = h.done; unused = λ i le. ground (arith, h.unused i) })
  Move-IsSettled {s} {t} h (accept_fails open_loop e) =
      rw e (record { shut = h.shut; done = h.done; unused = h.unused })
  Move-IsSettled {s} {t} h (reads i header body res at_i got e) =
      rw e (record { shut = h.shut; done = h.done; unused = λ j le. ground (arith, h.unused j) })
  Move-IsSettled {s} {t} h (deliver i msg env mux acts on at_i handled e) =
      rw e (record { shut = λ off. cc; done = h.done; unused = λ j le. ground (arith, h.unused j) })
  Move-IsSettled {s} {t} h (call_close k at_k e) =
      rw e (record { shut = h.shut; done = λ j q. ground (arith, h.done j); unused = h.unused })
  Move-IsSettled {s} {t} h (close k on at_k e) =
      rw e (record { shut = λ off. refl; done = λ j q. refl; unused = h.unused })

  Reach-IsSettled : {s t : Master} → IsSettled s → Reach pid s t → IsSettled t
  Reach-IsSettled h here = h
  Reach-IsSettled h (next r m) = Move-IsSettled (Reach-IsSettled h r) m

-- A message that waits for the handler, and a call of `Close` that does.
abbrev pub Stranded : Master → Master → Type 0
Stranded s t =
    (t.handling ≡ false)
    × ((i : ℕ) (msg : ControlMsg) → s.readers i ≡ holding msg → t.readers i ≡ holding msg)
    × ((k : ℕ) → s.closers k ≡ asking → t.closers k ≡ asking)

module _ (pid : ℕ) (s : Master) where
  Move-Stranded : {t u : Master} → IsSettled t → Stranded s t → Move pid t u → Stranded s u
  Move-Stranded {t} {u} v (off, held, asked) (accept open_loop listens e) =
      absurd (true_ne_false (sym listens ∙ v.shut off))
  Move-Stranded {t} {u} v (off, held, asked) (accept_fails open_loop e) = rw e (off, held, asked)
  Move-Stranded {t} {u} v (off, held, asked) (reads i header body res at_i got e) =
      rw e (off, (λ j msg q. ground (arith, held j msg q)), asked)
  Move-Stranded {t} {u} v (off, held, asked) (deliver i msg env mux acts on at_i handled e) =
      absurd (true_ne_false (sym on ∙ off))
  Move-Stranded {t} {u} v (off, held, asked) (call_close k at_k e) =
      rw e (off, held, λ j q. ground (arith, asked j q))
  Move-Stranded {t} {u} v (off, held, asked) (close k on at_k e) =
      absurd (true_ne_false (sym on ∙ off))

  Reach-Stranded : {t : Master} → IsSettled s → s.handling ≡ false → Reach pid s t → Stranded s t
  Reach-Stranded v off here = (off, (λ i msg q. q), λ k q. q)
  Reach-Stranded v off (next r m) =
      Move-Stranded (Reach-IsSettled pid v r) (Reach-Stranded v off r) m

-- Once a `Close` of a `Mux` has returned, nobody is accepted any more; a reader that holds a
-- message then, and any other call of `Close`, waits for good, whatever steps follow.
pub Close-Stranded :
    (pid : ℕ) (mux : Mux) (k : ℕ) {s t : Master}
    → Reach pid (made mux) s
    → s.closers k ≡ returned
    → Reach pid s t
    → (t.mux.listening ≡ false) × Stranded s t
Close-Stranded pid mux k {s} {t} r done later =
    let v = Reach-IsSettled pid made_settled r in
    let stranded = Reach-Stranded pid s v (v.done k done) later in
    ((Reach-IsSettled pid v later).shut stranded.0, stranded)
  where
    made_settled : IsSettled (made mux)
    made_settled = record { shut = λ off. cc; done = λ j q. cc; unused = λ i le. refl }
