-- ===== src/Output/Serial.antt =====
-- output.go: whatever the order of the goroutines' steps, the serializer does what the calls, one
-- after another, do.
use metassh.Base.{
  ℕ, ◌≡◌, refl, sym, ap, ◌∙◌, Bool, false, none, List, [], ◌∷◌, ◌++◌, arith, ◌==◌, if◌then◌else◌,
  length, take, Str, Outcome, ok, ◌>>=◌,
}
use mathlib.Core.List.{append_assoc, append-nil}
use metassh.Output.Screen.{Fd, Output, sent, write, do_output}
use metassh.Output.Serializer.{
  Call, prints, writes, fd_of, carried, Client, ready, waiting, lost, Serializer, free, printing,
  answering, Printer, Move, hand_over, lose, print_byte, print_done, respond, Reach, here, next,
  set_mute, start,
}

-- The bytes of a text, each with its file.
abbrev pub tag : Fd → Str → List (Fd × ℕ)
tag fd [] = []
tag fd (b ∷ bs) = (fd, b) ∷ tag fd bs

-- The bytes of the calls in the order of the log.
abbrev pub bytes_of : Output → List (ℕ × Call) → List (Fd × ℕ)
bytes_of o [] = []
bytes_of o ((i, c) ∷ log) = tag (fd_of c) (sent o (carried c)) ++ bytes_of o log

-- The calls of one goroutine in the log.
abbrev pub calls_of : ℕ → List (ℕ × Call) → List Call
calls_of i [] = []
calls_of i ((j, c) ∷ log) = if j == i then c ∷ calls_of i log else calls_of i log

abbrev pub to_do : Client → List Call
to_do (ready rest) = rest
to_do (waiting rest) = rest
to_do (lost c rest) = c ∷ rest

abbrev pub unprinted : Serializer → List (Fd × ℕ)
unprinted free = []
unprinted (printing i fd left) = tag fd left
unprinted (answering i) = []

bytes_of-snoc :
    (o : Output) (log : List (ℕ × Call)) (i : ℕ) (c : Call)
    → bytes_of o (log ++ ((i, c) ∷ [])) ≡ bytes_of o log ++ tag (fd_of c) (sent o (carried c))
bytes_of-snoc o [] i c = append-nil _
bytes_of-snoc o ((j, d) ∷ log) i c =
    ap (λ l. tag (fd_of d) (sent o (carried d)) ++ l) (bytes_of-snoc o log i c)
    ∙ sym (append_assoc (tag (fd_of d) (sent o (carried d))) (bytes_of o log) _)

calls_of-snoc :
    (j : ℕ) (log : List (ℕ × Call)) (i : ℕ) (c : Call)
    → calls_of j (log ++ ((i, c) ∷ [])) ≡ calls_of j log ++ (if i == j then c ∷ [] else [])
calls_of-snoc j [] i c = refl
calls_of-snoc j ((k, d) ∷ log) i c = ground (arith, calls_of-snoc j log i c)

-- The log explains the state: the screen with what is yet to be printed is the log's bytes, and
-- each goroutine's program is its calls in the log and those that it has yet to make.
pub record Explains (o : Output) (program : ℕ → List Call) (log : List (ℕ × Call)) (s : Printer)
    : Type 0 where
  pub whole : s.screen ++ unprinted s.serializer ≡ bytes_of o log
  pub in_order : (i : ℕ) → program i ≡ calls_of i log ++ to_do (s.clients i)

module _ (o : Output) (program : ℕ → List Call) where
  Move-Explains :
      {s t : Printer} (log : List (ℕ × Call))
      → Explains o program log s
      → Move o s t
      → (log' : List (ℕ × Call)) × Explains o program log' t
  Move-Explains {s} {t} log h (hand_over i c rest at_i loud idle e) = (
    log ++ ((i, c) ∷ []),
    rw e (record {
      whole =
          ap (λ l. l ++ tag (fd_of c) (sent o (carried c)))
            (sym (append-nil s.screen) ∙ (rw idle at h.whole))
          ∙ sym (bytes_of-snoc o log i c);
      in_order = λ j. ground (
        arith,
        h.in_order j,
        calls_of-snoc j log i c,
        append_assoc (calls_of j log) (c ∷ []) rest,
        append-nil (calls_of j log),
      );
    }),
  )
  Move-Explains {s} {t} log h (lose i c rest at_i silent e) =
      (log, rw e (record { whole = h.whole; in_order = λ j. ground (arith, h.in_order j) }))
  Move-Explains {s} {t} log h (print_byte i fd b left busy e) = (
    log,
    rw e (record {
      whole = append_assoc s.screen ((fd, b) ∷ []) (tag fd left) ∙ (rw busy at h.whole);
      in_order = h.in_order;
    }),
  )
  Move-Explains {s} {t} log h (print_done i fd busy e) =
      (log, rw e (record { whole = rw busy at h.whole; in_order = h.in_order }))
  Move-Explains {s} {t} log h (respond i rest busy at_i e) = (
    log,
    rw e (record { whole = rw busy at h.whole; in_order = λ j. ground (arith, h.in_order j) }),
  )

  Reach-Explains :
      {b : Bool} {s : Printer}
      → Reach o (start b program) s
      → (log : List (ℕ × Call)) × Explains o program log s
  Reach-Explains here = ([], record { whole = refl; in_order = λ i. refl })
  Reach-Explains (next r m) = let (log, h) = Reach-Explains r in Move-Explains log h m
  Reach-Explains (set_mute b r e) =
      let (log, h) = Reach-Explains r in
      (log, rw e (record { whole = h.whole; in_order = h.in_order }))

-- The calls one after another, by whichever goroutine, with a writer below that takes all.
abbrev pub do_call : Call → Output → Outcome Output
do_call (prints fd text) o = do_output fd text o
do_call (writes p) o = ok (write (λ q. (length q, none)) p o).0

abbrev pub do_calls : List (ℕ × Call) → Output → Outcome Output
do_calls [] o = ok o
do_calls ((i, c) ∷ log) o = do_call c o >>= do_calls log

abbrev pub flat : List (Fd × Str) → List (Fd × ℕ)
flat [] = []
flat ((fd, text) ∷ l) = tag fd text ++ flat l

flat-append : (l m : List (Fd × Str)) → flat (l ++ m) ≡ flat l ++ flat m
flat-append [] m = refl
flat-append ((fd, text) ∷ l) m =
    ap (λ r. tag fd text ++ r) (flat-append l m)
    ∙ sym (append_assoc (tag fd text) (flat l) (flat m))

take_all : (p : Str) → take (length p) p ≡ p
take_all [] = refl
take_all (c ∷ cs) = ap (λ l. c ∷ l) (take_all cs)

shows : Output → Fd → Str → Output
shows o fd text = record o { shown = o.shown ++ ((fd, text) ∷ []) }

do_call_lem :
    (c : Call) (o : Output)
    → o.mute ≡ false
    → do_call c o ≡ ok (shows o (fd_of c) (sent o (carried c)))
unfolding do_output write shows
do_call_lem (prints fd text) o loud = rw loud refl
do_call_lem (writes p) o loud = rw (take_all (sent o p)) refl

do_calls_lem :
    (log : List (ℕ × Call)) (o : Output)
    → o.mute ≡ false
    → (o' : Output) × (do_calls log o ≡ ok o') × (flat o'.shown ≡ flat o.shown ++ bytes_of o log)
unfolding shows
do_calls_lem [] o loud = (o, refl, sym (append-nil (flat o.shown)))
do_calls_lem ((i, c) ∷ log) o loud =
    let text = sent o (carried c) in
    let (o', e, f) = do_calls_lem log (shows o (fd_of c) text) loud in
    (
      o',
      rw (do_call_lem c o loud) e,
      f
          ∙ ap (λ l. l ++ bytes_of o log) (flat-append o.shown ((fd_of c, text) ∷ []))
          ∙ ap (λ l. (flat o.shown ++ l) ++ bytes_of o log) (append-nil (tag (fd_of c) text))
          ∙ append_assoc (flat o.shown) (tag (fd_of c) text) (bytes_of o log),
    )

-- Whatever the order of the steps, and whoever mutes the output meanwhile, there is an order of
-- calls in which each goroutine's program is its calls and then those that it has yet to make, and
-- whose calls, one after another on the unmuted output, show what is on the screen together with
-- what the serializer is still printing: no two texts are mixed.
pub Reach-serial :
    (o : Output) (program : ℕ → List Call) {b : Bool} {s : Printer}
    → o.mute ≡ false
    → o.shown ≡ []
    → Reach o (start b program) s
    → (log : List (ℕ × Call)) × (o' : Output) × (do_calls log o ≡ ok o')
      × (flat o'.shown ≡ s.screen ++ unprinted s.serializer)
      × ((i : ℕ) → program i ≡ calls_of i log ++ to_do (s.clients i))
Reach-serial o program {b} {s} loud empty r =
    let (log, h) = Reach-Explains o program r in
    let (o', e, f) = do_calls_lem log o loud in (log, o', e, f ∙ rw empty (sym h.whole), h.in_order)
