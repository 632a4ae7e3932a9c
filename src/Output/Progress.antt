-- ===== src/Output/Progress.antt =====
-- output.go: the steps of the serializer and its goroutines come to an end.
use metassh.Base.{
  ℕ, ◌≤◌, ◌<◌, ◌≡◌, refl, ap, ◌∙◌, inl, inr, Bool, true, false, ◌&&◌, List, [], ◌∷◌, arith, ◌==◌,
  Bool-cases,
}
use metassh.Output.Screen.{Output}
use metassh.Output.Serializer.{
  Call, heeds_mute, Client, ready, waiting, lost, Serializer, free, printing, answering, Printer,
  Move, hand_over, lose, print_byte, print_done, respond, Reach, here, next, set_mute, start,
}
use metassh.Output.Remaining.{steps_left, Reach-IsIdle, Move-steps_left}

abbrev is_waiting : Client → Bool
is_waiting (ready rest) = false
is_waiting (waiting rest) = true
is_waiting (lost c rest) = false

abbrev serves : ℕ → Serializer → Bool
serves i free = false
serves i (printing j fd left) = j == i
serves i (answering j) = j == i

-- A goroutine with nothing to call, or in a call that no response will end.
abbrev pub is_over : Client → Bool
is_over (ready []) = true
is_over (ready (c ∷ rest)) = false
is_over (waiting rest) = false
is_over (lost c rest) = true

-- Those that wait for a response are those that the serializer serves: one at most.
abbrev IsPaired : Printer → Type 0
IsPaired s = (i : ℕ) → is_waiting (s.clients i) ≡ serves i s.serializer

module _ (o : Output) where
  Move-IsPaired : {s t : Printer} → IsPaired s → Move o s t → IsPaired t
  Move-IsPaired {s} {t} h (hand_over i c rest at_i loud idle e) j = rw e (ground (arith, h j))
  Move-IsPaired {s} {t} h (lose i c rest at_i silent e) j = rw e (ground (arith, h j))
  Move-IsPaired {s} {t} h (print_byte i fd b left busy e) j = rw e (ground (arith, h j))
  Move-IsPaired {s} {t} h (print_done i fd busy e) j = rw e (ground (arith, h j))
  Move-IsPaired {s} {t} h (respond i rest busy at_i e) j = rw e (ground (arith, h j))

  Reach-IsPaired :
      (program : ℕ → List Call) {b : Bool} {s : Printer} → Reach o (start b program) s → IsPaired s
  Reach-IsPaired program here = λ i. refl
  Reach-IsPaired program (next r m) = Move-IsPaired (Reach-IsPaired program r) m
  Reach-IsPaired program (set_mute b r e) = let h = Reach-IsPaired program r in λ i. rw e (h i)

  answer_lem :
      (s : Printer) (i : ℕ) (c : Client)
      → s.serializer ≡ answering i
      → s.clients i ≡ c
      → is_waiting c ≡ true
      → (t : Printer) × Move o s t
  answer_lem s i (ready rest) busy at_i w = cc
  answer_lem s i (waiting rest) busy at_i w = (_, respond i rest busy at_i refl)
  answer_lem s i (lost c rest) busy at_i w = cc

  call_lem :
      (s : Printer) (i : ℕ) (c : Client)
      → s.serializer ≡ free
      → s.clients i ≡ c
      → is_waiting c ≡ false
      → is_over c ≡ false
      → (t : Printer) × Move o s t
  call_lem s i (ready []) idle at_i w more = cc
  call_lem s i (ready (c ∷ rest)) idle at_i w more = elim (Bool-cases (s.muted && heeds_mute c)) [
    | inl silent ↦ (_, lose i c rest at_i silent refl)
    | inr loud ↦ (_, hand_over i c rest at_i loud idle refl)
  ]
  call_lem s i (waiting rest) idle at_i w more = cc
  call_lem s i (lost c rest) idle at_i w more = cc

  serve_lem :
      (s : Printer) (i : ℕ) (z : Serializer)
      → s.serializer ≡ z
      → IsPaired s
      → is_over (s.clients i) ≡ false
      → (t : Printer) × Move o s t
  serve_lem s i free at_z h more =
      call_lem s i (s.clients i) at_z refl (h i ∙ ap (serves i) at_z) more
  serve_lem s i (printing j fd []) at_z h more = (_, print_done j fd at_z refl)
  serve_lem s i (printing j fd (b ∷ left)) at_z h more = (_, print_byte j fd b left at_z refl)
  serve_lem s i (answering j) at_z h more =
      answer_lem s j (s.clients j) at_z refl (h j ∙ ap (serves j) at_z ∙ ground arith)

  -- If finitely many goroutines have calls to make: as long as one of them has a call to make or
  -- waits for the end of one that went out, there is a step to take, and every step leaves fewer to
  -- take, also where the output is muted or turned on in between. So however the steps are ordered,
  -- they end, and then each goroutine has made its calls, but for one that is in a call on a muted
  -- output, which no response will end.
  pub Reach-progress :
      (n : ℕ) (program : ℕ → List Call) {b : Bool} {s : Printer}
      → ((i : ℕ) → n ≤ i → program i ≡ [])
      → Reach o (start b program) s
      → ((i : ℕ) → is_over (s.clients i) ≡ false → (t : Printer) × Move o s t)
        × ((t : Printer) → Move o s t → steps_left o n t < steps_left o n s)
        × ((mute : Bool) → steps_left o n (record s { muted = mute }) ≡ steps_left o n s)
  Reach-progress n program {b} {s} none_there r = (
    (λ i more. serve_lem s i s.serializer refl (Reach-IsPaired program r) more),
    (λ t m. Move-steps_left o n (Reach-IsIdle o n program none_there r) m),
    λ mute. refl,
  )
