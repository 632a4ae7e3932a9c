-- ===== src/Output/Remaining.antt =====
-- output.go: the steps that are left to the serializer and its goroutines.
use metassh.Base.{
  ℕ, zero, suc, ◌+◌, ◌≤◌, ◌<◌, ◌≡◌, refl, ap, ◌≢◌, inl, inr, Bool, List, [], ◌∷◌, arith, ltb, ◌==◌,
  Bool-cases, length,
}
use metassh.Output.Screen.{Output, sent}
use metassh.Output.Serializer.{
  Call, carried, Client, ready, waiting, lost, Serializer, free, printing, answering, Printer,
  set_client, Move, hand_over, lose, print_byte, print_done, respond, Reach, here, next, set_mute,
  start,
}

module _ (o : Output) where
  -- A call goes out, prints its bytes, ends its printing and is answered.
  abbrev pub calls_left : List Call → ℕ
  calls_left [] = 0
  calls_left (c ∷ rest) = 4 + length (sent o (carried c)) + calls_left rest

  abbrev pub client_left : Client → ℕ
  client_left (ready calls) = calls_left calls
  client_left (waiting rest) = calls_left rest
  client_left (lost c rest) = calls_left rest

  abbrev pub serializer_left : Serializer → ℕ
  serializer_left free = 0
  serializer_left (printing i fd text) = 2 + length text
  serializer_left (answering i) = 1

  -- Of the goroutines below `n`.
  abbrev pub clients_left : (ℕ → Client) → ℕ → ℕ
  clients_left cs zero = 0
  clients_left cs (suc n) = client_left (cs n) + clients_left cs n

  abbrev pub steps_left : ℕ → Printer → ℕ
  steps_left n s = serializer_left s.serializer + clients_left s.clients n

  clients_left_beyond :
      (i : ℕ) (c : Client) (cs : ℕ → Client) (n : ℕ)
      → n ≤ i
      → clients_left (set_client i c cs) n ≡ clients_left cs n
  clients_left_beyond i c cs zero le = refl
  clients_left_beyond i c cs (suc n) le = ground (arith, clients_left_beyond i c cs n (omega arith))

  clients_left-set_client :
      (i : ℕ) (c : Client) (cs : ℕ → Client) (n : ℕ)
      → i < n
      → clients_left (set_client i c cs) n + client_left (cs i) ≡ clients_left cs n + client_left c
  clients_left-set_client i c cs zero lt = absurd (omega arith)
  clients_left-set_client i c cs (suc n) lt = elim (Bool-cases (i == n)) [
    | inl last ↦
        let same : i ≡ n = ground arith in ground (arith, same, clients_left_beyond i c cs n)
    | inr before ↦ ground (arith, clients_left-set_client i c cs n)
  ]

  -- The goroutines from `n` on have nothing to call.
  abbrev pub IsIdle : ℕ → Printer → Type 0
  IsIdle n s = (i : ℕ) → n ≤ i → s.clients i ≡ ready []

  works_below : (n i : ℕ) (s : Printer) → IsIdle n s → s.clients i ≢ ready [] → i < n
  works_below n i s idle busy = elim (Bool-cases (ltb i n)) [
    | inl lt ↦ ground arith
    | inr ge ↦ absurd (busy (idle i (ground arith)))
  ]

  busy_ready : (x : Client) (c : Call) (rest : List Call) → x ≡ ready (c ∷ rest) → x ≢ ready []
  busy_ready x c rest e q = cc

  busy_waiting : (x : Client) (rest : List Call) → x ≡ waiting rest → x ≢ ready []
  busy_waiting x rest e q = cc

  set_client-IsIdle :
      (n i : ℕ) (c : Client) (s : Printer)
      → IsIdle n s
      → i < n
      → (j : ℕ) → n ≤ j
      → set_client i c s.clients j ≡ ready []
  set_client-IsIdle n i c s idle lt j le = ground (arith, idle j le)

  Move-IsIdle : (n : ℕ) {s t : Printer} → IsIdle n s → Move o s t → IsIdle n t
  Move-IsIdle n {s} {t} h (hand_over i c rest at_i loud free_now e) = rw e (
      set_client-IsIdle n i (waiting rest) s h
        (works_below n i s h (busy_ready (s.clients i) c rest at_i)))
  Move-IsIdle n {s} {t} h (lose i c rest at_i silent e) = rw e (
      set_client-IsIdle n i (lost c rest) s h
        (works_below n i s h (busy_ready (s.clients i) c rest at_i)))
  Move-IsIdle n {s} {t} h (print_byte i fd b left busy e) = rw e h
  Move-IsIdle n {s} {t} h (print_done i fd busy e) = rw e h
  Move-IsIdle n {s} {t} h (respond i rest busy at_i e) = rw e (
      set_client-IsIdle n i (ready rest) s h
        (works_below n i s h (busy_waiting (s.clients i) rest at_i)))

  pub Reach-IsIdle :
      (n : ℕ) (program : ℕ → List Call) {b : Bool} {s : Printer}
      → ((i : ℕ) → n ≤ i → program i ≡ [])
      → Reach o (start b program) s
      → IsIdle n s
  Reach-IsIdle n program none_there here = λ i le. ap (λ cs. ready cs) (none_there i le)
  Reach-IsIdle n program none_there (next r m) =
      Move-IsIdle n (Reach-IsIdle n program none_there r) m
  Reach-IsIdle n program none_there (set_mute b r e) =
      let h = Reach-IsIdle n program none_there r in λ i le. rw e (h i le)

  pub Move-steps_left :
      (n : ℕ) {s t : Printer} → IsIdle n s → Move o s t → steps_left n t < steps_left n s
  Move-steps_left n {s} {t} h (hand_over i c rest at_i loud free_now e) =
      let below = works_below n i s h (busy_ready (s.clients i) c rest at_i) in
      let kept = clients_left-set_client i (waiting rest) s.clients n below in
      rw e (ground (arith, rw at_i at kept))
  Move-steps_left n {s} {t} h (lose i c rest at_i silent e) =
      let below = works_below n i s h (busy_ready (s.clients i) c rest at_i) in
      let kept = clients_left-set_client i (lost c rest) s.clients n below in
      rw e (ground (arith, rw at_i at kept))
  Move-steps_left n {s} {t} h (print_byte i fd b left busy e) = rw e (ground arith)
  Move-steps_left n {s} {t} h (print_done i fd busy e) = rw e (ground arith)
  Move-steps_left n {s} {t} h (respond i rest busy at_i e) =
      let below = works_below n i s h (busy_waiting (s.clients i) rest at_i) in
      let kept = clients_left-set_client i (ready rest) s.clients n below in
      rw e (ground (arith, rw at_i at kept))
