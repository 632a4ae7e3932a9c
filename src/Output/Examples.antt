-- ===== src/Output/Examples.antt =====
-- output.go: the theorems at a line of two words, and at two goroutines.
use metassh.Base.{
  ℕ, ◌≤◌, ◌<◌, ◌≡◌, refl, Bool, true, false, List, [], ◌∷◌, ◌++◌, arith, ◌==◌, if◌then◌else◌, Str,
  bytes, ok,
}
use metassh.Output.Screen.{std_err, Output, munge, sent}
use metassh.Output.Serializer.{
  Call, prints, writes, ready, waiting, printing, Printer, set_client, Move, hand_over, print_byte,
  Reach, here, next, set_mute, start,
}
use metassh.Output.Serial.{to_do, unprinted, calls_of, do_calls, flat, Reach-serial}
use metassh.Output.Remaining.{steps_left}
use metassh.Output.Progress.{is_over, Reach-progress}

abbrev line : Str
line = bytes "hi\nyou\n"

abbrev terminal : Output
terminal = record { add_cr = true; mute = false; debug_on = true; shown = [] }

munged : munge (bytes "a\nb") ≡ 97 ∷ 10 ∷ 13 ∷ 98 ∷ []
unfolding munge
munged = refl

-- Goroutine 0 prints a text, and goroutine 1 writes one.
abbrev program : ℕ → List Call
program i =
    if i == 0 then prints std_err (bytes "a\n") ∷ [] else if i == 1 then writes line ∷ [] else []

abbrev begun : Printer
begun = record (start false program) {
  clients = set_client 0 (waiting []) (λ i. ready (program i));
  serializer = printing 0 std_err (sent terminal (bytes "a\n"));
}

abbrev halfway : Printer
halfway = record begun {
  muted = true;
  serializer = printing 0 std_err (10 ∷ 13 ∷ []);
  screen = (std_err, 97) ∷ [];
}

-- One byte is on the screen, and someone mutes the output.
to_halfway : Reach terminal (start false program) halfway
unfolding munge
to_halfway =
    set_mute true
      (next (next here (hand_over 0 (prints std_err (bytes "a\n")) [] refl refl refl refl))
        (print_byte 0 std_err 97 (10 ∷ 13 ∷ []) refl refl))
      refl

Reach-serial_example :
    (log : List (ℕ × Call)) × (o' : Output) × (do_calls log terminal ≡ ok o')
    × (flat o'.shown ≡ halfway.screen ++ unprinted halfway.serializer)
    × ((i : ℕ) → program i ≡ calls_of i log ++ to_do (halfway.clients i))
Reach-serial_example = Reach-serial terminal program refl refl to_halfway

-- Two goroutines have calls.
program_ends : (i : ℕ) → 2 ≤ i → program i ≡ []
program_ends i le = ground arith

Reach-progress_example :
    ((i : ℕ) → is_over (halfway.clients i) ≡ false → (t : Printer) × Move terminal halfway t)
    × ((t : Printer)
        → Move terminal halfway t
        → steps_left terminal 2 t < steps_left terminal 2 halfway)
    × ((mute : Bool)
        → steps_left terminal 2 (record halfway { muted = mute }) ≡ steps_left terminal 2 halfway)
Reach-progress_example = Reach-progress terminal 2 program program_ends to_halfway
