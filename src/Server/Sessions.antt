-- ===== src/Server/Sessions.antt =====
-- server.go: the shells of several channels, whose goroutines share `readlineSession`: the test of
-- the flag, the write that claims it, and the deferred write that frees it are steps of their own.
use mathlib.Core.Path.{subst}
use metassh.Base.{
  ℕ, zero, suc, ◌+◌, ◌≡◌, refl, ap, Bool, true, false, List, [], ◌∷◌, ◌++◌, arith, if◌then◌else◌,
  replicate,
}

-- A channel between two shells, after a test that found the flag clear, in a readline session, and
-- in a session without readline.
pub data Phase : Type 0 where
  idle : Phase
  claiming : Phase
  readline : Phase
  plain_cli : Phase

pub record Lobby : Type 0 where
  pub used : Bool
  pub phases : List Phase

-- The next step of a channel: the flag, and where the channel is.
unfoldable pub turn : Bool → Phase → Bool × Phase
turn used idle = if used then (used, plain_cli) else (used, claiming)
turn used claiming = (true, readline)
turn used readline = (false, idle)
turn used plain_cli = (used, idle)

-- The same if nobody comes between the test and the write.
abbrev pub atomic_turn : Bool → Phase → Bool × Phase
atomic_turn used idle = if used then (used, plain_cli) else (true, readline)
atomic_turn used claiming = (true, readline)
atomic_turn used readline = (false, idle)
atomic_turn used plain_cli = (used, idle)

-- Any channel may take the next step.
pub data Step (by : Bool → Phase → Bool × Phase) (s t : Lobby) : Type 0 where
  move :
      (before after : List Phase) (phase : Phase)
      → s.phases ≡ before ++ (phase ∷ after)
      → t ≡ record { used = (by s.used phase).0; phases = before ++ ((by s.used phase).1 ∷ after) }
      → Step by s t

pub data Reach (by : Bool → Phase → Bool × Phase) (s : Lobby) : Lobby → Type 0 where
  here : Reach by s s
  next : {t u : Lobby} → Reach by s t → Step by t u → Reach by s u

abbrev pub lobby : ℕ → Lobby
lobby n = record { used = false; phases = replicate n idle }

abbrev pub count_readline : List Phase → ℕ
count_readline [] = 0
count_readline (readline ∷ l) = suc (count_readline l)
count_readline (idle ∷ l) = count_readline l
count_readline (claiming ∷ l) = count_readline l
count_readline (plain_cli ∷ l) = count_readline l

abbrev pub count_claiming : List Phase → ℕ
count_claiming [] = 0
count_claiming (claiming ∷ l) = suc (count_claiming l)
count_claiming (idle ∷ l) = count_claiming l
count_claiming (readline ∷ l) = count_claiming l
count_claiming (plain_cli ∷ l) = count_claiming l

abbrev pub one_if_used : Bool → ℕ
one_if_used true = 1
one_if_used false = 0

-- One session for readline if the flag is set, and none otherwise.
pub record IsExclusive (s : Lobby) : Type 0 where
  pub one : count_readline s.phases ≡ one_if_used s.used
  pub settled : count_claiming s.phases ≡ 0

count_readline-append :
    (l m : List Phase) → count_readline (l ++ m) ≡ count_readline l + count_readline m
count_readline-append [] m = omega arith
count_readline-append (readline ∷ l) m = omega (arith, count_readline-append l m)
count_readline-append (idle ∷ l) m = count_readline-append l m
count_readline-append (claiming ∷ l) m = count_readline-append l m
count_readline-append (plain_cli ∷ l) m = count_readline-append l m

count_claiming-append :
    (l m : List Phase) → count_claiming (l ++ m) ≡ count_claiming l + count_claiming m
count_claiming-append [] m = omega arith
count_claiming-append (claiming ∷ l) m = omega (arith, count_claiming-append l m)
count_claiming-append (idle ∷ l) m = count_claiming-append l m
count_claiming-append (readline ∷ l) m = count_claiming-append l m
count_claiming-append (plain_cli ∷ l) m = count_claiming-append l m

ruleset counting = (arith, count_readline-append, count_claiming-append)

turn-IsExclusive :
    (used : Bool) (before after : List Phase) (phase : Phase)
    → IsExclusive (record { used = used; phases = before ++ (phase ∷ after) })
    → IsExclusive (record {
      used = (atomic_turn used phase).0;
      phases = before ++ ((atomic_turn used phase).1 ∷ after);
    })
turn-IsExclusive true before after idle h = omega counting
turn-IsExclusive false before after idle h = omega counting
turn-IsExclusive true before after claiming h = omega counting
turn-IsExclusive false before after claiming h = omega counting
turn-IsExclusive true before after readline h = omega counting
turn-IsExclusive false before after readline h = omega counting
turn-IsExclusive true before after plain_cli h = omega counting
turn-IsExclusive false before after plain_cli h = omega counting

Step-IsExclusive : {s t : Lobby} → IsExclusive s → Step atomic_turn s t → IsExclusive t
Step-IsExclusive {s} {t} h (move before after phase e f) = rw f (
    turn-IsExclusive s.used before after phase
      (subst (λ l. IsExclusive (record { used = s.used; phases = l })) e h))

lobby-IsExclusive : (n : ℕ) → IsExclusive (lobby n)
lobby-IsExclusive zero = record { one = refl; settled = refl }
lobby-IsExclusive (suc n) =
    let h = lobby-IsExclusive n in record { one = h.one; settled = h.settled }

-- If nobody came between the test and the write of the flag, there would be one readline session at
-- most at any time, and the flag would tell.
pub Reach-IsExclusive : (n : ℕ) {s : Lobby} → Reach atomic_turn (lobby n) s → IsExclusive s
Reach-IsExclusive n here = lobby-IsExclusive n
Reach-IsExclusive n (next r st) = Step-IsExclusive (Reach-IsExclusive n r) st

Reach-trans :
    {by : Bool → Phase → Bool × Phase} {s t u : Lobby} → Reach by s t → Reach by t u → Reach by s u
Reach-trans r here = r
Reach-trans r (next q st) = next (Reach-trans r q) st

-- The other channels do not hinder one in front.
abbrev joined : Phase → Lobby → Lobby
joined phase s = record s { phases = phase ∷ s.phases }

Step-joined :
    {by : Bool → Phase → Bool × Phase} {s t : Lobby} (first : Phase)
    → Step by s t
    → Step by (joined first s) (joined first t)
Step-joined first (move before after phase e f) =
    move (first ∷ before) after phase (ap (◌∷◌ first) e) (ap (joined first) f)

Reach-joined :
    {by : Bool → Phase → Bool × Phase} {s t : Lobby} (first : Phase)
    → Reach by s t
    → Reach by (joined first s) (joined first t)
Reach-joined first here = here
Reach-joined first (next r st) = next (Reach-joined first r) (Step-joined first st)

all_test : (n : ℕ) → Reach turn (lobby n) (record { used = false; phases = replicate n claiming })
unfolding turn
all_test zero = here
all_test (suc n) =
    Reach-trans (next here (move [] (replicate n idle) idle refl refl))
      (Reach-joined claiming (all_test n))

all_claim :
    (used : Bool) (n : ℕ)
    → Reach turn
        (record { used = used; phases = replicate (suc n) claiming })
        (record { used = true; phases = replicate (suc n) readline })
unfolding turn
all_claim used zero = next here (move [] [] claiming refl refl)
all_claim used (suc n) =
    Reach-trans (next here (move [] (replicate (suc n) claiming) claiming refl refl))
      (Reach-joined readline (all_claim true n))

replicate-readline : (n : ℕ) → count_readline (replicate n readline) ≡ n
replicate-readline zero = refl
replicate-readline (suc n) = ap suc (replicate-readline n)

-- As it is, any number of channels can be in a readline session at once: each tests the flag before
-- the first one sets it.
pub Reach-together :
    (n : ℕ) → (s : Lobby) × (Reach turn (lobby (suc n)) s) × (count_readline s.phases ≡ suc n)
Reach-together n = (
  record { used = true; phases = replicate (suc n) readline },
  Reach-trans (all_test (suc n)) (all_claim false n),
  replicate-readline (suc n),
)
