-- ===== src/Base/Outcomes.antt =====
-- What a piece of Go code does: it returns, panics, or blocks for ever on a channel.
use mathlib.Core.Path.{◌≡◌, refl}
use mathlib.Core.Bool.{Bool, true, false}
use mathlib.Core.Option.{Option, none, some}
use metassh.Base.Tests.{if◌then◌else◌}
use metassh.Base.Text.{Str}

pub data Outcome {ℓ} (A : Type ℓ) : Type ℓ where
  ok : A → Outcome A
  panic : Outcome A
  blocked : Outcome A

infixl 5 ◌>>=◌
abbrev pub ◌>>=◌ {ℓ κ} : {A : Type ℓ} {B : Type κ} → Outcome A → (A → Outcome B) → Outcome B
ok a >>= f = f a
panic >>= f = panic
blocked >>= f = blocked

-- A Go pair of a value and an error.
pub data Result {ℓ} (A : Type ℓ) : Type ℓ where
  value : A → Result A
  failure : Str → Result A

-- Where a sequence ends, so does its first part, and the rest ends from there.
pub bind-ok {ℓ κ} :
    {A : Type ℓ} {B : Type κ} {b : B} (first : Outcome A) (rest : A → Outcome B)
    → (first >>= rest) ≡ ok b
    → (a : A) × (first ≡ ok a) × (rest a ≡ ok b)
bind-ok panic rest e = cc
bind-ok blocked rest e = cc
bind-ok (ok a) rest e = (a, refl, e)

pub ok_injective {ℓ} : {A : Type ℓ} {a b : A} → ok a ≡ ok b → a ≡ b
ok_injective h = cc

-- A computation that returns.
abbrev pub Ends {ℓ} : {A : Type ℓ} → Outcome A → Type ℓ
Ends {A} m = (a : A) × (m ≡ ok a)

pub Ends-bind {ℓ κ} :
    {A : Type ℓ} {B : Type κ} (first : Outcome A) (rest : A → Outcome B)
    → Ends first
    → ((a : A) → first ≡ ok a → Ends (rest a))
    → Ends (first >>= rest)
Ends-bind panic rest (a, e) h = cc
Ends-bind blocked rest (a, e) h = cc
Ends-bind (ok b) rest end h = h b refl

pub if-Ends {ℓ} :
    {A : Type ℓ} (b : Bool) (x y : Outcome A) → Ends x → Ends y → Ends (if b then x else y)
if-Ends true x y p q = p
if-Ends false x y p q = q

pub option-Ends {ℓ κ} :
    {X : Type ℓ} {A : Type κ} (o : Option X) (n : Outcome A) (s : X → Outcome A)
    → Ends n
    → ((x : X) → Ends (s x))
    → Ends (elim o as (λ _. Outcome A) [ none ↦ n | some x ↦ s x ])
option-Ends none n s p q = p
option-Ends (some x) n s p q = q x

-- The same for choices between computations on a state.
pub option_job-Ends {ℓ κ} :
    {X : Type ℓ} {S : Type 0} {A : Type κ} (o : Option X) (n : S → Outcome A)
    (s : X → S → Outcome A) (w : S)
    → Ends (n w)
    → ((x : X) → Ends (s x w))
    → Ends ((elim o as (λ _. S → Outcome A) [ none ↦ n | some x ↦ s x ]) w)
option_job-Ends none n s w p q = p
option_job-Ends (some x) n s w p q = q x

pub if_job-Ends {κ} :
    {S : Type 0} {A : Type κ} (b : Bool) (n s : S → Outcome A) (w : S)
    → Ends (n w)
    → Ends (s w)
    → Ends ((if b then n else s) w)
if_job-Ends true n s w p q = p
if_job-Ends false n s w p q = q
