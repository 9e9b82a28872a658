-- ===== src/Base/Results.antt =====
-- The result of a method that may fail: a value, or the message of a Go `error`.
use native.Mathlib.Omega.{arith}
use Prim.Native.String.{String}
use mathlib.Core.Path.{◌≡◌, refl}
use mathlib.Core.Bool.{Bool, true, false}
use mathlib.Core.Option.{Option, none, some}
use mathlib.Core.Logic.{◌⊎◌, inl, inr}

abbrev pub Error : Type 0
Error = String

pub data Outcome {ℓ} (A : Type ℓ) : Type ℓ where
  done : A → Outcome A
  failed : Error → Outcome A

pub Outcome-cases {ℓ} :
    {A : Type ℓ} (o : Outcome A) → ((a : A) × (o ≡ done a)) ⊎ ((e : Error) × (o ≡ failed e))
Outcome-cases (done a) = inl (a, refl)
Outcome-cases (failed e) = inr (e, refl)

infixl 5 ◌>>=◌ ◌>>◌
abbrev pub ◌>>=◌ {ℓ κ} : {A : Type ℓ} {B : Type κ} → Outcome A → (A → Outcome B) → Outcome B
done a >>= f = f a
failed e >>= f = failed e

abbrev pub ◌>>◌ {ℓ} : {B : Type ℓ} → Outcome (Unit {0}) → Outcome B → Outcome B
m >> k = m >>= λ _. k

-- `if test { return errors.New(e) }`
abbrev pub fail_if : Bool → Error → Outcome (Unit {0})
fail_if true e = failed e
fail_if false e = done tt

-- The value, or the error of a call that failed.
abbrev pub require {ℓ} : {A : Type ℓ} → Option A → Error → Outcome A
require none e = failed e
require (some a) e = done a

-- What a chain that succeeds says of its first call.
pub bind-done {ℓ κ} :
    {A : Type ℓ} {B : Type κ} (o : Outcome A) (f : A → Outcome B) (b : B)
    → (o >>= f) ≡ done b
    → (a : A) × (o ≡ done a) × (f a ≡ done b)
bind-done (done a) f b h = (a, refl, h)
bind-done (failed e) f b h = absurd (ground arith)

pub fail_if-done {ℓ} :
    {B : Type ℓ} (test : Bool) (e : Error) (k : Outcome B) (b : B)
    → (fail_if test e >> k) ≡ done b
    → (test ≡ false) × (k ≡ done b)
fail_if-done true e k b h = absurd (ground arith)
fail_if-done false e k b h = (refl, h)

pub require-done {ℓ} :
    {A : Type ℓ} (o : Option A) (e : Error) (a : A) → require o e ≡ done a → o ≡ some a
require-done none e a h = absurd (ground arith)
require-done (some x) e a h = ground arith

pub skip-done {ℓ} :
    {B : Type ℓ} (m : Outcome (Unit {0})) (k : Outcome B) (b : B) → (m >> k) ≡ done b → k ≡ done b
skip-done (done u) k b h = h
skip-done (failed e) k b h = absurd (ground arith)

pub Sum-cases {ℓ κ} :
    {A : Type ℓ} {B : Type κ} (s : A ⊎ B) → ((a : A) × (s ≡ inl a)) ⊎ ((b : B) × (s ≡ inr b))
Sum-cases (inl a) = inl (a, refl)
Sum-cases (inr b) = inr (b, refl)
