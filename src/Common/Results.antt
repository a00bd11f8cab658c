-- ===== src/Common/Results.antt =====
-- A chain of calls that return `(A, error)`, each one stopping the chain with its error.
use mathlib.Core.Option.{Option, none, some}
use mathlib.Core.Bool.{Bool}
use mathlib.Core.Path.{◌≡◌, refl, ap}
use tark.Common.Tests.{Error, Result, ok, err, if◌then◌else◌}

-- The value, or the error where there is none.
abbrev pub or_fail {ℓ} : {A : Type ℓ} → Option A → Error → Result A
or_fail (some a) x = ok a
or_fail none x = err x

-- Refused with the error where the test fails.
abbrev pub guard : Bool → Error → Result (Unit {0})
guard test x = if test then ok tt else err x

module _ {ℓ κ} {A : Type ℓ} {B : Type κ} where
  infixl 5 ◌>>=◌
  abbrev pub ◌>>=◌ : Result A → (A → Result B) → Result B
  err x >>= next = err x
  ok a >>= next = next a

  -- Inversion of a chain that succeeds.
  pub bind-eq-ok :
      (first : Result A) (next : A → Result B) {last : B}
      → first >>= next ≡ ok last
      → (a : A) × (first ≡ ok a) × (next a ≡ ok last)
  bind-eq-ok (err x) next done = cc
  bind-eq-ok (ok a) next done = (a, refl, done)

module _ {κ} {B : Type κ} where
  infixl 5 ◌>>◌
  abbrev pub ◌>>◌ : Result (Unit {0}) → Result B → Result B
  first >> next = first >>= λ done. next

module _ {ℓ} {A : Type ℓ} where
  pub ok-injective : {a b : A} → ok a ≡ ok b → a ≡ b
  ok-injective done = cc

  pub or_fail-ok : (o : Option A) (x : Error) {a : A} → or_fail o x ≡ ok a → o ≡ some a
  or_fail-ok none x found = cc
  or_fail-ok (some a) x found = ap some (ok-injective found)
