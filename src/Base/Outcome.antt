-- ===== src/Base/Outcome.antt =====
-- How a C++ call ends: by a return, by an exception of the standard library, or never.
use mathlib.Core.Bool.{Bool, true, false}
use mini_ocs_nos.Base.Tests.{if◌then◌else◌}
use native.Mathlib.Omega.{arith}
use mathlib.Core.Bool.{Bool, true, false}
use mini_ocs_nos.Base.Tests.{if◌then◌else◌}
use mathlib.Core.Path.{◌≡◌, refl, subst}

-- The class of the exception; its text is not kept.
pub data Exception : Type 0 where
  invalid_argument out_of_range logic_error runtime_error : Exception

pub data Outcome {ℓ} (A : Type ℓ) : Type ℓ where
  returns : A → Outcome A
  throws : Exception → Outcome A
  diverges : Outcome A

infixl 5 ◌>>=◌ ◌>>◌
abbrev pub ◌>>=◌ {ℓ κ} : {A : Type ℓ} {B : Type κ} → Outcome A → (A → Outcome B) → Outcome B
returns a >>= f = f a
throws x >>= f = throws x
diverges >>= f = diverges

abbrev pub ◌>>◌ {ℓ} : {B : Type ℓ} → Outcome (Unit {0}) → Outcome B → Outcome B
m >> k = m >>= λ _. k

-- The value of a bind that returned came from a first part that returned.
pub >>=-returns {ℓ κ} :
    {A : Type ℓ} {B : Type κ} (m : Outcome A) (f : A → Outcome B) {b : B}
    → (m >>= f) ≡ returns b
    → (a : A) × (m ≡ returns a) × (f a ≡ returns b)
>>=-returns (returns a) f h = (a, refl, h)
>>=-returns (throws x) f h = cc
>>=-returns diverges f h = cc

-- Every value that is returned satisfies `P`.
pub record Ensures {ℓ κ} {A : Type ℓ} (P : A → Type κ) (m : Outcome A) : Type (ℓ ⊔ κ) where
  pub holds : (a : A) → m ≡ returns a → P a

pub Ensures-value {ℓ κ} : {A : Type ℓ} {P : A → Type κ} {a : A} → P a → Ensures P (returns a)
Ensures-value {P = P} p = record { holds = λ b h. subst P (ground (arith, h)) p }

pub Ensures-throws {ℓ κ} : {A : Type ℓ} {P : A → Type κ} {x : Exception} → Ensures P (throws x)
Ensures-throws = record { holds = λ b h. cc }

pub Ensures-bind {ℓ κ ι} :
    {A : Type ℓ} {B : Type κ} {P : B → Type ι} (m : Outcome A) {f : A → Outcome B}
    → ((a : A) → m ≡ returns a → Ensures P (f a))
    → Ensures P (m >>= f)
Ensures-bind (returns a) h = h a refl
Ensures-bind (throws x) h = Ensures-throws
Ensures-bind diverges h = record { holds = λ b e. cc }

pub Ensures-if {ℓ κ} :
    {A : Type ℓ} {P : A → Type κ} {m n : Outcome A} (b : Bool)
    → (b ≡ true → Ensures P m)
    → (b ≡ false → Ensures P n)
    → Ensures P (if b then m else n)
Ensures-if true h k = h refl
Ensures-if false h k = k refl
