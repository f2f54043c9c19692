-- ===== src/Common/Abort.antt =====
-- A call returns, or it ends in the `std::runtime_error` of LOG_FATAL or in a failed assertion.
use mathlib.Core.Path.{◌≡◌, refl}
use mathlib.Core.Logic.{◌⊎◌, inl, inr}
use mathlib.Core.Bool.{Bool, true, false}
use mathlib.Core.Option.{Option, none, some}

pub data Outcome {ℓ} (A : Type ℓ) : Type ℓ where
  ret : A → Outcome A
  fatal : Outcome A

infixl 5 ◌>>=◌ ◌>>◌
abbrev pub ◌>>=◌ {ℓ κ} : {A : Type ℓ} {B : Type κ} → Outcome A → (A → Outcome B) → Outcome B
ret a >>= f = f a
fatal >>= f = fatal

abbrev pub ◌>>◌ {ℓ} : {B : Type ℓ} → Outcome (Unit {0}) → Outcome B → Outcome B
m >> k = m >>= λ _. k

-- `assert(b)`.
abbrev pub check : Bool → Outcome (Unit {0})
check true = ret tt
check false = fatal

-- `some` is returned; `none` stands for a read out of range, undefined in the source.
abbrev pub or_fatal {ℓ} : {A : Type ℓ} → Option A → Outcome A
or_fatal none = fatal
or_fatal (some a) = ret a

pub Outcome-cases {ℓ} : {A : Type ℓ} (o : Outcome A) → (o ≡ fatal) ⊎ ((a : A) × (o ≡ ret a))
Outcome-cases fatal = inl refl
Outcome-cases (ret a) = inr (a, refl)

-- What a chain of calls went through, if it returns.
pub >>=-eq-ret {ℓ κ} :
    {A : Type ℓ} {B : Type κ} (m : Outcome A) (f : A → Outcome B) {b : B}
    → (m >>= f) ≡ ret b
    → (a : A) × (m ≡ ret a) × (f a ≡ ret b)
>>=-eq-ret (ret a) f h = (a, refl, h)
>>=-eq-ret fatal f h = cc
