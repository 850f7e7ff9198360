-- ===== src/Contracts/Result.antt =====
-- Exceptions as values: a pydantic `ValidationError`, a `ReplayBuildError`, a `ValueError`, an
-- `AttributeError`, a `StopIteration` or a decimal `InvalidOperation`, each with its message, and
-- instants of time as microseconds.
use ta_model_v.Base.{ℕ, String, Bool, true, false, ◌≡◌, refl}

pub data Error : Type 0 where
  validation_error replay_build_error value_error attribute_error stop_iteration invalid_operation :
      String → Error

pub data Result {ℓ} (A : Type ℓ) : Type ℓ where
  ok : A → Result A
  err : Error → Result A

infixl 5 ◌>>=◌ ◌>>◌
-- One step after another; an exception of the first skips the second.
abbrev pub ◌>>=◌ {κ ℓ} :
    {Value : Type κ} {Next : Type ℓ} → Result Value → (Value → Result Next) → Result Next
err raised >>= next = err raised
ok value >>= next = next value

-- A check before a step.
abbrev pub ◌>>◌ {ℓ} : {Next : Type ℓ} → Result (Unit {0}) → Result Next → Result Next
check >> next = check >>= λ passed. next

-- `if not b: raise e`
abbrev pub require : Bool → Error → Result (Unit {0})
require true e = ok tt
require false e = err e

-- A sequence returns where its first step returns a value that the second step returns for.
pub >>=-eq-ok {ℓ κ} :
    {B : Type κ} {b : B} {A : Type ℓ} (first : Result A) (second : A → Result B)
    → (first >>= second) ≡ ok b
    → (between : A) × (first ≡ ok between) × (second between ≡ ok b)
>>=-eq-ok (err e) second returned = cc
>>=-eq-ok (ok between) second returned = (between, refl, returned)

-- A property of a guarded step, from the exception and from the step where the guard holds.
pub require_elim {ℓ κ} :
    {B : Type ℓ} (P : Result B → Type κ) (b : Bool) {e : Error} {k : Result B}
    → P (err e)
    → (b ≡ true → P k)
    → P (require b e >> k)
require_elim P true f g = g refl
require_elim P false f g = f

-- A `datetime` as microseconds since the year 1; all of them are aware, so they are ordered.
abbrev pub Timestamp : Type 0
Timestamp = ℕ
