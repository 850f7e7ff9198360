-- ===== src/Contracts/Ensures.antt =====
-- Properties of what a computation returns, which say nothing of exceptions.
use ta_model_v.Base.{◌≡◌}
use mathlib.Core.Path.{subst}
use ta_model_v.Contracts.Result.{Result, ok, err, ◌>>=◌}

-- A returned value has a property.
abbrev pub Ensures : {A : Type 0} → (A → Type 0) → Result A → Type 0
Ensures P (ok a) = P a
Ensures P (err e) = Unit

pub Ensures-bind :
    {A B : Type 0} (P : A → Type 0) (Q : B → Type 0) (m : Result A) (f : A → Result B)
    → Ensures P m
    → ((a : A) → P a → Ensures Q (f a))
    → Ensures Q (m >>= f)
Ensures-bind P Q (ok a) f h k = k a h
Ensures-bind P Q (err e) f h k = tt

pub Ensures-mono :
    {A : Type 0} (P Q : A → Type 0) (m : Result A)
    → ((a : A) → P a → Q a)
    → Ensures P m
    → Ensures Q m
Ensures-mono P Q (ok a) f h = f a h
Ensures-mono P Q (err e) f h = tt

pub Ensures_elim :
    {A : Type 0} (P : A → Type 0) (m : Result A) {a : A} → Ensures P m → m ≡ ok a → P a
Ensures_elim P m h same = subst (Ensures P) same h
