-- ===== src/Base/Orderly.antt =====
-- Calls that return, or end in an error that their callers pass on.
use mathlib.Core.Path.{◌≡◌, refl, subst}
use mathlib.Core.Bool.{Bool, true, false}
use mathlib.Core.Option.{Option, none, some}
use attacknet.Base.Results.{
  Outcome, ok, err, crash, failure, cannot_meet, ◌>>=◌, or_fail, require, String, ok-injective,
}

-- A value, or an error other than CannotMeetConstraintError; and no crash.
abbrev pub IsOrderly {ℓ} : {A : Type ℓ} → Outcome A → Type 0
IsOrderly (ok _) = Unit
IsOrderly (err (failure _)) = Unit
IsOrderly (err (cannot_meet _ _)) = ⊥
IsOrderly (crash _) = ⊥

pub IsOrderly-bind {ℓ κ} :
    {A : Type ℓ} {B : Type κ} (first : Outcome A) (then : A → Outcome B)
    → IsOrderly first
    → ((result : A) → first ≡ ok result → IsOrderly (then result))
    → IsOrderly (first >>= then)
IsOrderly-bind (ok result) then h k = k result refl
IsOrderly-bind (err (failure _)) then h k = tt
IsOrderly-bind (err (cannot_meet _ _)) then h k = h
IsOrderly-bind (crash _) then h k = h

pub IsOrderly-or_fail {ℓ} :
    {A : Type ℓ} (o : Option A) (message : String) → IsOrderly (or_fail o message)
IsOrderly-or_fail none message = tt
IsOrderly-or_fail (some _) message = tt

pub IsOrderly-require : (b : Bool) (message : String) → IsOrderly (require b message)
IsOrderly-require true message = tt
IsOrderly-require false message = tt

-- A value of the kind, or an error other than CannotMeetConstraintError.
abbrev pub Yields {ℓ} : {A : Type ℓ} → (A → Type 0) → Outcome A → Type 0
Yields P (ok a) = P a
Yields P (err (failure _)) = Unit
Yields P (err (cannot_meet _ _)) = ⊥
Yields P (crash _) = ⊥

pub Yields-bind {ℓ κ} :
    {A : Type ℓ} {B : Type κ} (P : B → Type 0) (first : Outcome A) (then : A → Outcome B)
    → IsOrderly first
    → ((result : A) → Yields P (then result))
    → Yields P (first >>= then)
Yields-bind P (ok result) then h k = k result
Yields-bind P (err (failure _)) then h k = tt
Yields-bind P (err (cannot_meet _ _)) then h k = h
Yields-bind P (crash _) then h k = h

pub IsOrderly-Yields {ℓ} : {A : Type ℓ} (P : A → Type 0) (o : Outcome A) → Yields P o → IsOrderly o
IsOrderly-Yields P (ok _) h = tt
IsOrderly-Yields P (err (failure _)) h = tt
IsOrderly-Yields P (err (cannot_meet _ _)) h = h
IsOrderly-Yields P (crash _) h = h

pub Yields_at {ℓ} :
    {A : Type ℓ} (P : A → Type 0) (o : Outcome A) (a : A) → Yields P o → o ≡ ok a → P a
Yields_at P (ok b) a h e = subst P (ok-injective e) h
Yields_at P (err _) a h e = cc
Yields_at P (crash _) a h e = cc
