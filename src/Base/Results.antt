-- ===== src/Base/Results.antt =====
-- What a Go function that may fail gives: a value, an error value, or no normal return at all.
use Prim.Native.Nat.{ℕ}
pub use Prim.Native.String.{String}
use mathlib.Core.Path.{◌≡◌, refl, ap}
use mathlib.Core.Logic.{◌⊎◌, inl, inr}
use mathlib.Core.Bool.{Bool, true, false}
use mathlib.Core.Option.{Option, none, some}
use attacknet.Base.Tests.{if◌then◌else◌}

-- `failure` is an error made by stacktrace or errors, with the text of the code without its
-- arguments. `cannot_meet` is CannotMeetConstraintError of pkg/plan/suite/targeting.go, which one
-- caller tells apart by a type assertion.
pub data Error : Type 0 where
  failure : String → Error
  cannot_meet : (attack_size : String) (targetable_count : ℕ) → Error

-- How a call can end without returning: a runtime panic, a conversion whose result Go leaves to the
-- implementation, or a loop that used up the fuel which the model gives it. `closed_channel` is the
-- panic of closing a channel again, `exit` the end of the process by os.Exit or log.Fatal, and
-- `blocked` a receive from a channel on which nothing is sent any more.
pub data Crash : Type 0 where
  index_out_of_range nil_pointer unreachable_state unspecified_conversion closed_channel exit
        blocked out_of_fuel :
      Crash

pub data Outcome {ℓ} (A : Type ℓ) : Type ℓ where
  ok : A → Outcome A
  err : Error → Outcome A
  crash : Crash → Outcome A

infixl 5 ◌>>=◌ ◌>>◌
abbrev pub ◌>>=◌ {ℓ κ} : {A : Type ℓ} {B : Type κ} → Outcome A → (A → Outcome B) → Outcome B
ok a >>= f = f a
err e >>= f = err e
crash c >>= f = crash c

abbrev pub ◌>>◌ {ℓ} : {B : Type ℓ} → Outcome (Unit {0}) → Outcome B → Outcome B
m >> k = m >>= λ _. k

abbrev pub or_fail {ℓ} : {A : Type ℓ} → Option A → String → Outcome A
or_fail none message = err (failure message)
or_fail (some a) message = ok a

abbrev pub or_crash {ℓ} : {A : Type ℓ} → Option A → Crash → Outcome A
or_crash none c = crash c
or_crash (some a) c = ok a

-- A method that changes its object gives a result and the object after it, which keeps the changes
-- also when the method fails; the rest runs only on a value.
abbrev pub and_then : {S A B : Type 0} → Outcome A × S → (A → S → Outcome B × S) → Outcome B × S
and_then (ok a, s) k = k a s
and_then (err e, s) k = (err e, s)
and_then (crash c, s) k = (crash c, s)

-- `if !test { return nil, stacktrace.NewError(message) }`
abbrev pub require : Bool → String → Outcome (Unit {0})
require true message = ok tt
require false message = err (failure message)

-- A sequence succeeds only if its first part does, and the second on that value.
pub ok_of_bind {ℓ κ} :
    {A : Type ℓ} {B : Type κ} {value : B} (first : Outcome A) (next : A → Outcome B)
    → (first >>= next) ≡ ok value
    → (result : A) × (first ≡ ok result) × (next result ≡ ok value)
ok_of_bind (ok result) next e = (result, refl, e)
ok_of_bind (err _) next e = cc
ok_of_bind (crash _) next e = cc

pub Outcome-cases {ℓ} :
    {A : Type ℓ} (m : Outcome A)
    → ((a : A) × (m ≡ ok a)) ⊎ (((e : Error) × (m ≡ err e)) ⊎ ((c : Crash) × (m ≡ crash c)))
Outcome-cases (ok a) = inl (a, refl)
Outcome-cases (err e) = inr (inl (e, refl))
Outcome-cases (crash c) = inr (inr (c, refl))

pub ok-injective {ℓ} : {A : Type ℓ} {a b : A} → ok a ≡ ok b → a ≡ b
ok-injective e = cc

pub some_of_or_fail {ℓ} :
    {A : Type ℓ} {a : A} (o : Option A) (message : String) → or_fail o message ≡ ok a → o ≡ some a
some_of_or_fail none message e = cc
some_of_or_fail (some _) message e = cc

pub some_of_or_crash {ℓ} :
    {A : Type ℓ} {a : A} (o : Option A) (c : Crash) → or_crash o c ≡ ok a → o ≡ some a
some_of_or_crash none c e = cc
some_of_or_crash (some _) c e = cc

-- An object's method succeeds only if its first part does, and the rest on what that leaves.
pub ok_of_and_then :
    {S A B : Type 0} {b : B} {s' : S} (m : Outcome A × S) (k : A → S → Outcome B × S)
    → and_then m k ≡ (ok b, s')
    → (a : A) × (s : S) × (m ≡ (ok a, s)) × (k a s ≡ (ok b, s'))
ok_of_and_then (ok a, s) k e = (a, s, refl, e)
ok_of_and_then (err x, s) k e = cc
ok_of_and_then (crash c, s) k e = cc

-- So too where the first part leaves the object as it is.
pub ok_of_lifted :
    {S A B : Type 0} {b : B} {s' : S} (m : Outcome A) (s : S) (k : A → S → Outcome B × S)
    → and_then (m, s) k ≡ (ok b, s')
    → (a : A) × (m ≡ ok a) × (k a s ≡ (ok b, s'))
ok_of_lifted (ok a) s k e = (a, refl, e)
ok_of_lifted (err x) s k e = cc
ok_of_lifted (crash c) s k e = cc

-- What the first part leaves true of the object, and the rest keeps, is true in the end.
pub and_then-keeps {ℓ} :
    {S A B : Type 0} (P : S → Type ℓ) (m : Outcome A × S) (k : A → S → Outcome B × S)
    → P (m.1)
    → ((a : A) (s : S) → P s → P ((k a s).1))
    → P ((and_then m k).1)
and_then-keeps P (ok a, s) k h next = next a s h
and_then-keeps P (err e, s) k h next = h
and_then-keeps P (crash c, s) k h next = h

-- The rest may be known to run on what the first part gives.
pub and_then-keeps_from {ℓ} :
    {S A B : Type 0} (P : S → Type ℓ) (m : Outcome A × S) (k : A → S → Outcome B × S)
    → P (m.1)
    → ((a : A) (s : S) → m ≡ (ok a, s) → P s → P ((k a s).1))
    → P ((and_then m k).1)
and_then-keeps_from P (ok a, s) k h next = next a s refl h
and_then-keeps_from P (err e, s) k h next = h
and_then-keeps_from P (crash c, s) k h next = h

-- A step that fails on a test and leaves the object as it is, and otherwise changes it.
pub ok_of_test :
    {S : Type 0} (b : Bool) (x : Error) (s s' d : S)
    → ◌≡◌ {A = Outcome (Unit {0}) × S} (if b then (err x, s) else (ok tt, s')) (ok tt, d)
    → s' ≡ d
ok_of_test true x s s' d e = cc
ok_of_test false x s s' d e = ap (λ p. p.1) e

-- What follows a test is one of its two branches.
pub branch_of {ℓ} :
    {A : Type ℓ} {v : A} (b : Bool) (m n : A)
    → (if b then m else n) ≡ v
    → ((b ≡ true) × (m ≡ v)) ⊎ ((b ≡ false) × (n ≡ v))
branch_of true m n e = inl (refl, e)
branch_of false m n e = inr (refl, e)
