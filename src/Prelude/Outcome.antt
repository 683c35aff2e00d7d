-- ===== src/Prelude/Outcome.antt =====
-- What a request handler raises, and a computation that may raise.

use mathlib.Core.Bool.{Bool, true, false}
use Prim.Native.Nat.{ℕ}
use mathlib.Core.Path.{◌≡◌, refl}
use mathlib.Core.Logic.{◌⊎◌, inl, inr}
use native.Mathlib.Omega.{arith}
use mathlib.Core.Option.{Option, none, some}
use mathlib.Core.List.{List, [], ◌∷◌}

-- `http_error` is an `HTTPException` with its status code, `value_error` a `ValueError`, and
-- `multiple_rows` the error of a query for one row that finds two. `blocked_target` is a
-- `BlockedTargetError`, `gaierror` the resolver's, `http_failure` that of `raise_for_status`.
pub data Error : Type 0 where
  http_error : ℕ → Error
  value_error multiple_rows blocked_target gaierror http_failure : Error

-- `err` is a raised exception.
pub data Result {ℓ} (A : Type ℓ) : Type ℓ where
  err : Error → Result A
  ok : A → Result A

infixl 5 ◌>>=◌ ◌>>◌
-- The statements after one that raises do not run.
abbrev pub ◌>>=◌ {ℓ κ} : {X : Type ℓ} {B : Type κ} → Result X → (X → Result B) → Result B
err raised >>= next = err raised
ok x >>= next = next x

-- A statement that is run for what it may raise.
abbrev pub ◌>>◌ {ℓ} : {Y : Type ℓ} → Result (Unit {0}) → Result Y → Result Y
check >> next = check >>= λ done. next

-- `if not test: raise e`
abbrev pub guard : Bool → Error → Result (Unit {0})
guard false raised = err raised
guard true raised = ok tt

-- `if value is None: raise e`
abbrev pub or_raise {ℓ} : {A : Type ℓ} → Option A → Error → Result A
or_raise none e = err e
or_raise (some a) e = ok a

-- SQLAlchemy's `scalar_one_or_none` on the rows of a query.
abbrev pub scalar_one_or_none {ℓ} : {A : Type ℓ} → List A → Result (Option A)
scalar_one_or_none [] = ok none
scalar_one_or_none (x ∷ []) = ok (some x)
scalar_one_or_none (x ∷ y ∷ xs) = err multiple_rows

-- SQLAlchemy's `scalars().first()`.
abbrev pub first {ℓ} : {A : Type ℓ} → List A → Option A
first [] = none
first (x ∷ xs) = some x

-- Inversion of a successful bind and of the steps that raise.
pub >>=-eq-ok {ℓ κ} :
    {X : Type ℓ} {B : Type κ} (first_step : Result X) (next : X → Result B) {b : B}
    → (first_step >>= next) ≡ ok b
    → (x : X) × (first_step ≡ ok x) × (next x ≡ ok b)
>>=-eq-ok (err raised) next h = cc
>>=-eq-ok (ok x) next h = (x, refl, h)

pub guard-eq-ok {ℓ} :
    {B : Type ℓ} (t : Bool) (e : Error) (k : Result B) {b : B}
    → (guard t e >> k) ≡ ok b
    → (t ≡ true) × (k ≡ ok b)
guard-eq-ok true e k h = (refl, h)
guard-eq-ok false e k h = cc

pub or_raise-eq-ok {ℓ κ} :
    {A : Type ℓ} {B : Type κ} (o : Option A) (e : Error) (f : A → Result B) {b : B}
    → (or_raise o e >>= f) ≡ ok b
    → (a : A) × (o ≡ some a) × (f a ≡ ok b)
or_raise-eq-ok none e f h = cc
or_raise-eq-ok (some a) e f h = (a, refl, h)

pub ok-injective {ℓ} : {A : Type ℓ} (a b : A) → ok a ≡ ok b → a ≡ b
ok-injective a b h = ground (arith, h)

pub Result-cases {ℓ} :
    {A : Type ℓ} (r : Result A) → ((e : Error) × (r ≡ err e)) ⊎ ((a : A) × (r ≡ ok a))
Result-cases (ok a) = inr (a, refl)
Result-cases (err e) = inl (e, refl)
