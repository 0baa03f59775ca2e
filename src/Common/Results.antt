-- ===== src/Common/Results.antt =====
-- Calls that may raise, and calls that change a state and may raise.
use Prim.Native.Nat.{ℕ}
use Prim.Native.String.{String}
use mathlib.Core.Path.{◌≡◌, refl}
use mathlib.Core.Bool.{Bool, true, false}
use mathlib.Core.Option.{Option, none, some}

-- The exceptions of the program, by the class that handlers tell apart.
pub data Error : Type 0 where
  -- `AppError(status_code, code, ...)`
  app_error : ℕ → String → Error
  -- `IllegalExecutionCommandTransition`
  illegal_transition : Error
  key_error : String → Error
  value_error : String → Error
  runtime_error : String → Error
  -- `ExecutionLeaderLost`
  leader_lost : String → Error
  -- `RecoveryFailure(code)`
  recovery_failure : String → Error
  -- `BinanceDemoPrivateClientError`
  client_error : Error
  -- `_SnapshotError(code)`
  snapshot_error : String → Error
  -- a `ValidationError` of pydantic
  validation_error : Error
  -- an exception of the database driver
  storage_error : Error

pub data Result (A : Type 0) : Type 0 where
  ok : A → Result A
  err : Error → Result A

-- `if test: raise e`
abbrev pub raise_if : Bool → Error → Result (Unit {0})
raise_if true e = err e
raise_if false e = ok tt

abbrev pub or_raise : {A : Type 0} → Option A → Error → Result A
or_raise none e = err e
or_raise (some a) e = ok a

-- The statements after a call run unless it raised.
infixl 5 ◌>>=◌
abbrev pub ◌>>=◌ : {A B : Type 0} → Result A → (A → Result B) → Result B
err raised >>= next = err raised
ok value >>= next = next value

-- What ran before and after a call that did not raise.
pub >>=-eq-ok :
    {A B : Type 0} (call : Result A) (next : A → Result B) {result : B}
    → (call >>= next) ≡ ok result
    → (value : A) × (call ≡ ok value) × (next value ≡ ok result)
>>=-eq-ok (err raised) next returned = cc
>>=-eq-ok (ok value) next returned = (value, refl, returned)

infixl 5 ◌>>◌
abbrev pub ◌>>◌ : {A B : Type 0} → Result A → Result B → Result B
first >> second = first >>= λ ignored. second

-- What two equal results return.
pub ok_inj : {A : Type 0} {a b : A} → ◌≡◌ {A = Result A} (ok a) (ok b) → a ≡ b
ok_inj h = cc

pub ok_tables :
    {A B : Type 0} {a a' : A} {b b' : B}
    → ◌≡◌ {A = Result (A × B)} (ok (a, b)) (ok (a', b'))
    → b ≡ b'
ok_tables h = cc

pub err_ne_ok : {A : Type 0} {e : Error} {a : A} → ◌≡◌ {A = Result A} (err e) (ok a) → ⊥
err_ne_ok h = cc

pub some_inj : {A : Type 0} {a b : A} → some a ≡ some b → a ≡ b
some_inj h = cc

pub ok_value :
    {A B : Type 0} {a a' : A} {b b' : B}
    → ◌≡◌ {A = Result (A × B)} (ok (a, b)) (ok (a', b'))
    → a ≡ a'
ok_value h = cc

-- A check that passed, and what ran after it.
pub raise_if-eq-ok :
    {A : Type 0} (test : Bool) (e : Error) (next : Unit {0} → Result A) {result : A}
    → (raise_if test e >>= next) ≡ ok result
    → (test ≡ false) × (next tt ≡ ok result)
raise_if-eq-ok true e next returned = cc
raise_if-eq-ok false e next returned = (refl, returned)
