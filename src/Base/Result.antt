-- ===== src/Base/Result.antt =====
-- Python's exceptions as values.
use Prim.Native.String.{String}
use mathlib.Core.Path.{◌≡◌, refl}
use mathlib.Core.Logic.{◌⊎◌, inl, inr}
use mathlib.Core.Bool.{Bool, true, false}
use mathlib.Core.Option.{Option, none, some}

-- An exception with its message. `validation_error` is pydantic's, a subclass of `ValueError`;
-- `os_error` is any other exception, by its class name.
pub data Error : Type 0 where
  value_error runtime_error validation_error os_error : String → Error

-- `type(exc).__name__`.
unfoldable pub type_name : Error → String
type_name (value_error m) = "ValueError"
type_name (runtime_error m) = "RuntimeError"
type_name (validation_error m) = "ValidationError"
type_name (os_error name) = name

pub data Result (A : Type 0) : Type 0 where
  ok : A → Result A
  err : Error → Result A

abbrev pub is_ok : {A : Type 0} → Result A → Bool
is_ok (ok a) = true
is_ok (err e) = false

infixl 5 ◌>>=◌ ◌>>◌
abbrev pub ◌>>=◌ : {A B : Type 0} → Result A → (A → Result B) → Result B
ok a >>= f = f a
err e >>= f = err e

abbrev pub ◌>>◌ : {B : Type 0} → Result (Unit {0}) → Result B → Result B
m >> k = m >>= λ _. k

-- `if test: raise e`.
abbrev pub refuse : Bool → Error → Result (Unit {0})
refuse true e = err e
refuse false e = ok tt

-- A validator for a field that may be `None`.
abbrev pub optional : {A : Type 0} → (A → Result A) → Option A → Result (Option A)
optional f none = ok none
optional f (some a) = f a >>= λ b. ok (some b)

-- pydantic reports what a validator raises as a `ValidationError`.
abbrev pub as_validation : {A : Type 0} → String → Result A → Result A
as_validation model (ok a) = ok a
as_validation model (err e) = err (validation_error model)

pub Result-cases :
    {A : Type 0} (r : Result A) → ((a : A) × (r ≡ ok a)) ⊎ ((e : Error) × (r ≡ err e))
Result-cases (ok a) = inl (a, refl)
Result-cases (err e) = inr (e, refl)

-- What a chain that returned says of its parts.
pub ok_parts :
    {A B : Type 0} {done : B} (first : Result A) (second : A → Result B)
    → (first >>= second) ≡ ok done
    → (x : A) × (second x ≡ ok done) × (first ≡ ok x)
ok_parts (ok x) second returned = (x, returned, refl)
ok_parts (err e) second returned = cc

pub refuse-eq-ok :
    {B : Type 0} (test : Bool) (e : Error) (k : Result B) {b : B}
    → (refuse test e >> k) ≡ ok b
    → (test ≡ false) × (k ≡ ok b)
refuse-eq-ok true e k h = cc
refuse-eq-ok false e k h = (refl, h)

pub as_validation-eq-ok :
    {A : Type 0} (model : String) (r : Result A) {a : A} → as_validation model r ≡ ok a → r ≡ ok a
as_validation-eq-ok model (ok a) h = h
as_validation-eq-ok model (err e) h = cc

pub ok-injective : {A : Type 0} {a b : A} → ok a ≡ ok b → a ≡ b
ok-injective h = cc
