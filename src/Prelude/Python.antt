-- ===== src/Prelude/Python.antt =====
-- What a Python expression may raise, and the result of a computation that may raise.
use mathlib.Core.Path.{◌≡◌, refl}
use mathlib.Core.Bool.{Bool, true, false}
use mathlib.Core.Option.{Option, none, some}

-- The exceptions that the programs meet; the last is `sys.exit`.
pub data Error : Type 0 where
  index_error key_error value_error type_error name_error os_error assertion_error : Error
  zero_division_error system_exit : Error

-- A value, or the exception that ended the computation.
pub data Result {ℓ} (Value : Type ℓ) : Type ℓ where
  raise : Error → Result Value
  ok : Value → Result Value

infixl 5 ◌>>=◌ ◌>>◌
-- An exception passes every later statement by.
abbrev pub ◌>>=◌ {ℓ κ} :
    {A : Type ℓ} {B : Type κ} (first : Result A) (rest : A → Result B) → Result B
raise error >>= rest = raise error
ok value >>= rest = rest value

abbrev pub ◌>>◌ {κ} : {B : Type κ} (first : Result (Unit {0})) → Result B → Result B
first >> rest = first >>= λ _. rest

-- Inversion of a successful bind, for proofs in which the parts stay shut.
pub >>=-eq-ok {ℓ κ} :
    {A : Type ℓ} {B : Type κ} (first : Result A) (rest : A → Result B) {b : B}
    → (first >>= rest) ≡ ok b
    → (a : A) × (first ≡ ok a) × (rest a ≡ ok b)
>>=-eq-ok (raise error) rest h = cc
>>=-eq-ok (ok value) rest h = (value, refl, h)

-- A read that raises where there is nothing to read.
abbrev pub or_raise {ℓ} : {A : Type ℓ} → Option A → Error → Result A
or_raise none error = raise error
or_raise (some value) error = ok value

-- `assert test`, and every other test that ends the computation.
abbrev pub guard : (test : Bool) → Error → Result (Unit {0})
guard false error = raise error
guard true error = ok tt

pub ok-injective {ℓ} : {A : Type ℓ} {a b : A} → ok a ≡ ok b → a ≡ b
ok-injective h = cc
