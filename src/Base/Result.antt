-- ===== src/Base/Result.antt =====
-- Python exceptions as values: a call that may raise returns a `Result`.
use mathlib.Core.Path.{◌≡◌, refl}
use mathlib.Core.Option.{Option, none, some}

-- The exception classes that the library raises or that its built-in operations raise.
pub data Error : Type 0 where
  value_error key_error runtime_error zero_division type_error index_error struct_error : Error

-- What a call ends with: the exception that it raises, or its value.
pub data Result {ℓ} (T : Type ℓ) : Type ℓ where
  err : Error → Result T
  ok : T → Result T

infixl 5 ◌>>=◌ ◌>>◌
abbrev pub ◌>>=◌ {ℓ κ} : {T : Type ℓ} {U : Type κ} → Result T → (T → Result U) → Result U
◌>>=◌ (err raised) then_do = err raised
◌>>=◌ (ok value) then_do = then_do value

abbrev pub ◌>>◌ {ℓ κ} : {T : Type ℓ} {U : Type κ} → Result T → Result U → Result U
◌>>◌ first second = first >>= λ _. second

-- A lookup whose absence raises.
abbrev pub or_raise {ℓ} : {T : Type ℓ} → Option T → Error → Result T
or_raise none raised = err raised
or_raise (some value) raised = ok value

pub ok_injective {ℓ} : {T : Type ℓ} {a b : T} → ok a ≡ ok b → a ≡ b
ok_injective h = cc h

-- A chain that succeeds succeeds at its first call.
pub split_ok {ℓ κ} :
    {T : Type ℓ} {U : Type κ} (first : Result T) (then_do : T → Result U) {value : U}
    → first >>= then_do ≡ ok value
    → (a : T) × (first ≡ ok a) × (then_do a ≡ ok value)
split_ok (err raised) then_do h = cc h
split_ok (ok a) then_do h = (a, refl, h)
