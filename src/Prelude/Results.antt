-- ===== src/Prelude/Results.antt =====
-- A Python call that may raise. `no_fuel` is no exception of the source: it says that a loop of the
-- model was cut off.
use mathlib.Core.Bool.{Bool, true, false}
use mathlib.Core.Option.{Option, none, some}
use mathlib.Core.Path.{◌≡◌, refl}
use mathlib.Core.Logic.{◌⊎◌, inl, inr}

pub data Exception : Type 0 where
  assertion_error index_error value_error key_error runtime_error no_fuel : Exception

pub data Result {ℓ} (A : Type ℓ) : Type ℓ where
  ok : A → Result A
  err : Exception → Result A

infixl 5 ◌>>=◌
infixl 5 ◌>>◌
-- The exceptions are not caught.
abbrev pub ◌>>=◌ {ℓ κ} : {A : Type ℓ} {B : Type κ} → Result A → (A → Result B) → Result B
err x >>= next = err x
ok value >>= next = next value

-- A call for its effect alone.
abbrev pub ◌>>◌ {ℓ} : {A : Type ℓ} → Result (Unit {0}) → Result A → Result A
call >> rest = call >>= λ _. rest

-- `assert test`
abbrev pub assert : Bool → Result (Unit {0})
assert true = ok tt
assert false = err assertion_error

-- A lookup that raises `e` where there is nothing.
abbrev pub some_or_raise {ℓ} : {A : Type ℓ} → Exception → Option A → Result A
some_or_raise e none = err e
some_or_raise e (some a) = ok a

-- The result of a call, with its equation.
pub Result-cases {ℓ} :
    {A : Type ℓ} (r : Result A) → ((a : A) × (r ≡ ok a)) ⊎ ((x : Exception) × (r ≡ err x))
Result-cases (ok a) = inl (a, refl)
Result-cases (err x) = inr (x, refl)

-- The parts of a chain of two calls that did not raise.
pub parts_of_ok {ℓ κ} :
    {A : Type ℓ} {B : Type κ} (call : Result A) (next : A → Result B) {b : B}
    → (call >>= next) ≡ ok b
    → (a : A) × (call ≡ ok a) × (next a ≡ ok b)
parts_of_ok (ok a) next h = (a, refl, h)
parts_of_ok (err x) next h = cc

pub ok_injective {ℓ} : {A : Type ℓ} {a b : A} → ok a ≡ ok b → a ≡ b
ok_injective h = cc
