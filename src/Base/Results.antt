-- ===== src/Base/Results.antt =====
-- Exceptions as values, signed integers, and JSON values.
use Prim.Native.Nat.{ℕ, max}
use Prim.Native.String.{String}
use mathlib.Core.Path.{◌≡◌, refl}
use mathlib.Core.Logic.{◌⊎◌, inl, inr}
use mathlib.Core.Bool.{Bool, true, false}
use mathlib.Core.Option.{Option, none, some}
use mathlib.Core.List.{List, [], ◌∷◌}
use groupware_migrator.Base.Tests.{leb, ◌==◌, string_eq, if◌then◌else◌}

-- The exceptions that the program raises itself, and `other` for those of a library or a server.
pub data Error : Type 0 where
  value_error type_error runtime_error key_error integrity_error other : String → Error

-- `str(exc)`
unfoldable pub message : Error → String
message (value_error s) = s
message (type_error s) = s
message (runtime_error s) = s
message (key_error s) = s
message (integrity_error s) = s
message (other s) = s

-- what a call returns, or the exception that it raises
pub data Result {ℓ} (Value : Type ℓ) : Type ℓ where
  err : (exc : Error) → Result Value
  ok : (value : Value) → Result Value

-- An exception leaves the chain at once.
infixl 5 ◌>>=◌ ◌>>◌
abbrev pub ◌>>=◌ {ℓ κ} :
    {Value : Type ℓ} {Next : Type κ} → Result Value → (rest : Value → Result Next) → Result Next
err exc >>= rest = err exc
ok value >>= rest = rest value

abbrev pub ◌>>◌ {ℓ} : {Next : Type ℓ} → Result (Unit {0}) → (rest : Result Next) → Result Next
first >> rest = first >>= λ done. rest

pub Result-cases {ℓ} :
    {Value : Type ℓ} (r : Result Value)
    → ((exc : Error) × (r ≡ err exc)) ⊎ ((value : Value) × (r ≡ ok value))
Result-cases (err exc) = inl (exc, refl)
Result-cases (ok value) = inr (value, refl)

-- A chain that ends well has a first call that did.
pub bind_ok {ℓ κ} :
    {Value : Type ℓ} {Next : Type κ} (r : Result Value) (rest : Value → Result Next) (y : Next)
    → (r >>= rest) ≡ ok y
    → (x : Value) × (r ≡ ok x) × (rest x ≡ ok y)
bind_ok (err exc) rest y h = absurd cc
bind_ok (ok x) rest y h = (x, refl, h)

pub ok_same {ℓ} : {Value : Type ℓ} {x y : Value} → ok x ≡ ok y → x ≡ y
ok_same h = cc

-- A guard that raises an exception has been passed.
pub guard_ok {ℓ} :
    {Value : Type ℓ} (guard : Bool) (exc : Error) (x y : Value)
    → (if guard then err exc else ok x) ≡ ok y
    → (guard ≡ false) × (x ≡ y)
guard_ok true exc x y h = absurd cc
guard_ok false exc x y h = (refl, ok_same h)

pub guard_passed {ℓ} :
    {Value : Type ℓ} (guard : Bool) (exc : Error) (rest : Result Value) (y : Value)
    → (if guard then err exc else rest) ≡ ok y
    → rest ≡ ok y
guard_passed true exc rest y h = absurd cc
guard_passed false exc rest y h = h

-- Python's `int`: `negsuc n` is -(n + 1).
pub data ℤ : Type 0 where
  pos : ℕ → ℤ
  negsuc : ℕ → ℤ

-- `max(i, 0)`
abbrev pub pos_part : ℤ → ℕ
pos_part (pos n) = n
pos_part (negsuc n) = 0

-- `max(i, 1)`
abbrev pub at_least_one : ℤ → ℕ
at_least_one i = max (pos_part i) 1

-- `i <= n`
abbrev pub le_ℕ : ℤ → ℕ → Bool
le_ℕ (pos m) n = leb m n
le_ℕ (negsuc m) n = true

mutual
  pub data Json : Type 0 where
    null : Json
    bool : Bool → Json
    num : ℤ → Json
    str : String → Json
    arr : Items → Json
    obj : Fields → Json

  pub data Items : Type 0 where
    nil : Items
    cons : Json → Items → Items

  pub data Fields : Type 0 where
    end : Fields
    field : String → Json → Fields → Fields

-- `payload.get(key)`: a later field never repeats a key of an earlier one.
unfoldable pub get : String → Fields → Option Json
get k end = none
get k (field j v fs) = if j == k then some v else get k fs

unfoldable pub strings : List String → Items
strings [] = nil
strings (s ∷ ss) = cons (str s) (strings ss)

abbrev pub str_or_null : Option String → Json
str_or_null none = null
str_or_null (some s) = str s

abbrev pub nat : ℕ → Json
nat n = num (pos n)
