-- ===== src/Base/Ensures.antt =====
-- What the results of calls satisfy, for calls that may raise an exception.
use mathlib.Core.Path.{subst}
use groupware_migrator.Base.{◌≡◌, refl, ap, nat_eq, string_eq, Result, ok, err, ◌>>=◌}

-- A predicate that every result of a call satisfies, if it has one.
pub record Ensures {A : Type 0} (P : A → Type 0) (call : Result A) : Type 0 where
  pub result : (a : A) → call ≡ ok a → P a

abbrev value_or : {A : Type 0} → A → Result A → A
value_or a (ok b) = b
value_or a (err exc) = a

pub Ensures-ok : {A : Type 0} {P : A → Type 0} (a : A) → P a → Ensures P (ok a)
Ensures-ok {P = P} a x = record { result = λ b h. subst P (ap (value_or a) h) x }

pub Ensures-bind :
    {A B : Type 0} {P : B → Type 0} (call : Result A) (rest : A → Result B)
    → ((a : A) → call ≡ ok a → Ensures P (rest a))
    → Ensures P (call >>= rest)
Ensures-bind (ok a) rest h = h a refl
Ensures-bind (err exc) rest h = record { result = λ b e. absurd (cc e) }
