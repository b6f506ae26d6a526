-- ===== src/Prelude/Outcome.antt =====
-- `Result<A, E>`, its bind (the `?` operator), and the conversions of `Option`.
use mathlib.Core.Path.{◌≡◌, refl}
use mathlib.Core.Logic.{◌⊎◌, inl, inr}
use mathlib.Core.Option.{Option, none, some}

pub data Result {ℓ} (A E : Type ℓ) : Type ℓ where
  ok : A → Result A E
  err : E → Result A E

-- `ok_or`
abbrev pub ok_or {ℓ} : {T E : Type ℓ} → E → Option T → Result T E
ok_or e (some v) = ok v
ok_or e none = err e

-- `?`, and the rest of the function
infixl 5 ◌>>=◌
abbrev pub ◌>>=◌ {ℓ} : {T U E : Type ℓ} → Result T E → (T → Result U E) → Result U E
err e >>= rest = err e
ok v >>= rest = rest v

-- A bind that returns a value: both of its parts did.
pub >>=-eq-ok {ℓ} :
    {T U E : Type ℓ} (first : Result T E) (rest : T → Result U E) {u : U}
    → (first >>= rest) ≡ ok u
    → (v : T) × (first ≡ ok v) × (rest v ≡ ok u)
>>=-eq-ok (err e) rest h = cc
>>=-eq-ok (ok v) rest h = (v, refl, h)

pub Result-cases {ℓ} :
    {T E : Type ℓ} (r : Result T E) → ((v : T) × (r ≡ ok v)) ⊎ ((e : E) × (r ≡ err e))
Result-cases (ok v) = inl (v, refl)
Result-cases (err e) = inr (e, refl)
