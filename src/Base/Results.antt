-- ===== src/Base/Results.antt =====
-- Code that may throw, as a result. `undefined` is undefined behaviour; `out_of_fuel` is no C++
-- outcome, it marks a model's loop that was given too few rounds.
use mathlib.Core.Path.{◌≡◌, refl}

pub data Error : Type 0 where
  out_of_range runtime_error unix_error undefined out_of_fuel : Error

pub data Result {ℓ} (T : Type ℓ) : Type ℓ where
  err : (why : Error) → Result T
  ok : T → Result T

infixl 5 ◌>>=◌
-- An exception leaves the rest of the body out.
abbrev pub ◌>>=◌ {ℓ ι} : {T : Type ℓ} {U : Type ι} (r : Result T) (rest : T → Result U) → Result U
err why >>= rest = err why
ok x >>= rest = rest x

-- A body that ends without an exception has passed its first call.
pub bind_ok {ℓ ι} :
    {T : Type ℓ} {U : Type ι} (r : Result T) (rest : T → Result U) {y : U}
    → (r >>= rest) ≡ ok y
    → (x : T) × (r ≡ ok x) × (rest x ≡ ok y)
bind_ok (err why) rest e = cc
bind_ok (ok x) rest e = (x, refl, e)
