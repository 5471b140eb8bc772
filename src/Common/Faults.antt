-- ===== src/Common/Faults.antt =====
-- The result of code that may read through NULL: such a run is a fault and has no result.
use mathlib.Core.Path.{◌≡◌, refl}

pub data Run {ℓ} (A : Type ℓ) : Type ℓ where
  ok : A → Run A
  fault : Run A

infixl 5 ◌>>=◌
abbrev pub ◌>>=◌ {ℓ κ} : {A : Type ℓ} {B : Type κ} → Run A → (A → Run B) → Run B
ok a >>= f = f a
fault >>= f = fault

-- A sequence that has a result has one of its first part, from which the second has it.
pub >>=-eq-ok {ℓ κ} :
    {A : Type ℓ} {B : Type κ} (run : Run A) (next : A → Run B) {result : B}
    → (run >>= next) ≡ ok result
    → (x : A) × (run ≡ ok x) × (next x ≡ ok result)
>>=-eq-ok fault next e = cc
>>=-eq-ok (ok x) next e = (x, refl, e)
