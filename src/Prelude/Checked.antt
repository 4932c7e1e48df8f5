-- ===== src/Prelude/Checked.antt =====
-- A function that returns or throws.
use mathlib.Core.Path.{◌≡◌, refl}

-- `TypeError`, `RangeError` and a bare `Error`.
pub data Thrown : Type 0 where
  type_error range_error bare_error : Thrown

pub data Checked {ℓ} (A : Type ℓ) : Type ℓ where
  throws : Thrown → Checked A
  ok : A → Checked A

infixl 6 ◌>>=◌
abbrev pub ◌>>=◌ {κ ℓ} : {B : Type κ} {A : Type ℓ} → Checked A → (A → Checked B) → Checked B
throws e >>= next = throws e
ok a >>= next = next a

-- A step of which only the failure counts.
infixl 6 ◌>>◌
abbrev pub ◌>>◌ {ℓ} : Checked (Unit {0}) → {B : Type ℓ} → Checked B → Checked B
step >> rest = step >>= λ _. rest

-- A step that succeeds, and what follows it.
pub >>=-ok {κ ℓ} :
    {B : Type κ} {A : Type ℓ} (step : Checked A) (next : A → Checked B) {last : B}
    → (step >>= next) ≡ ok last
    → (x : A) × (step ≡ ok x) × (next x ≡ ok last)
>>=-ok (throws t) next fails = cc
>>=-ok (ok x) next h = (x, refl, h)
