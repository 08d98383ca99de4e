-- ===== src/Outcome.antt =====
-- What a Python call gives: a value, or an exception that leaves it.
use mirror_mirage.Prelude.{◌≡◌, refl}
use mirror_mirage.Text.{Text}

pub data Exception : Type 0 where
  value_error overflow_error index_error assertion_error : Exception
  key_error : Text → Exception
  storage_error : Text → Exception

pub data Outcome {ℓ} (A : Type ℓ) : Type ℓ where
  value : A → Outcome A
  raised : Exception → Outcome A

infixl 5 ◌>>=◌
abbrev pub ◌>>=◌ {ℓ κ} : {A : Type ℓ} {B : Type κ} → Outcome A → (A → Outcome B) → Outcome B
value a >>= f = f a
raised e >>= f = raised e

pub value_inj {ℓ} : {A : Type ℓ} {a b : A} → value a ≡ value b → a ≡ b
value_inj h = cc

pub raised_ne_value {ℓ} : {A : Type ℓ} {e : Exception} {a : A} → ¬ (raised e ≡ value a)
raised_ne_value h = cc

-- What a chain of calls gave tells what its first call gave.
pub bind_inv {ℓ κ} :
    {A : Type ℓ} {B : Type κ} (x : Outcome A) (f : A → Outcome B) (b : B)
    → (x >>= f) ≡ value b
    → (a : A) × (x ≡ value a) × (f a ≡ value b)
bind_inv (value a) f b h = (a, refl, h)
bind_inv (raised e) f b h = absurd (raised_ne_value h)
