-- ===== src/Base/Calls.antt =====
-- What a call does besides returning: it panics (an index out of range, a failed `unwrap` or
-- `expect`), or it is still in its loop when the model's fuel is used up.

use mathlib.Core.Path.{◌≡◌, refl}

pub data Outcome {ℓ} (A : Type ℓ) : Type ℓ where
  done : A → Outcome A
  panic : Outcome A
  diverge : Outcome A

infixl 5 ◌>>=◌
abbrev pub ◌>>=◌ {ℓ κ} : {A : Type ℓ} {B : Type κ} → Outcome A → (A → Outcome B) → Outcome B
done a >>= f = f a
panic >>= f = panic
diverge >>= f = diverge

pub done-injective {ℓ} : {A : Type ℓ} {a b : A} → done a ≡ done b → a ≡ b
done-injective e = cc

-- A chain that returns: its first call returns, and then the rest.
pub bind-done {ℓ κ} :
    {A : Type ℓ} {B : Type κ} (x : Outcome A) (f : A → Outcome B) {b : B}
    → (x >>= f) ≡ done b
    → (a : A) × (x ≡ done a) × (f a ≡ done b)
bind-done (done a) f run = (a, refl, run)
bind-done panic f run = absurd (cc run)
bind-done diverge f run = absurd (cc run)
