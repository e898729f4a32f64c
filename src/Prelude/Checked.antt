-- ===== src/Prelude/Checked.antt =====
-- Code that can read outside its buffer: such a read is a fault, and a fault ends the run.
use mathlib.Core.Path.{◌≡◌, refl, ap, ◌∙◌}

pub data Checked {ℓ} (A : Type ℓ) : Type ℓ where
  ok : A → Checked A
  fault : Checked A

infixl 5 ◌>>=◌
abbrev pub ◌>>=◌ {ℓ κ} : {A : Type ℓ} {B : Type κ} → Checked A → (A → Checked B) → Checked B
ok a >>= f = f a
fault >>= f = fault

pub bind_assoc {ℓ κ μ} :
    {A : Type ℓ} {B : Type κ} {C : Type μ} (m : Checked A) (f : A → Checked B) (g : B → Checked C)
    → (m >>= λ x. f x >>= g) ≡ (m >>= f >>= g)
bind_assoc (ok a) f g = refl
bind_assoc fault f g = refl

-- The rest of a run, once a step is known.
pub after {ℓ κ} :
    {A : Type ℓ} {B : Type κ} {m : Checked A} {a : A} {r : Checked B} (f : A → Checked B)
    → m ≡ ok a
    → f a ≡ r
    → (m >>= f) ≡ r
after f h k = ap (λ m. m >>= f) h ∙ k
