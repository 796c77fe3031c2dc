-- ===== src/Prelude/Results.antt =====
-- The exceptions of the code as values.
use Prim.Native.Nat.{ℕ}
use mathlib.Core.Path.{◌≡◌, refl}

pub data Error : Type 0 where
  -- `Could not find layer with id`
  no_layer : ℕ → Error
  -- a read of a property of `undefined`
  type_error : Error

pub data Result {ℓ} (Output : Type ℓ) : Type ℓ where
  throw : Error → Result Output
  ok : Output → Result Output

infixl 5 ◌>>=◌
abbrev pub ◌>>=◌ {ℓ₁ ℓ₂} :
    {Input : Type ℓ₁} {Output : Type ℓ₂} → Result Input → (Input → Result Output) → Result Output
throw problem >>= next = throw problem
ok input >>= next = next input

-- A chain that returns has a first step that returns.
pub step_returns {ℓ₁ ℓ₂} :
    {Input : Type ℓ₁} {Output : Type ℓ₂} (first : Result Input) (next : Input → Result Output)
    {output : Output}
    → (first >>= next) ≡ ok output
    → (input : Input) × (first ≡ ok input) × (next input ≡ ok output)
step_returns (throw problem) next returned = cc
step_returns (ok input) next returned = (input, refl, returned)

-- Three steps in a row.
pub bind_assoc {ℓ₁ ℓ₂ ℓ₃} :
    {A : Type ℓ₁} {B : Type ℓ₂} {C : Type ℓ₃} (m : Result A) (f : A → Result B) (g : B → Result C)
    → ((m >>= f) >>= g) ≡ (m >>= λ a. f a >>= g)
bind_assoc (throw e) f g = refl
bind_assoc (ok a) f g = refl
