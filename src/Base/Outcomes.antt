-- ===== src/Base/Outcomes.antt =====
-- What a piece of Go code can do: return, panic, or (on fuel) not be done yet.
use mathlib.Core.Path.{◌≡◌, refl}
use mathlib.Core.List.{List, [], ◌∷◌}
use Prim.Native.Nat.{ℕ, zero, suc}

pub data Outcome {ℓ} (A : Type ℓ) : Type ℓ where
  returns : A → Outcome A
  panics : Outcome A
  unfinished : Outcome A

infixl 5 ◌>>=◌
abbrev pub ◌>>=◌ {ℓ κ} : {A : Type ℓ} {B : Type κ} → Outcome A → (A → Outcome B) → Outcome B
returns a >>= f = f a
panics >>= f = panics
unfinished >>= f = unfinished

-- `l[i]`
unfoldable pub index {ℓ} : {A : Type ℓ} → List A → ℕ → Outcome A
index [] i = panics
index (x ∷ xs) zero = returns x
index (x ∷ xs) (suc i) = index xs i

-- What returns has gone on from a value.
pub >>=-returns {ℓ κ} :
    {A : Type ℓ} {B : Type κ} (m : Outcome A) (f : A → Outcome B) {b : B}
    → (m >>= f) ≡ returns b
    → (a : A) × (m ≡ returns a) × (f a ≡ returns b)
>>=-returns (returns a) f h = (a, refl, h)
>>=-returns panics f h = cc
>>=-returns unfinished f h = cc
