-- ===== src/Common/Membership.antt =====
-- Membership in a list as data, and what holds of no element.
use inferrail.Common.{◌≡◌, Bool, false, ◌&&◌, List, [], ◌∷◌, filter, any, arith, refl}

infix 50 ◌∈◌
pub data ◌∈◌ {ℓ} {A : Type ℓ} : A → List A → Type ℓ where
  here : (x : A) (xs : List A) → x ∈ (x ∷ xs)
  there : (x y : A) (xs : List A) → x ∈ xs → x ∈ (y ∷ xs)

pub any-false_at {ℓ} :
    {A : Type ℓ} (p : A → Bool) (x : A) (xs : List A) → x ∈ xs → any p xs ≡ false → p x ≡ false
any-false_at p x [] m h = elim m [ ]
any-false_at p x (_ ∷ _) (here _ xs) h = ground (arith, h)
any-false_at p x (_ ∷ _) (there _ y xs m) h = any-false_at p x xs m (ground (arith, h))

pub any-filter {ℓ} :
    {A : Type ℓ} (q p : A → Bool) (xs : List A) → any q (filter p xs) ≡ any (λ x. p x && q x) xs
any-filter q p [] = refl
any-filter q p (x ∷ xs) = ground (arith, any-filter q p xs)
