-- ===== src/Common/Sums.antt =====
-- Sums of integers over a list, and predicates on all its elements.
use inferrail.Common.{◌≡◌, List, [], ◌∷◌, arith}
use inferrail.Common.Int.{ℤ, pos, ◌+ℤ◌, ◌≤ℤ◌, int_laws}

module _ {ℓ} {A : Type ℓ} where
  unfoldable pub total : (A → ℤ) → List A → ℤ
  total f [] = pos 0
  total f (x ∷ xs) = f x +ℤ total f xs

  abbrev pub All {κ} : (A → Type κ) → List A → Type κ
  All P [] = Unit
  All P (x ∷ xs) = P x × All P xs

  pub total_mono : (f g : A → ℤ) (xs : List A) → All (λ x. f x ≤ℤ g x) xs → total f xs ≤ℤ total g xs
  unfolding total
  total_mono f g [] h = omega arith
  total_mono f g (x ∷ xs) h = omega (int_laws, total_mono f g xs h.1, h.0)

  pub total_add :
      (f g : A → ℤ) (xs : List A) → total (λ x. f x +ℤ g x) xs ≡ total f xs +ℤ total g xs
  unfolding total
  total_add f g [] = omega int_laws
  total_add f g (x ∷ xs) = rw (total_add f g xs) (omega int_laws)

  pub total_nonneg : (f : A → ℤ) (xs : List A) → All (λ x. pos 0 ≤ℤ f x) xs → pos 0 ≤ℤ total f xs
  unfolding total
  total_nonneg f [] h = omega arith
  total_nonneg f (x ∷ xs) h = omega (int_laws, total_nonneg f xs h.1, h.0)

  pub All-map {κ μ} :
      {P : A → Type κ} {Q : A → Type μ} (xs : List A) → ((x : A) → P x → Q x) → All P xs → All Q xs
  All-map [] h p = tt
  All-map (x ∷ xs) h p = (h x p.0, All-map xs h p.1)
