-- ===== src/Common/Sorting.antt =====
-- Python's `sorted`: stable, by a Boolean order on the keys. What is summed over a list is summed
-- over its sorted copy.
use inferrail.Common.{
  ℕ, ◌+◌, ◌≡◌, refl, ◌∙◌, ap, Bool, List, [], ◌∷◌, if◌then◌else◌, arith, any, ◌||◌,
}

module _ {ℓ} {A : Type ℓ} (leb_by : A → A → Bool) where
  -- before the first element that is strictly after it, so equal keys keep their order
  unfoldable pub insert_sorted : A → List A → List A
  insert_sorted x [] = x ∷ []
  insert_sorted x (y ∷ ys) = if leb_by x y then x ∷ y ∷ ys else y ∷ insert_sorted x ys

  unfoldable pub sort_by : List A → List A
  unfolding insert_sorted
  sort_by [] = []
  sort_by (x ∷ xs) = insert_sorted x (sort_by xs)

module _ {ℓ} {A : Type ℓ} (f : A → ℕ) where
  unfoldable pub sum_of : List A → ℕ
  sum_of [] = 0
  sum_of (x ∷ xs) = f x + sum_of xs

module _ {ℓ} {A : Type ℓ} (leb_by : A → A → Bool) (f : A → ℕ) where
  pub sum_of-insert_sorted :
      (x : A) (xs : List A) → sum_of f (insert_sorted leb_by x xs) ≡ f x + sum_of f xs
  unfolding insert_sorted sum_of
  sum_of-insert_sorted x [] = refl
  sum_of-insert_sorted x (y ∷ ys) = ground (arith, sum_of-insert_sorted x ys)

  pub sum_of-sort_by : (xs : List A) → sum_of f (sort_by leb_by xs) ≡ sum_of f xs
  unfolding sort_by sum_of
  sum_of-sort_by [] = refl
  sum_of-sort_by (x ∷ xs) =
      sum_of-insert_sorted x (sort_by leb_by xs) ∙ ap (λ n. f x + n) (sum_of-sort_by xs)

module _ {ℓ} {A : Type ℓ} (leb_by : A → A → Bool) (p : A → Bool) where
  pub any-insert_sorted :
      (x : A) (xs : List A) → any p (insert_sorted leb_by x xs) ≡ (p x || any p xs)
  unfolding insert_sorted
  any-insert_sorted x [] = refl
  any-insert_sorted x (y ∷ ys) = ground (arith, any-insert_sorted x ys)

  pub any-sort_by : (xs : List A) → any p (sort_by leb_by xs) ≡ any p xs
  unfolding sort_by
  any-sort_by [] = refl
  any-sort_by (x ∷ xs) =
      any-insert_sorted x (sort_by leb_by xs) ∙ ap (λ b. p x || b) (any-sort_by xs)
