-- ===== src/Receipts/Totals.antt =====
-- The economics of receipts as sums over them in any order.
use inferrail.Common.{
  ℕ, ◌+◌, ◌≡◌, refl, Option, none, some, List, [], ◌∷◌, if◌then◌else◌, length, arith,
}
use inferrail.Common.Sorting.{sort_by, sum_of, sum_of-sort_by}
use inferrail.Pricing.Cost.{or_zero}
use inferrail.Receipts.Schema.{InferenceReceipt, is_simulated}
use inferrail.Receipts.Store.{by_time}
use inferrail.Receipts.Economics.{
  Sums, no_sums, add_tokens, add_receipt, add_receipts, is_unknown_cost, summarize_ordered,
  summarize_receipts,
}

abbrev pub real_part : (InferenceReceipt → ℕ) → InferenceReceipt → ℕ
real_part f r = if is_simulated r then 0 else f r

abbrev pub simulated_part : (InferenceReceipt → ℕ) → InferenceReceipt → ℕ
simulated_part f r = if is_simulated r then f r else 0

abbrev pub cost_of : InferenceReceipt → ℕ
cost_of r = or_zero r.estimated_cost_usd

abbrev pub unknown_of : InferenceReceipt → ℕ
unknown_of r = if is_unknown_cost r then 1 else 0

-- what the loop adds to its start, by a measure for each field
abbrev pub AddsUp : (Sums → ℕ) → (InferenceReceipt → ℕ) → Type 0
AddsUp field f =
    (s : Sums) (rs : List InferenceReceipt) → field (add_receipts s rs) ≡ field s + sum_of f rs

module _ (field : Sums → ℕ) (f : InferenceReceipt → ℕ) where
  adds_up :
      ((s : Sums) (r : InferenceReceipt) → field (add_receipt s r) ≡ field s + f r)
      → (s : Sums) (rs : List InferenceReceipt) → field (add_receipts s rs) ≡ field s + sum_of f rs
  unfolding add_receipts sum_of
  adds_up h s [] = omega arith
  adds_up h s (r ∷ rs) = omega (arith, h s r, adds_up h (add_receipt s r) rs)

  -- and so over the sorted list, from nothing
  summed :
      ((s : Sums) (r : InferenceReceipt) → field (add_receipt s r) ≡ field s + f r)
      → field no_sums ≡ 0
      → (rs : List InferenceReceipt)
      → field (add_receipts no_sums (sort_by by_time rs)) ≡ sum_of f rs
  summed h z rs =
      omega (arith, z, adds_up h no_sums (sort_by by_time rs), sum_of-sort_by by_time f rs)

or_zero-add_tokens : (a b : Option ℕ) → or_zero (add_tokens a b) ≡ or_zero a + or_zero b
unfolding add_tokens
or_zero-add_tokens a none = omega arith
or_zero-add_tokens a (some n) = refl

counts_all :
    (rs : List InferenceReceipt)
    → sum_of (real_part (λ r. 1)) rs + sum_of (simulated_part (λ r. 1)) rs ≡ length rs
unfolding sum_of
counts_all [] = refl
counts_all (r ∷ rs) = ground (arith, counts_all rs)

-- the number of real receipts is counted too
pub real_count_total :
    (rs : List InferenceReceipt)
    → (summarize_receipts rs).real_receipt_count ≡ sum_of (real_part (λ r. 1)) rs
unfolding summarize_receipts summarize_ordered sum_of add_receipt
real_count_total [] = refl
real_count_total (r ∷ rs) =
    summed (λ s. s.real_count) (real_part (λ r. 1)) (λ s r. ground arith) refl (r ∷ rs)

-- The costs and tokens of the summary are the sums over the real receipts, and the simulated cost
-- the sum over the simulated ones, whatever the order; each receipt is counted once.
pub summarize_totals :
    (rs : List InferenceReceipt)
    → let e = summarize_receipts rs in
      (e.known_cost_usd ≡ sum_of (real_part cost_of) rs)
      × (e.simulated_cost_usd ≡ sum_of (simulated_part cost_of) rs)
      × (e.unknown_cost_count ≡ sum_of (real_part unknown_of) rs)
      × (or_zero e.prompt_tokens ≡ sum_of (real_part (λ r. or_zero r.prompt_tokens)) rs)
      × (or_zero e.completion_tokens ≡ sum_of (real_part (λ r. or_zero r.completion_tokens)) rs)
      × (e.real_receipt_count + e.simulated_receipt_count ≡ length rs)
unfolding summarize_receipts summarize_ordered sum_of add_receipt
summarize_totals [] = (refl, refl, refl, refl, refl, refl)
summarize_totals (r ∷ rs) = (
  summed (λ s. s.known_cost_usd) (real_part cost_of) (λ s r. ground arith) refl (r ∷ rs),
  summed (λ s. s.simulated_cost_usd) (simulated_part cost_of) (λ s r. ground arith) refl (r ∷ rs),
  summed (λ s. s.unknown_cost_count) (real_part unknown_of) (λ s r. ground arith) refl (r ∷ rs),
  summed (λ s. or_zero s.prompt_tokens) (real_part (λ r. or_zero r.prompt_tokens))
      (λ s r. ground (arith, or_zero-add_tokens s.prompt_tokens r.prompt_tokens)) refl (r ∷ rs),
  summed (λ s. or_zero s.completion_tokens) (real_part (λ r. or_zero r.completion_tokens))
      (λ s r. ground (arith, or_zero-add_tokens s.completion_tokens r.completion_tokens)) refl
      (r ∷ rs),
  omega (
    arith,
    counts_all (r ∷ rs),
    summed (λ s. s.real_count) (real_part (λ r. 1)) (λ s r. ground arith) refl (r ∷ rs),
    summed (λ s. s.simulated_count) (simulated_part (λ r. 1)) (λ s r. ground arith) refl (r ∷ rs),
  ),
)
