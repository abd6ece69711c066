-- ===== src/Receipts/Economics.antt =====
-- summarize_receipts of src/inferrail/receipts/aggregation.py.
use inferrail.Common.{ℕ, ◌+◌, Bool, false, all, Option, none, some, List, [], ◌∷◌, if◌then◌else◌}
use inferrail.Common.Sorting.{sort_by}
use inferrail.Pricing.Cost.{or_zero}
use inferrail.Receipts.Schema.{InferenceReceipt, Status, success, error, partial, is_simulated}
use inferrail.Receipts.Store.{same_status, by_time}

pub data Outcome : Type 0 where
  known : Status → Outcome
  unknown : Outcome

pub record ReceiptEconomics : Type 0 where
  pub known_cost_usd : ℕ
  pub unknown_cost_count : ℕ
  pub status : Outcome
  pub started_at : Option ℕ
  pub ended_at : Option ℕ
  pub prompt_tokens : Option ℕ
  pub completion_tokens : Option ℕ
  pub real_receipt_count : ℕ
  pub simulated_receipt_count : ℕ
  pub simulated_cost_usd : ℕ

-- What the loop accumulates.
pub record Sums : Type 0 where
  pub known_cost_usd : ℕ
  pub unknown_cost_count : ℕ
  pub prompt_tokens : Option ℕ
  pub completion_tokens : Option ℕ
  pub real_count : ℕ
  pub simulated_count : ℕ
  pub simulated_cost_usd : ℕ

abbrev pub no_sums : Sums
no_sums = record {
  known_cost_usd = 0;
  unknown_cost_count = 0;
  prompt_tokens = none;
  completion_tokens = none;
  real_count = 0;
  simulated_count = 0;
  simulated_cost_usd = 0;
}

unfoldable pub add_tokens : Option ℕ → Option ℕ → Option ℕ
add_tokens tokens none = tokens
add_tokens tokens (some n) = some (or_zero tokens + n)

-- a call that succeeded and has no cost
unfoldable pub is_unknown_cost : InferenceReceipt → Bool
is_unknown_cost r = elim r.estimated_cost_usd [
  | some cost ↦ false
  | none ↦ same_status r.status success
]

unfoldable pub add_receipt : Sums → InferenceReceipt → Sums
unfolding add_tokens is_unknown_cost
add_receipt s r =
    if is_simulated r
    then record s {
      simulated_count = s.simulated_count + 1;
      simulated_cost_usd = s.simulated_cost_usd + or_zero r.estimated_cost_usd;
    }
    else record s {
      real_count = s.real_count + 1;
      known_cost_usd = s.known_cost_usd + or_zero r.estimated_cost_usd;
      unknown_cost_count = s.unknown_cost_count + (if is_unknown_cost r then 1 else 0);
      prompt_tokens = add_tokens s.prompt_tokens r.prompt_tokens;
      completion_tokens = add_tokens s.completion_tokens r.completion_tokens;
    }

unfoldable pub add_receipts : Sums → List InferenceReceipt → Sums
unfolding add_receipt
add_receipts s [] = s
add_receipts s (r ∷ rs) = add_receipts (add_receipt s r) rs

-- the status of a run, from the set of its receipts' statuses
unfoldable pub overall_status : List InferenceReceipt → Status
overall_status rs =
    if all (λ r. same_status r.status success) rs
    then success
    else if all (λ r. same_status r.status error) rs
    then error
    else partial

abbrev pub first_time : List InferenceReceipt → Option ℕ
first_time [] = none
first_time (r ∷ rs) = some r.timestamp

abbrev pub last_time : List InferenceReceipt → Option ℕ
last_time [] = none
last_time (r ∷ []) = some r.timestamp
last_time (r ∷ s ∷ rs) = last_time (s ∷ rs)

unfoldable pub summarize_ordered : List InferenceReceipt → ReceiptEconomics
unfolding add_receipts overall_status
summarize_ordered ordered =
    let s = add_receipts no_sums ordered in
    record {
      known_cost_usd = s.known_cost_usd;
      unknown_cost_count = s.unknown_cost_count;
      status = known (overall_status ordered);
      started_at = first_time ordered;
      ended_at = last_time ordered;
      prompt_tokens = s.prompt_tokens;
      completion_tokens = s.completion_tokens;
      real_receipt_count = s.real_count;
      simulated_receipt_count = s.simulated_count;
      simulated_cost_usd = s.simulated_cost_usd;
    }

abbrev pub no_economics : ReceiptEconomics
no_economics = record {
  known_cost_usd = 0;
  unknown_cost_count = 0;
  status = unknown;
  started_at = none;
  ended_at = none;
  prompt_tokens = none;
  completion_tokens = none;
  real_receipt_count = 0;
  simulated_receipt_count = 0;
  simulated_cost_usd = 0;
}

unfoldable pub summarize_receipts : List InferenceReceipt → ReceiptEconomics
unfolding summarize_ordered sort_by
summarize_receipts [] = no_economics
summarize_receipts (r ∷ rs) = summarize_ordered (sort_by by_time (r ∷ rs))
