-- ===== src/Work.antt =====
-- Summaries of works from their receipts and declared outcomes: src/inferrail/work/builder.py and
-- schema.py. Reading and appending the outcome file is left out.
pub mod Ids
pub mod Total
mod Tests
use inferrail.Common.{
  ℕ, Bool, true, false, String, List, [], ◌∷◌, ◌++◌, map, filter, any, length, Option, none, some,
  if◌then◌else◌, same_text, same_text?, leb_text, leb, non_empty, count_chars, ◌&&◌, ltb,
}
use inferrail.Common.Dict.{lookup}
use inferrail.Common.Sorting.{sort_by}
use inferrail.Receipts.Schema.{InferenceReceipt, Status}
use inferrail.Receipts.Economics.{ReceiptEconomics, Outcome, summarize_receipts}

pub record WorkOutcomeRecord : Type 0 where
  pub work_id : String
  pub outcome_status : String
  pub recorded_at : ℕ

-- the lengths that the record's fields must have
unfoldable pub outcome_ok : WorkOutcomeRecord → Bool
unfolding non_empty count_chars
outcome_ok o =
    non_empty o.work_id && non_empty o.outcome_status && leb (count_chars o.outcome_status) 128

pub record WorkSummary : Type 0 where
  pub work_id : String
  pub outcome_status : Option String
  pub outcome_recorded_at : Option ℕ
  pub started_at : Option ℕ
  pub ended_at : Option ℕ
  pub receipt_count : ℕ
  pub known_attributed_inference_cost_usd : Option ℕ
  pub unknown_cost_count : ℕ
  pub inference_status : Outcome
  pub prompt_tokens : Option ℕ
  pub completion_tokens : Option ℕ
  pub real_receipt_count : ℕ
  pub simulated_receipt_count : ℕ
  pub simulated_cost_usd : Option ℕ

-- the last one appended
unfoldable pub current_outcome_for_work : List WorkOutcomeRecord → Option WorkOutcomeRecord
current_outcome_for_work [] = none
current_outcome_for_work (o ∷ []) = some o
current_outcome_for_work (o ∷ p ∷ os) = current_outcome_for_work (p ∷ os)

unfoldable pub is_of_work : String → InferenceReceipt → Bool
unfolding lookup same_text?
is_of_work work_id r = same_text? (lookup "work_id" r.attributes) (some work_id)

unfoldable pub matching_receipts_for_work : String → List InferenceReceipt → List InferenceReceipt
unfolding is_of_work
matching_receipts_for_work work_id rs = filter (is_of_work work_id) rs

abbrev field_of : {A : Type 0} → (WorkOutcomeRecord → A) → Option WorkOutcomeRecord → Option A
field_of f none = none
field_of f (some o) = some (f o)

-- `x if n else None`
abbrev pub if_any : {A : Type 0} → ℕ → Option A → Option A
if_any n x = if ltb 0 n then x else none

unfoldable pub summary_of : String → List InferenceReceipt → List WorkOutcomeRecord → WorkSummary
unfolding current_outcome_for_work
summary_of work_id matching outcomes =
    let e = summarize_receipts matching in
    let current = current_outcome_for_work outcomes in
    record {
      work_id = work_id;
      outcome_status = field_of (λ o. o.outcome_status) current;
      outcome_recorded_at = field_of (λ o. o.recorded_at) current;
      started_at = e.started_at;
      ended_at = e.ended_at;
      receipt_count = length matching;
      known_attributed_inference_cost_usd = if_any e.real_receipt_count (some e.known_cost_usd);
      unknown_cost_count = e.unknown_cost_count;
      inference_status = e.status;
      prompt_tokens = if_any (length matching) e.prompt_tokens;
      completion_tokens = if_any (length matching) e.completion_tokens;
      real_receipt_count = e.real_receipt_count;
      simulated_receipt_count = e.simulated_receipt_count;
      simulated_cost_usd = if_any e.simulated_receipt_count (some e.simulated_cost_usd);
    }

abbrev pub summary_if : String → List InferenceReceipt → List WorkOutcomeRecord → Option WorkSummary
summary_if work_id [] [] = none
summary_if work_id matching outcomes = some (summary_of work_id matching outcomes)

unfoldable pub build_work_summary :
    String → List InferenceReceipt → List WorkOutcomeRecord → Option WorkSummary
unfolding matching_receipts_for_work summary_of
build_work_summary work_id receipts outcomes =
    summary_if work_id (matching_receipts_for_work work_id receipts) outcomes

-- A set of texts is a list without repetition.
unfoldable pub add_id : String → List String → List String
unfolding same_text
add_id w ids = if any (same_text w) ids then ids else w ∷ ids

abbrev pub add_id? : Option String → List String → List String
add_id? none ids = ids
add_id? (some w) ids = add_id w ids

unfoldable pub work_ids_in_receipts : List InferenceReceipt → List String → List String
unfolding add_id lookup
work_ids_in_receipts [] ids = ids
work_ids_in_receipts (r ∷ rs) ids =
    add_id? (lookup "work_id" r.attributes) (work_ids_in_receipts rs ids)

unfoldable pub work_ids_in_outcomes : List WorkOutcomeRecord → List String
unfolding add_id
work_ids_in_outcomes [] = []
work_ids_in_outcomes (o ∷ os) = add_id o.work_id (work_ids_in_outcomes os)

abbrev pub add_summary : Option WorkSummary → List WorkSummary → List WorkSummary
add_summary none rest = rest
add_summary (some s) rest = s ∷ rest

unfoldable pub summaries_for :
    List InferenceReceipt → List WorkOutcomeRecord → List String → List WorkSummary
unfolding build_work_summary matching_receipts_for_work
summaries_for receipts outcomes [] = []
summaries_for receipts outcomes (w ∷ ws) =
    add_summary
      (build_work_summary w (matching_receipts_for_work w receipts)
        (filter (λ o. same_text o.work_id w) outcomes))
      (summaries_for receipts outcomes ws)

unfoldable pub aggregate_work_summaries :
    List InferenceReceipt → List WorkOutcomeRecord → List WorkSummary
unfolding summaries_for work_ids_in_receipts work_ids_in_outcomes sort_by
aggregate_work_summaries receipts outcomes =
    summaries_for receipts outcomes
      (sort_by leb_text (work_ids_in_receipts receipts (work_ids_in_outcomes outcomes)))
