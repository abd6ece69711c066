-- ===== src/Work/Tests.antt =====
-- A run of the work summaries, and their theorem at it.
use inferrail.Common.{◌≡◌, refl, List, [], ◌∷◌, none, some, same_text, same_text?}
use inferrail.Common.Dict.{lookup}
use inferrail.Common.Sorting.{sum_of, sort_by, insert_sorted}
use inferrail.Receipts.Schema.{InferenceReceipt, success}
use inferrail.Receipts.Totals.{real_part, cost_of}
use inferrail.Work.{
  WorkOutcomeRecord, is_of_work, matching_receipts_for_work, current_outcome_for_work, summary_of,
  build_work_summary, add_id, work_ids_in_receipts, work_ids_in_outcomes, summaries_for,
  aggregate_work_summaries,
}
use inferrail.Work.Total.{known_in, attributed, works_add_up}

abbrev receipt : InferenceReceipt
receipt = record {
  receipt_id = "r1";
  request_id = "q1";
  timestamp = 1;
  route = "route";
  provider = "vendor";
  model = "mini";
  status = success;
  prompt_tokens = some 10;
  completion_tokens = some 5;
  cache_creation_input_tokens = none;
  cache_creation_5m_input_tokens = none;
  cache_creation_1h_input_tokens = none;
  cache_read_input_tokens = none;
  pricing = none;
  estimated_cost_usd = some 700;
  attributes = ("work_id", "b") ∷ [];
  total_latency_us = 1;
  retry_count = 0;
}

-- two receipts of one work, one of another and one of none
abbrev receipts : List InferenceReceipt
receipts =
    receipt
    ∷ record receipt { receipt_id = "r2"; attributes = [] }
    ∷ record receipt { receipt_id = "r3"; attributes = ("work_id", "a") ∷ [] }
    ∷ record receipt { receipt_id = "r4" }
    ∷ []

-- an outcome for a work without receipts
abbrev outcomes : List WorkOutcomeRecord
outcomes = record { work_id = "c"; outcome_status = "success"; recorded_at = 9 } ∷ []

works_add_up_example :
    (sum_of known_in (aggregate_work_summaries receipts outcomes)
      ≡ sum_of (attributed (real_part cost_of)) receipts)
    × (sum_of (λ s. s.receipt_count) (aggregate_work_summaries receipts outcomes)
        ≡ sum_of (attributed (λ r. 1)) receipts)
works_add_up_example = works_add_up receipts outcomes

counted : sum_of (λ s. s.receipt_count) (aggregate_work_summaries receipts outcomes) ≡ 3
unfolding sum_of aggregate_work_summaries summaries_for build_work_summary summary_of
    matching_receipts_for_work is_of_work current_outcome_for_work work_ids_in_receipts
    work_ids_in_outcomes add_id lookup same_text same_text? sort_by insert_sorted
counted = refl
