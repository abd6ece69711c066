-- ===== src/Transactions.antt =====
-- The receipts of one task as a transaction: src/inferrail/transactions/builder.py. The SHA-256 of a
-- text, of which the id has the first twenty digits, is an argument.
pub mod Total
use Prim.Native.String.{◌++◌, slice}
use inferrail.Common.{
  ℕ, Bool, String, List, [], ◌∷◌, map, filter, Option, none, some, leb_text, same_text?,
}
use inferrail.Common.Dict.{lookup}
use inferrail.Common.Sorting.{sort_by}
use inferrail.Receipts.Schema.{InferenceReceipt, Status, is_simulated}
use inferrail.Receipts.Store.{by_time}
use inferrail.Receipts.Economics.{ReceiptEconomics, Outcome, known, unknown, summarize_receipts}

pub record EconomicEventRef : Type 0 where
  pub event_type : String
  pub event_id : String
  pub simulated : Bool
  pub cost_usd : Option ℕ
  pub status : Status

pub record TaskTransaction : Type 0 where
  pub transaction_id : String
  pub task_id : String
  pub events : List EconomicEventRef
  pub known_total_cost_usd : ℕ
  pub unknown_cost_event_count : ℕ
  pub simulated_event_count : ℕ
  pub simulated_total_cost_usd : ℕ
  pub status : Status
  pub started_at : ℕ
  pub ended_at : ℕ

-- `"\n".join`
abbrev pub join_lines : String → List String → String
join_lines first [] = first
join_lines first (x ∷ xs) = first ++ "\n" ++ join_lines x xs

unfoldable pub new_transaction_id : (String → String) → String → List String → String
unfolding sort_by
new_transaction_id sha256_hex task_id event_ids =
    "tx_" ++ slice (sha256_hex (join_lines task_id (sort_by leb_text event_ids))) 0 20

unfoldable pub event_of : InferenceReceipt → EconomicEventRef
unfolding is_simulated
event_of r = record {
  event_type = "inference";
  event_id = r.receipt_id;
  simulated = is_simulated r;
  cost_usd = r.estimated_cost_usd;
  status = r.status;
}

-- The assertions of the source fail where this is `none`.
unfoldable pub transaction_of :
    String
    → String
    → List EconomicEventRef
    → ReceiptEconomics
    → Outcome
    → Option ℕ
    → Option ℕ
    → Option TaskTransaction
transaction_of transaction_id task_id events e (known status) (some started) (some ended) =
    some record {
      transaction_id = transaction_id;
      task_id = task_id;
      events = events;
      known_total_cost_usd = e.known_cost_usd;
      unknown_cost_event_count = e.unknown_cost_count;
      simulated_event_count = e.simulated_receipt_count;
      simulated_total_cost_usd = e.simulated_cost_usd;
      status = status;
      started_at = started;
      ended_at = ended;
    }
transaction_of transaction_id task_id events e _ _ _ = none

unfoldable pub transaction_from :
    (String → String) → String → List InferenceReceipt → Option TaskTransaction
unfolding transaction_of event_of new_transaction_id
transaction_from sha256_hex task_id [] = none
transaction_from sha256_hex task_id (r ∷ rs) =
    let events = map event_of (r ∷ rs) in
    let e = summarize_receipts (r ∷ rs) in
    transaction_of (new_transaction_id sha256_hex task_id (map (λ v. v.event_id) events)) task_id
      events e e.status e.started_at e.ended_at

unfoldable pub is_of_task : String → String → InferenceReceipt → Bool
unfolding lookup same_text?
is_of_task attribute_name task_id r = same_text? (lookup attribute_name r.attributes) (some task_id)

unfoldable pub build_transaction :
    (String → String) → String → String → List InferenceReceipt → Option TaskTransaction
unfolding transaction_from is_of_task sort_by
build_transaction sha256_hex attribute_name task_id receipts =
    transaction_from sha256_hex task_id
      (sort_by by_time (filter (is_of_task attribute_name task_id) receipts))
