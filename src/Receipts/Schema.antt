-- ===== src/Receipts/Schema.antt =====
-- The receipt of an execution, and whether it is of a demo call: src/inferrail/receipts/schema.py and
-- classification.py. Times are microseconds since the epoch; a latency, a measured float that nothing
-- computes with, is in microseconds too.
use inferrail.Common.{
  ℕ, String, Bool, true, false, not, Option, none, some, if◌then◌else◌, same_text, starts_with,
}
use inferrail.Common.Dict.{Attributes}
use inferrail.Pricing.Price.{PriceEntry}

pub data Status : Type 0 where
  success : Status
  error : Status
  partial : Status

pub record InferenceReceipt : Type 0 where
  pub receipt_id : String
  pub request_id : String
  pub timestamp : ℕ
  pub route : String
  pub provider : String
  pub model : String
  pub status : Status
  pub prompt_tokens : Option ℕ
  pub completion_tokens : Option ℕ
  pub cache_creation_input_tokens : Option ℕ
  pub cache_creation_5m_input_tokens : Option ℕ
  pub cache_creation_1h_input_tokens : Option ℕ
  pub cache_read_input_tokens : Option ℕ
  pub pricing : Option PriceEntry
  pub estimated_cost_usd : Option ℕ
  pub attributes : Attributes
  pub total_latency_us : ℕ
  pub retry_count : ℕ

unfoldable pub is_demo_price : Option PriceEntry → Bool
unfolding starts_with
is_demo_price none = true
is_demo_price (some price) = starts_with "DEMO" price.source

unfoldable pub is_simulated : InferenceReceipt → Bool
unfolding is_demo_price same_text
is_simulated r = if not (same_text r.provider "demo") then false else is_demo_price r.pricing
