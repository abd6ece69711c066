-- ===== src/Gateway/Samples.antt =====
-- One provider, one work and its calls: concrete data for the tests of src/inferrail/gateway/.
use inferrail.Common.{ℕ, zero, suc, ◌*◌, ◌^◌, String, true, false, Option, none, some, [], ◌∷◌}
use inferrail.Pricing.Price.{PriceEntry}
use inferrail.Pricing.Resolver.{
  ProviderConfig, openai, openai_compatible, openai_vendor, Catalogs, PricingResolver, resolve,
  assert_source,
}
use inferrail.Receipts.Schema.{InferenceReceipt, success}
use inferrail.Budgets.Schema.{Budget}
use inferrail.Budgets.Store.{BudgetStore, Reservation}
use inferrail.Budgets.Enforcer.{
  Enforcer, Request, Admission, exceeded, Refusal, work_budget, reservation_for, reserve,
}
use inferrail.Receipts.Build.{Measured, build_receipt}
use inferrail.Budgets.Run.{World}
use inferrail.Errors.{provider_error, provider_timeout}
use inferrail.Gateway.Admission.{Engine, Stores, BudgetState, Moment, Job}
use inferrail.Gateway.Execution.{Reply, Answer, replied, failed}

-- 0.15 and 0.60 dollars per million tokens, 0.075 for a cache read
abbrev pub mini : PriceEntry
mini = record {
  input_usd_per_million = 150000;
  output_usd_per_million = 600000;
  source = "openai.com";
  verified_date = 739000;
  cache_write_5m_usd_per_million = none;
  cache_write_1h_usd_per_million = none;
  cache_read_usd_per_million = some 75000;
  long_context = none;
}

abbrev pub catalogs : Catalogs
catalogs = record { openai_prices = ("mini", mini) ∷ []; anthropic_prices = [] }

abbrev pub vendor : ProviderConfig
vendor = record {
  kind = openai;
  api_key_env = "KEY";
  base_url = none;
  price_as = none;
  request_stream_usage = false;
}

abbrev pub proxy : ProviderConfig
proxy = record vendor {
  kind = openai_compatible;
  base_url = some "http://localhost";
  price_as = some openai_vendor;
}

abbrev pub resolver : PricingResolver
resolver = record { providers = ("vendor", vendor) ∷ ("proxy", proxy) ∷ []; overrides = [] }

abbrev pub enforcer : Enforcer
enforcer = record {
  catalogs = catalogs;
  resolver = resolver;
  per_work_default_usd = none;
  per_work_max_usd = none;
  allow_declared_budgets = true;
}

-- 9000 characters and 1000 completion tokens: 3000 * 0.15 + 1000 * 0.60 millionths of a dollar
abbrev pub call : Request
call = record {
  request_id = "req";
  provider = "vendor";
  model = "mini";
  attributes = ("work_id", "job") ∷ [];
  prompt_chars = 9000;
  max_completion_tokens = 1000;
  declared_limit_usd = some (2000 * 10 ^ 6);
}

abbrev pub no_budgets : BudgetStore
no_budgets = record { budgets = []; reservations = [] }

abbrev pub admission : Admission × BudgetStore
admission = reserve enforcer 100 "r1" [] call no_budgets

abbrev pub asserted_price : Option String
asserted_price = elim (resolve catalogs resolver "proxy" "openai/mini") [
  | none ↦ none
  | some p ↦ some p.source
]

abbrev pub job_budget : Budget
job_budget = work_budget 100 "job" (2000 * 10 ^ 6)

abbrev pub first : Reservation
first = reservation_for 100 "r1" call (1050 * 10 ^ 6)

abbrev pub opened : BudgetStore
opened = record { budgets = job_budget ∷ []; reservations = [] }

abbrev pub reserved : BudgetStore
reserved = record { budgets = job_budget ∷ []; reservations = first ∷ [] }

abbrev pub second_refusal : Refusal
second_refusal = exceeded job_budget 0 (1050 * 10 ^ 6) (2100 * 10 ^ 6) (1050 * 10 ^ 6)

abbrev pub other_call : Request
other_call = record call { attributes = ("work_id", "other") ∷ []; declared_limit_usd = none }

-- The call used 2500 prompt tokens and 400 completion tokens.
abbrev pub measured : Measured
measured = record {
  receipt_id = "ir1";
  request_id = "req";
  route = "passthrough";
  provider = "vendor";
  model = "mini";
  status = success;
  prompt_tokens = some 2500;
  completion_tokens = some 400;
  attributes = ("work_id", "job") ∷ [];
  total_latency_us = 900;
  retry_count = 0;
  cache = none;
}

abbrev pub receipt : InferenceReceipt
receipt = build_receipt 105 catalogs resolver measured

-- the receipt is written before the reservation is released
abbrev pub before_call : World
before_call = record { store = opened; receipts = []; settled = [] }

abbrev pub after_receipt : World
after_receipt = record { store = reserved; receipts = receipt ∷ []; settled = "r1" ∷ [] }

abbrev pub asserted : PriceEntry
asserted = assert_source "proxy" openai_vendor mini

abbrev pub engine : Engine
engine = record {
  budgets = some enforcer;
  catalogs = catalogs;
  resolver = resolver;
  usd_text = λ x. "some dollars";
}

abbrev pub moments : ℕ → Moment
moments zero = record {
  admitted_at = 100;
  reservation_id = "r1";
  ended_at = 105;
  receipt_id = "ir1";
  latency_us = 5;
}
moments (suc n) = record {
  admitted_at = 110;
  reservation_id = "r2";
  ended_at = 115;
  receipt_id = "ir2";
  latency_us = 5;
}

abbrev pub answered_second : Reply
answered_second = record {
  prompt_tokens = some 2500;
  completion_tokens = some 400;
  cached_prompt_tokens = none;
  cache_write_prompt_tokens = none;
}

abbrev pub answers : ℕ → Answer
answers zero = failed (provider_error provider_timeout none none)
answers (suc n) = replied answered_second

abbrev pub job : Job
job = record {
  request_id = "req";
  decision = record {
    route_name = "default";
    provider_name = "vendor";
    model = "mini";
    max_retries = 2;
    timeout_ms = 30000;
  };
  attributes = ("work_id", "job") ∷ [];
}

-- the work may spend three times the estimate
abbrev pub state : BudgetState
state = record {
  prompt_chars = 9000;
  max_completion_tokens = 1000;
  held_usd = 0;
  declared_budget_usd = some (3150 * 10 ^ 6);
}

abbrev pub stores : Stores
stores = record { budgets = no_budgets; receipts = [] }
