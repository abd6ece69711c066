-- ===== src/Receipts/Build.antt =====
-- build_receipt of src/inferrail/receipts/builder.py. What a price resolves to for the provider and
-- the model, and the time, are arguments.
use inferrail.Common.{ℕ, String, Option, none, some}
use inferrail.Common.Dict.{Attributes}
use inferrail.Pricing.Price.{PriceEntry, for_input_tokens}
use inferrail.Pricing.Cost.{CacheTokens, calculate_cost_with_cache_usd}
use inferrail.Pricing.Resolver.{Catalogs, PricingResolver, resolve}
use inferrail.Receipts.Schema.{InferenceReceipt, Status}

pub record Measured : Type 0 where
  pub receipt_id : String
  pub request_id : String
  pub route : String
  pub provider : String
  pub model : String
  pub status : Status
  pub prompt_tokens : Option ℕ
  pub completion_tokens : Option ℕ
  pub attributes : Attributes
  pub total_latency_us : ℕ
  pub retry_count : ℕ
  pub cache : Option CacheTokens

-- The price and the cost are kept together or not at all.
unfoldable pub keep_priced : ℕ → PriceEntry → Option ℕ → Option PriceEntry × Option ℕ
keep_priced prompt price none = (none, none)
keep_priced prompt price (some cost) = (some (for_input_tokens price prompt), some cost)

unfoldable pub price_tokens :
    ℕ → ℕ → Option CacheTokens → Option PriceEntry → Option PriceEntry × Option ℕ
unfolding keep_priced
price_tokens prompt completion cache none = (none, none)
price_tokens prompt completion cache (some price) =
    keep_priced prompt price (calculate_cost_with_cache_usd prompt completion price cache)

unfoldable pub price_usage :
    Option ℕ → Option ℕ → Option CacheTokens → Option PriceEntry → Option PriceEntry × Option ℕ
unfolding price_tokens
price_usage (some prompt) (some completion) cache resolved =
    price_tokens prompt completion cache resolved
price_usage _ _ cache resolved = (none, none)

abbrev pub cached {ℓ} : {A : Type ℓ} → (CacheTokens → A) → Option CacheTokens → Option A
cached f none = none
cached f (some c) = some (f c)

abbrev pub cached? : (CacheTokens → Option ℕ) → Option CacheTokens → Option ℕ
cached? f none = none
cached? f (some c) = f c

unfoldable pub build_receipt : ℕ → Catalogs → PricingResolver → Measured → InferenceReceipt
unfolding price_usage
build_receipt now catalogs resolver x =
    let priced =
      price_usage x.prompt_tokens x.completion_tokens x.cache
        (resolve catalogs resolver x.provider x.model) in
    record {
      receipt_id = x.receipt_id;
      request_id = x.request_id;
      timestamp = now;
      route = x.route;
      provider = x.provider;
      model = x.model;
      status = x.status;
      prompt_tokens = x.prompt_tokens;
      completion_tokens = x.completion_tokens;
      cache_creation_input_tokens = cached (λ c. c.creation) x.cache;
      cache_creation_5m_input_tokens = cached? (λ c. c.creation_5m) x.cache;
      cache_creation_1h_input_tokens = cached? (λ c. c.creation_1h) x.cache;
      cache_read_input_tokens = cached (λ c. c.read) x.cache;
      pricing = priced.0;
      estimated_cost_usd = priced.1;
      attributes = x.attributes;
      total_latency_us = x.total_latency_us;
      retry_count = x.retry_count;
    }
