-- ===== src/Receipts/Audit.antt =====
-- A receipt's cost is known exactly when its price is, and is what that price gives.
use inferrail.Common.{ℕ, ◌≡◌, refl, sym, ◌⊎◌, inl, inr, Option, none, some, ◌∙◌}
use inferrail.Pricing.Price.{PriceEntry, for_input_tokens}
use inferrail.Pricing.Cost.{CacheTokens, calculate_cost_with_cache_usd}
use inferrail.Pricing.Snapshot.{cost_of_snapshot, for_input_tokens_is_flat}
use inferrail.Pricing.Resolver.{Catalogs, PricingResolver, resolve}
use inferrail.Receipts.Build.{Measured, keep_priced, price_tokens, price_usage, build_receipt}

abbrev pub IsAudited :
    Option ℕ → Option ℕ → Option CacheTokens → Option PriceEntry → Option ℕ → Type 0
IsAudited prompt_tokens completion_tokens cache pricing cost =
    ((pricing ≡ none) × (cost ≡ none))
    ⊎ ((price : PriceEntry) × (prompt : ℕ) × (completion : ℕ) × (pricing ≡ some price)
        × (price.long_context ≡ none)
        × (prompt_tokens ≡ some prompt)
        × (completion_tokens ≡ some completion)
        × (cost ≡ calculate_cost_with_cache_usd prompt completion price cache))

kept-IsAudited :
    (prompt completion : ℕ) (cache : Option CacheTokens) (price : PriceEntry) (o : Option ℕ)
    → calculate_cost_with_cache_usd prompt completion price cache ≡ o
    → let kept = keep_priced prompt price o in
      IsAudited (some prompt) (some completion) cache kept.0 kept.1
unfolding keep_priced
kept-IsAudited prompt completion cache price none h = inl (refl, refl)
kept-IsAudited prompt completion cache price (some cost) h = inr (
  for_input_tokens price prompt,
  prompt,
  completion,
  refl,
  for_input_tokens_is_flat price prompt,
  refl,
  refl,
  sym (cost_of_snapshot prompt completion price cache ∙ h),
)

priced-IsAudited :
    (prompt_tokens completion_tokens : Option ℕ) (cache : Option CacheTokens)
    (resolved : Option PriceEntry)
    → let priced = price_usage prompt_tokens completion_tokens cache resolved in
      IsAudited prompt_tokens completion_tokens cache priced.0 priced.1
unfolding price_usage price_tokens
priced-IsAudited none completion cache resolved = inl (refl, refl)
priced-IsAudited (some prompt) none cache resolved = inl (refl, refl)
priced-IsAudited (some prompt) (some completion) cache none = inl (refl, refl)
priced-IsAudited (some prompt) (some completion) cache (some price) =
    kept-IsAudited prompt completion cache price
      (calculate_cost_with_cache_usd prompt completion price cache) refl

-- The receipt that is built has neither a price nor a cost, or it has both token counts and a flat
-- price (no long-context tier) from which its cost can be calculated again.
pub build_receipt-IsAudited :
    (now : ℕ) (catalogs : Catalogs) (resolver : PricingResolver) (x : Measured)
    → let r = build_receipt now catalogs resolver x in
      IsAudited r.prompt_tokens r.completion_tokens x.cache r.pricing r.estimated_cost_usd
unfolding build_receipt
build_receipt-IsAudited now catalogs resolver x =
    priced-IsAudited x.prompt_tokens x.completion_tokens x.cache
      (resolve catalogs resolver x.provider x.model)
