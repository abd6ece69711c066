-- ===== src/Budgets/Cover.antt =====
-- The reserved estimate covers the cost of a request that stays within its measures.
use inferrail.Common.{ℕ, ◌≤◌, String, ◌≡◌, sym, ap, ◌∙◌, Option, none, some, arith, of_some}
use inferrail.Common.Products.{mul_mono}
use inferrail.Pricing.Price.{PriceEntry, LongContextPrice, for_input_tokens, rates_for}
use inferrail.Pricing.Cost.{
  CacheTokens, flat_cost, quantize, calculate_cost_usd, calculate_cost_with_cache_usd,
}
use inferrail.Pricing.Bounds.{HasCheapCache, quantize_mono, cost_le}
use inferrail.Pricing.Resolver.{Catalogs, PricingResolver, resolve}
use inferrail.Budgets.Estimate.{prompt_token_estimate, estimate_at, estimate_upper_bound_usd}

-- the long-context rates are at least the base rates
abbrev pub TierIsNotCheaper : PriceEntry → Option LongContextPrice → Type 0
TierIsNotCheaper p none = Unit
TierIsNotCheaper p (some t) =
    (p.input_usd_per_million ≤ t.input_usd_per_million)
    × (p.output_usd_per_million ≤ t.output_usd_per_million)

rates_mono :
    (p : PriceEntry) (tier : Option LongContextPrice) (n m : ℕ)
    → TierIsNotCheaper p tier
    → n ≤ m
    → ((rates_for n p tier).input_usd_per_million ≤ (rates_for m p tier).input_usd_per_million)
      × ((rates_for n p tier).output_usd_per_million ≤ (rates_for m p tier).output_usd_per_million)
unfolding rates_for
rates_mono p none n m t h = (omega arith, omega arith)
rates_mono p (some tier) n m t h = (ground arith, ground arith)

cost_mono :
    (p : PriceEntry) (prompt tokens completion max : ℕ)
    → TierIsNotCheaper p p.long_context
    → prompt ≤ tokens
    → completion ≤ max
    → calculate_cost_usd prompt completion p
      ≤ quantize (flat_cost tokens max (for_input_tokens p tokens))
unfolding calculate_cost_usd for_input_tokens
cost_mono p prompt tokens completion max t h k =
    let rates = rates_mono p p.long_context prompt tokens t h in
    let low = for_input_tokens p prompt in
    let high = for_input_tokens p tokens in
    quantize_mono (flat_cost prompt completion low) (flat_cost tokens max high) (
      omega (
        arith,
        mul_mono prompt tokens low.input_usd_per_million high.input_usd_per_million h rates.0,
        mul_mono completion max low.output_usd_per_million high.output_usd_per_million k rates.1,
      ))

covers_at :
    (o : Option PriceEntry) (p : PriceEntry) (chars prompt completion max estimate cost : ℕ)
    → o ≡ some p
    → calculate_cost_usd prompt completion p
      ≤ quantize (
          flat_cost
            (prompt_token_estimate chars)
            max
            (for_input_tokens p (prompt_token_estimate chars)))
    → cost ≤ calculate_cost_usd prompt completion p
    → estimate_at chars max o ≡ some estimate
    → cost ≤ estimate
unfolding estimate_at
covers_at none p chars prompt completion max estimate cost priced bound c h =
    absurd (ground (arith, priced))
covers_at (some q) p chars prompt completion max estimate cost priced bound c h =
    let tokens = prompt_token_estimate chars in
    let charged : quantize (flat_cost tokens max (for_input_tokens p tokens)) ≡ estimate =
      ap (λ x. quantize (flat_cost tokens max (for_input_tokens x tokens)))
        (sym (of_some q p priced))
      ∙ of_some (quantize (flat_cost tokens max (for_input_tokens q tokens))) estimate h in
    omega (arith, bound, c, charged)

-- The estimate of a request is at least its actual cost, when the provider counts no more prompt
-- tokens than a third of the characters, rounded up, and no more completion tokens than the maximum,
-- and the price has no long-context tier that is cheaper than its base and, at the rates that apply,
-- no cache rate above the input rate.
pub estimate_covers :
    (catalogs : Catalogs) (resolver : PricingResolver) (provider model : String) (p : PriceEntry)
    (chars max prompt completion : ℕ) (cache : Option CacheTokens) (estimate cost : ℕ)
    → resolve catalogs resolver provider model ≡ some p
    → TierIsNotCheaper p p.long_context
    → HasCheapCache (for_input_tokens p prompt)
    → prompt ≤ prompt_token_estimate chars
    → completion ≤ max
    → calculate_cost_with_cache_usd prompt completion p cache ≡ some cost
    → estimate_upper_bound_usd catalogs resolver provider model chars max ≡ some estimate
    → cost ≤ estimate
unfolding estimate_upper_bound_usd
estimate_covers cs r provider model p chars max prompt completion cache estimate cost priced tier
      cheap few short actual h =
    covers_at (resolve cs r provider model) p chars prompt completion max estimate cost priced
      (cost_mono p prompt (prompt_token_estimate chars) completion max tier few short)
      (cost_le prompt completion p cache cost cheap actual) h
