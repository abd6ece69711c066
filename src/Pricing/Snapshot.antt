-- ===== src/Pricing/Snapshot.antt =====
-- A receipt embeds the flat price that was used. These lemmas let it be audited from that alone.
use inferrail.Common.{ℕ, ◌≡◌, refl, Option, none, some, arith}
use inferrail.Pricing.Price.{PriceEntry, LongContextPrice, for_input_tokens, rates_for}
use inferrail.Pricing.Cost.{CacheTokens, calculate_cost_usd, calculate_cost_with_cache_usd}

rates_for_flat :
    (n m : ℕ) (p : PriceEntry) (tier : Option LongContextPrice)
    → p.long_context ≡ tier
    → for_input_tokens (rates_for n p tier) m ≡ rates_for n p tier
unfolding for_input_tokens rates_for
rates_for_flat n m p none h = rw h refl
rates_for_flat n m p (some tier) h = ground arith

rates_for_is_flat :
    (n : ℕ) (p : PriceEntry) (tier : Option LongContextPrice)
    → p.long_context ≡ tier
    → (rates_for n p tier).long_context ≡ none
unfolding rates_for
rates_for_is_flat n p none h = h
rates_for_is_flat n p (some tier) h = ground arith

pub for_input_tokens_is_flat : (p : PriceEntry) (n : ℕ) → (for_input_tokens p n).long_context ≡ none
unfolding for_input_tokens
for_input_tokens_is_flat p n = rates_for_is_flat n p p.long_context refl

-- the rates chosen for a request are chosen again from the flat price
pub for_input_tokens_twice :
    (p : PriceEntry) (n m : ℕ) → for_input_tokens (for_input_tokens p n) m ≡ for_input_tokens p n
unfolding for_input_tokens
for_input_tokens_twice p n m = rates_for_flat n m p p.long_context refl

pub cost_of_snapshot :
    (prompt completion : ℕ) (p : PriceEntry) (cache : Option CacheTokens)
    → calculate_cost_with_cache_usd prompt completion (for_input_tokens p prompt) cache
      ≡ calculate_cost_with_cache_usd prompt completion p cache
unfolding calculate_cost_with_cache_usd calculate_cost_usd
cost_of_snapshot prompt completion p none = rw (for_input_tokens_twice p prompt prompt) refl
cost_of_snapshot prompt completion p (some c) = rw (for_input_tokens_twice p prompt prompt) refl
