-- ===== src/Pricing/Cost.antt =====
-- The cost of a request: src/inferrail/receipts/calculator.py. A cost is a number of 10⁻¹² dollars,
-- so the product of tokens and a rate is exact; the result is rounded to six places, half up.
use inferrail.Common.{
  ℕ, zero, suc, ◌+◌, ◌-◌, ◌*◌, ◌/◌, ◌^◌, Bool, true, false, not, Option, none, some, if◌then◌else◌,
  ltb, ◌==◌,
}
use inferrail.Pricing.Price.{PriceEntry, for_input_tokens}

-- `_QUANTUM`, a millionth of a dollar
abbrev pub quantum : ℕ
quantum = 10 ^ 6

unfoldable pub quantize : ℕ → ℕ
quantize x = (x + quantum / 2) / quantum * quantum

abbrev pub flat_cost : ℕ → ℕ → PriceEntry → ℕ
flat_cost prompt_tokens completion_tokens p =
    prompt_tokens * p.input_usd_per_million + completion_tokens * p.output_usd_per_million

unfoldable pub calculate_cost_usd : ℕ → ℕ → PriceEntry → ℕ
unfolding quantize
calculate_cost_usd prompt_tokens completion_tokens p =
    quantize (flat_cost prompt_tokens completion_tokens (for_input_tokens p prompt_tokens))

pub record CacheTokens : Type 0 where
  pub creation : ℕ
  pub creation_5m : Option ℕ
  pub creation_1h : Option ℕ
  pub read : ℕ

abbrev pub cache_total : CacheTokens → ℕ
cache_total c = c.creation + c.read

abbrev pub split_sums_to : ℕ → Option ℕ → Option ℕ → Bool
split_sums_to n (some a) (some b) = a + b == n
split_sums_to n _ _ = false

unfoldable pub creation_split_known : CacheTokens → Bool
creation_split_known c =
    if c.creation == 0 then true else split_sums_to c.creation c.creation_5m c.creation_1h

-- `value or 0`
abbrev pub or_zero : Option ℕ → ℕ
or_zero none = 0
or_zero (some n) = n

-- tokens at a rate that is only needed when there are tokens
unfoldable pub charge : ℕ → Option ℕ → Option ℕ
charge zero rate = some 0
charge (suc n) none = none
charge (suc n) (some rate) = some (suc n * rate)

abbrev pub add? : Option ℕ → Option ℕ → Option ℕ
add? (some a) (some b) = some (a + b)
add? _ _ = none

unfoldable pub charge_creation : CacheTokens → PriceEntry → Option ℕ
unfolding creation_split_known charge
charge_creation c p =
    if c.creation == 0
    then some 0
    else if not (creation_split_known c)
    then none
    else add? (charge (or_zero c.creation_5m) p.cache_write_5m_usd_per_million)
        (charge (or_zero c.creation_1h) p.cache_write_1h_usd_per_million)

unfoldable pub quantize? : Option ℕ → Option ℕ
unfolding quantize
quantize? none = none
quantize? (some x) = some (quantize x)

-- the part of the calculation that has cache tokens to price, at flat rates
unfoldable pub cost_of_cached : ℕ → ℕ → PriceEntry → CacheTokens → Option ℕ
unfolding charge charge_creation quantize?
cost_of_cached prompt_tokens completion_tokens p c =
    if ltb prompt_tokens (cache_total c)
    then none
    else quantize? (
        add? (some (flat_cost (prompt_tokens - cache_total c) completion_tokens p))
          (add? (charge c.read p.cache_read_usd_per_million) (charge_creation c p)))

unfoldable pub calculate_cost_with_cache_usd : ℕ → ℕ → PriceEntry → Option CacheTokens → Option ℕ
unfolding cost_of_cached calculate_cost_usd
calculate_cost_with_cache_usd prompt_tokens completion_tokens p none =
    some (calculate_cost_usd prompt_tokens completion_tokens p)
calculate_cost_with_cache_usd prompt_tokens completion_tokens p (some c) =
    if cache_total c == 0
    then some (calculate_cost_usd prompt_tokens completion_tokens p)
    else cost_of_cached prompt_tokens completion_tokens (for_input_tokens p prompt_tokens) c
