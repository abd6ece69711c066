-- ===== src/Pricing/Price.antt =====
-- The price of a model: PriceEntry and LongContextPrice of src/inferrail/config/models.py. A rate of
-- USD per million tokens is a number of 10⁻¹² dollars per token.
use inferrail.Common.{
  ℕ, String, Bool, true, not, ◌&&◌, ◌||◌, Option, none, some, if◌then◌else◌, ltb, leb, is_some,
}

pub record LongContextPrice : Type 0 where
  pub above_input_tokens : ℕ
  pub input_usd_per_million : ℕ
  pub output_usd_per_million : ℕ
  pub cache_read_usd_per_million : Option ℕ

pub record PriceEntry : Type 0 where
  pub input_usd_per_million : ℕ
  pub output_usd_per_million : ℕ
  pub source : String
  pub verified_date : ℕ
  pub cache_write_5m_usd_per_million : Option ℕ
  pub cache_write_1h_usd_per_million : Option ℕ
  pub cache_read_usd_per_million : Option ℕ
  pub long_context : Option LongContextPrice

-- `Field(gt=0)` on an optional rate
abbrev pub is_positive? : Option ℕ → Bool
is_positive? none = true
is_positive? (some rate) = ltb 0 rate

unfoldable pub tier_fields_are_valid : LongContextPrice → Bool
tier_fields_are_valid t =
    ltb 0 t.above_input_tokens
    && ltb 0 t.input_usd_per_million
    && ltb 0 t.output_usd_per_million
    && is_positive? t.cache_read_usd_per_million

-- A write rate counts as present by its truth value, which for a positive decimal is `is not None`.
unfoldable pub long_context_rates_are_complete : PriceEntry → Option LongContextPrice → Bool
long_context_rates_are_complete p none = true
long_context_rates_are_complete p (some tier) =
    not (is_some p.cache_write_5m_usd_per_million || is_some p.cache_write_1h_usd_per_million)
    && (if is_some p.cache_read_usd_per_million
        then is_some tier.cache_read_usd_per_million
        else not (is_some tier.cache_read_usd_per_million))

abbrev pub tier_is_valid? : Option LongContextPrice → Bool
tier_is_valid? none = true
tier_is_valid? (some t) = tier_fields_are_valid t

-- Whether the model accepts the values; where it does not, the constructor raises.
unfoldable pub price_is_valid : PriceEntry → Bool
unfolding tier_fields_are_valid long_context_rates_are_complete
price_is_valid p =
    ltb 0 p.input_usd_per_million
    && ltb 0 p.output_usd_per_million
    && is_positive? p.cache_write_5m_usd_per_million
    && is_positive? p.cache_write_1h_usd_per_million
    && is_positive? p.cache_read_usd_per_million
    && tier_is_valid? p.long_context
    && long_context_rates_are_complete p p.long_context

unfoldable pub rates_for : ℕ → PriceEntry → Option LongContextPrice → PriceEntry
rates_for input_tokens p none = p
rates_for input_tokens p (some tier) =
    if leb input_tokens tier.above_input_tokens
    then record p { long_context = none }
    else record p {
      input_usd_per_million = tier.input_usd_per_million;
      output_usd_per_million = tier.output_usd_per_million;
      cache_read_usd_per_million = tier.cache_read_usd_per_million;
      long_context = none;
    }

unfoldable pub for_input_tokens : PriceEntry → ℕ → PriceEntry
unfolding rates_for
for_input_tokens p input_tokens = rates_for input_tokens p p.long_context
