-- ===== src/Pricing/Usage.antt =====
-- The cache fields of a provider's usage object: parse_anthropic_cache_usage of
-- src/inferrail/receipts/calculator.py.
use inferrail.Common.{ℕ, not, ◌&&◌, Option, none, some, if◌then◌else◌, is_some}
use inferrail.Common.Int.{pos}
use inferrail.Common.Json.{Json, Fields, get_field}
use inferrail.Pricing.Cost.{CacheTokens, or_zero}

-- A Python `bool` is an `int` too, and is left out.
unfoldable pub nonneg_int : Option Json → Option ℕ
nonneg_int (some (Json.integer (pos n))) = some n
nonneg_int _ = none

-- a half of the breakdown that is missing beside one that is there counts as zero
abbrev pub complete : Option ℕ → Option ℕ → Option ℕ
complete (some n) other = some n
complete none (some _) = some 0
complete none none = none

unfoldable pub read_breakdown : Option Json → Option ℕ × Option ℕ
unfolding nonneg_int
read_breakdown (some (Json.object breakdown)) =
    let m5 = nonneg_int (get_field "ephemeral_5m_input_tokens" breakdown) in
    let h1 = nonneg_int (get_field "ephemeral_1h_input_tokens" breakdown) in
    (complete m5 h1, complete h1 m5)
read_breakdown _ = (none, none)

unfoldable pub parse_anthropic_cache_usage : Fields → Option CacheTokens
unfolding nonneg_int read_breakdown
parse_anthropic_cache_usage usage =
    let creation = get_field "cache_creation_input_tokens" usage in
    let read = get_field "cache_read_input_tokens" usage in
    let split = read_breakdown (get_field "cache_creation" usage) in
    if not (is_some creation) && not (is_some read)
    then none
    else some record {
      creation = or_zero (nonneg_int creation);
      creation_5m = split.0;
      creation_1h = split.1;
      read = or_zero (nonneg_int read);
    }
