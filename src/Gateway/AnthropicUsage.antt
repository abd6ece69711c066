-- ===== src/Gateway/AnthropicUsage.antt =====
-- Reading the usage of a Messages API stream: _AnthropicSseBookkeeper of
-- src/inferrail/gateway/anthropic_execution.py.
use inferrail.Common.{
  Bool, true, false, List, [], ◌∷◌, Option, none, some, if◌then◌else◌, same_text,
}
use inferrail.Common.Json.{Json, boolean, integer, text, object, Fields, get_field}
use inferrail.Pricing.Cost.{CacheTokens, cache_total}
use inferrail.Pricing.Usage.{parse_anthropic_cache_usage}
use inferrail.Common.Int.{ℤ, pos, ◌+ℤ◌}
use inferrail.Gateway.Counts.{Count, missing, count_of, count_of_int}
use inferrail.Gateway.Sse.{
  Bytes, Loaded, value, malformed, undecodable, Bookkeeper, lines, after_prefix, strip, data_prefix,
  is_empty,
}

-- what the bookkeeper has read; `is_broken` is an exception on its way out
pub record MessageUsage : Type 0 where
  pub input_tokens : Option ℤ
  pub completion_tokens : Count
  pub cache : Option CacheTokens
  pub is_broken : Bool

unfoldable pub total_input_tokens : Option ℤ → Option CacheTokens → Option ℤ
total_input_tokens none cache = none
total_input_tokens (some n) none = some n
total_input_tokens (some n) (some c) = some (n +ℤ pos (cache_total c))

abbrev cache_or : Option CacheTokens → Option CacheTokens → Option CacheTokens
cache_or old none = old
cache_or old (some c) = some c

-- `value if isinstance(value, int) else None`, of a field that is there; a bool is an int
abbrev as_int : Json → Option ℤ
as_int (integer z) = some z
as_int (boolean true) = some (pos 1)
as_int (boolean false) = some (pos 0)
as_int _ = none

abbrev int_or : Option ℤ → Option Json → Option ℤ
int_or old none = old
int_or old (some v) = as_int v

abbrev count_or : Count → Option Json → Count
count_or old none = old
count_or old (some v) = count_of (some v)

unfoldable pub take_input_usage : MessageUsage → Fields → MessageUsage
unfolding get_field parse_anthropic_cache_usage
take_input_usage k usage = record k {
  input_tokens = int_or k.input_tokens (get_field "input_tokens" usage);
  cache = cache_or k.cache (parse_anthropic_cache_usage usage);
}

unfoldable pub take_output_usage : MessageUsage → Fields → MessageUsage
unfolding get_field count_of
take_output_usage k usage = record k {
  completion_tokens = count_or k.completion_tokens (get_field "output_tokens" usage);
}

abbrev with_object : MessageUsage → (Fields → MessageUsage) → Option Json → MessageUsage
with_object k f (some (object fs)) = f fs
with_object k f _ = k

unfoldable pub take_message : MessageUsage → Fields → Option Json → MessageUsage
unfolding take_input_usage take_output_usage get_field same_text
take_message k obj (some (text t)) =
    if same_text t "message_start"
    then with_object k
        (λ message. with_object k (λ u. take_input_usage k u) (get_field "usage" message))
        (get_field "message" obj)
    else if same_text t "message_delta"
    then with_object k (λ u. take_input_usage (take_output_usage k u) u) (get_field "usage" obj)
    else k
take_message k obj _ = k

unfoldable pub take_message_data : MessageUsage → Loaded → MessageUsage
unfolding take_message get_field
take_message_data k (value (object obj)) = take_message k obj (get_field "type" obj)
take_message_data k (value _) = k
take_message_data k malformed = k
take_message_data k undecodable = record k { is_broken = true }

module _ (loads : Bytes → Loaded) where
  abbrev take_payload : MessageUsage → Option Bytes → MessageUsage
  take_payload k none = k
  take_payload k (some raw) =
      let payload = strip raw in if is_empty payload then k else take_message_data k (loads payload)

  -- Once an exception is on its way nothing more is read.
  unfoldable pub take_message_lines : MessageUsage → List Bytes → MessageUsage
  unfolding take_message_data after_prefix strip
  take_message_lines k [] = k
  take_message_lines k (l ∷ ls) =
      let next = if k.is_broken then k else take_payload k (after_prefix data_prefix l) in
      take_message_lines next ls

  unfoldable pub handle_message_event : MessageUsage → Bytes → MessageUsage
  unfolding take_message_lines lines
  handle_message_event k event = take_message_lines k (lines event)

abbrev pub new_message_bookkeeper : Bookkeeper MessageUsage
new_message_bookkeeper = record {
  buffer = [];
  usage = record {
    input_tokens = none;
    completion_tokens = missing;
    cache = none;
    is_broken = false;
  };
}

-- `prompt_tokens`, as a count
abbrev pub prompt_of : MessageUsage → Count
prompt_of u = count_of_int (total_input_tokens u.input_tokens u.cache)
