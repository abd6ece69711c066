-- ===== src/Gateway/AnthropicTests.antt =====
-- Messages API requests through the gateway, and their theorem at one.
use inferrail.Common.{
  ℕ, zero, suc, ◌≤◌, ◌≡◌, refl, [], ◌∷◌, ◌++◌, none, some, same_text, if◌then◌else◌, arith,
}
use inferrail.Common.Int.{pos, ◌+ℤ◌}
use inferrail.Common.Json.{Json, text, integer, object, field, no_fields, get_field}
use inferrail.Pricing.Usage.{nonneg_int, read_breakdown, parse_anthropic_cache_usage}
use inferrail.Errors.{provider_error, provider_timeout}
use inferrail.Gateway.Samples.{engine, moments, job, state, stores}
use inferrail.Gateway.Settlement.{active_sum}
use inferrail.Gateway.Sse.{
  Bytes, Loaded, value, malformed, replace_crlf, split_event, lines, strip, after_prefix,
  same_bytes, handle_events, feed_by,
}
use inferrail.Gateway.Stream.{Outside, stream_chunks, StreamAnswer, opens, refuses, completes}
use inferrail.Gateway.AnthropicUsage.{
  MessageUsage, total_input_tokens, take_input_usage, take_output_usage, take_message,
  take_message_data, take_message_lines, handle_message_event, new_message_bookkeeper, prompt_of,
}
use inferrail.Gateway.Anthropic.{MessageAnswer, replied, failed, execute_messages, stream_messages}
use inferrail.Gateway.Anthropic.Settles.{MessageIsTaken, StreamIsTaken, messages_settle}
use inferrail.Gateway.Counts.{whole, count_of, count_of_int, whole_counts}

-- the payloads `s`, the start of a message with 3 tokens and 2 from a cache, and `d`, its end with 4
abbrev start_object : Json
start_object = object (
    field "type" (text "message_start") (
      field "message"
        (object (
          field "usage"
            (object (
              field "input_tokens" (integer (pos 3))
                (field "cache_read_input_tokens" (integer (pos 2)) no_fields)))
            no_fields))
        no_fields))

abbrev delta_object : Json
delta_object = object (
    field "type" (text "message_delta")
      (field "usage" (object (field "output_tokens" (integer (pos 4)) no_fields)) no_fields))

abbrev loads : Bytes → Loaded
loads bs =
    if same_bytes bs (115 ∷ [])
    then value start_object
    else if same_bytes bs (100 ∷ [])
    then value delta_object
    else malformed

abbrev data_event : ℕ → Bytes
data_event payload = 100 ∷ 97 ∷ 116 ∷ 97 ∷ 58 ∷ payload ∷ 10 ∷ 10 ∷ []

abbrev read_usage : MessageUsage
read_usage =
    (feed_by (handle_message_event loads) new_message_bookkeeper
      (data_event 115 ++ data_event 100)).usage

computing : Unit {0}
unfolding ◌+ℤ◌ same_bytes replace_crlf split_event lines strip after_prefix handle_events feed_by
    get_field nonneg_int read_breakdown parse_anthropic_cache_usage total_input_tokens
    take_input_usage take_output_usage take_message take_message_data take_message_lines
    handle_message_event same_text count_of count_of_int whole_counts stream_chunks
computing = tt

input_is_total : prompt_of read_usage ≡ whole 5
unfolding computing
input_is_total = refl

output_is_last : read_usage.completion_tokens ≡ whole 4
unfolding computing
output_is_last = refl

-- the first attempt times out, the second is answered
abbrev answers : ℕ → MessageAnswer
answers zero = failed (provider_error provider_timeout none none)
answers (suc n) =
    replied
      record { input_tokens = some (pos 3); output_tokens = some (pos 4); cache_usage = no_fields }

abbrev streams : ℕ → StreamAnswer
streams zero = refuses (provider_error provider_timeout none none)
streams (suc n) = opens (data_event 115 ∷ data_event 100 ∷ []) completes

abbrev io : Outside
io = record { loads = loads; odd_receipt = λ n status p c cache g. none }

answer_taken : (n : ℕ) → MessageIsTaken io (answers n)
unfolding computing
answer_taken zero = tt
answer_taken (suc n) = λ q. absurd (ground (arith, q))

stream_taken : (n : ℕ) → StreamIsTaken io (streams n)
unfolding computing
stream_taken zero = tt
stream_taken (suc n) = λ q. absurd (ground (arith, q))

messages_settle_example :
    (active_sum
        (λ r. r.amount_usd)
        ((execute_messages io engine moments job answers state stores).1).budgets
      ≤ active_sum (λ r. r.amount_usd) stores.budgets)
    × (active_sum
          (λ r. r.amount_usd)
          ((stream_messages io engine moments job streams state stores).1).budgets
        ≤ active_sum (λ r. r.amount_usd) stores.budgets)
messages_settle_example =
    messages_settle (λ r. r.amount_usd) io engine moments job answers streams state stores
      answer_taken stream_taken
