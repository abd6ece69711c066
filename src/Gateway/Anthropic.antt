-- ===== src/Gateway/Anthropic.antt =====
-- The Messages API path: src/inferrail/gateway/anthropic_execution.py. The two retry loops of the source, which are the same but
-- for what the provider is asked, are one with an argument.
pub mod Settles
use inferrail.Common.{
  ℕ, zero, suc, ◌+◌, String, Bool, true, false, ◌||◌, List, [], ◌∷◌, Option, none, some, is_some,
  if◌then◌else◌, same_text,
}
use inferrail.Common.Json.{Json, boolean, integer, text, object, Fields, get_field}
use inferrail.Errors.{Exception}
use inferrail.Receipts.Schema.{InferenceReceipt, Status, success}
use inferrail.Receipts.Build.{build_receipt}
use inferrail.Pricing.Cost.{CacheTokens, cache_total}
use inferrail.Pricing.Usage.{nonneg_int, parse_anthropic_cache_usage}
use inferrail.Budgets.Store.{Reservation}
use inferrail.Budgets.Enforcer.{Refusal, Admission, admitted, refused}
use inferrail.Gateway.Admission.{
  Engine, Stores, BudgetState, Moment, Job, admit, settle_failed_attempt, settle_and_emit_receipt,
}
use inferrail.Gateway.Execution.{
  Reply, Outcome, responded, stopped, raised, augment_if_enabled, is_ours, Retry, retry_or_give_up,
  assertion_error,
}
use inferrail.Common.Int.{ℤ, pos, ◌+ℤ◌}
use inferrail.Gateway.Counts.{Count, missing, count_of, count_of_int, whole_counts, receipt_or}
use inferrail.Gateway.Sse.{
  Bytes, Loaded, value, malformed, undecodable, Bookkeeper, lines, after_prefix, strip, data_prefix,
  is_empty, feed_by,
}
use inferrail.Gateway.Stream.{
  StreamEnd, completes, disconnects, fails, StreamAnswer, opens, refuses, Streamed, stream_chunks,
  stream_status, skip_empty, Outside, emit_or_raise, stream_outcome, no_counts,
}
use inferrail.Gateway.AnthropicUsage.{
  MessageUsage, total_input_tokens, take_input_usage, take_output_usage, take_message,
  take_message_data, take_message_lines, handle_message_event, new_message_bookkeeper, prompt_of,
}

-- the two counts that an overrun is told
abbrev pub counts : Option ℕ → Option ℕ → Reply
counts prompt completion = record no_counts {
  prompt_tokens = prompt;
  completion_tokens = completion;
}

-- the counts of an AnthropicNormalizedResponse, with its `cache_usage or {}`
pub record MessageReply : Type 0 where
  pub input_tokens : Option ℤ
  pub output_tokens : Option ℤ
  pub cache_usage : Fields

pub data MessageAnswer : Type 0 where
  replied : MessageReply → MessageAnswer
  failed : Exception → MessageAnswer

-- The receipt of an answer, a stream's or not; the caches' price is not asked for first.
unfoldable pub message_receipt :
    Engine
    → Moment
    → Job
    → ℕ
    → Status
    → Option ℕ
    → Option ℕ
    → Option CacheTokens
    → Stores
    → InferenceReceipt
unfolding build_receipt
message_receipt e m job attempt status prompt completion cache g =
    build_receipt m.ended_at e.catalogs e.resolver record {
      receipt_id = m.receipt_id;
      request_id = job.request_id;
      route = job.decision.route_name;
      provider = job.decision.provider_name;
      model = job.decision.model;
      status = status;
      prompt_tokens = prompt;
      completion_tokens = completion;
      attributes = augment_if_enabled e e.budgets m job (counts prompt completion) cache g;
      total_latency_us = m.latency_us;
      retry_count = attempt;
      cache = cache;
    }

-- The event, the receipt and the settlement of an answer.
unfoldable pub settle_message :
    Outside
    → Engine
    → Moment
    → Job
    → ℕ
    → Status
    → Count
    → Count
    → Option CacheTokens
    → Outcome
    → Option Reservation
    → BudgetState
    → Stores
    → Outcome × Stores
unfolding message_receipt settle_and_emit_receipt whole_counts
settle_message o e m job attempt status prompt completion cache outcome r b g =
    emit_or_raise e outcome r b g (
      receipt_or (whole_counts prompt completion)
        (λ p c. message_receipt e m job attempt status p c cache g)
        (o.odd_receipt attempt status prompt completion cache g))

-- the usage of the response: the counts as the provider gives them, where they are not negative
abbrev pub told : Option (Option ℕ × Option ℕ) → Reply
told (some (p, c)) = counts p c
told none = no_counts

unfoldable pub respond_message :
    Outside
    → Engine
    → Moment
    → Job
    → ℕ
    → MessageReply
    → Option Reservation
    → BudgetState
    → Stores
    → Outcome × Stores
unfolding settle_message total_input_tokens parse_anthropic_cache_usage count_of_int whole_counts
respond_message o e m job attempt reply r b g =
    let cache = parse_anthropic_cache_usage reply.cache_usage in
    settle_message o e m job attempt success
      (count_of_int (total_input_tokens reply.input_tokens cache))
      (count_of_int reply.output_tokens) cache
      (responded
        (told (whole_counts (count_of_int reply.input_tokens) (count_of_int reply.output_tokens)))
        attempt)
      r b g

-- what an admitted attempt does, from its number, whether it is the last, and the next attempt
abbrev pub Attempting : Type 0
Attempting = ℕ → Bool → Retry → Option Reservation → BudgetState → Stores → Outcome × Stores

unfoldable pub after_message :
    Outside
    → Engine
    → Moment
    → Job
    → ℕ
    → Bool
    → Retry
    → Option Reservation
    → BudgetState
    → Stores
    → MessageAnswer
    → Outcome × Stores
unfolding respond_message settle_failed_attempt retry_or_give_up
after_message o e m job attempt is_last retry r b g (replied reply) =
    respond_message o e m job attempt reply r b g
after_message o e m job attempt is_last retry r b g (failed exc) =
    retry_or_give_up e m job attempt exc is_last retry (settle_failed_attempt r exc b g)

abbrev pub complete_message :
    Outside → Engine → (ℕ → Moment) → Job → (ℕ → MessageAnswer) → Attempting
complete_message o e moments job answers attempt is_last retry r b g =
    after_message o e (moments attempt) job attempt is_last retry r b g (answers attempt)

-- the bookkeeper after a stream
abbrev pub message_streamed : (Bytes → Loaded) → List Bytes → StreamEnd → Streamed MessageUsage
message_streamed loads chunks end =
    stream_chunks (feed_by (handle_message_event loads)) (λ u. u.is_broken) new_message_bookkeeper 0
      (skip_empty chunks) end

unfoldable pub iter_message_stream :
    Outside
    → Engine
    → Moment
    → Job
    → ℕ
    → List Bytes
    → StreamEnd
    → Option Reservation
    → BudgetState
    → Stores
    → Outcome × Stores
unfolding stream_chunks feed_by handle_message_event stream_status settle_message total_input_tokens
    count_of_int
iter_message_stream o e m job attempt chunks end r b g =
    let s = message_streamed o.loads chunks end in
    let u = s.bookkeeper.usage in
    settle_message o e m job attempt (stream_status s.ended s.chunks_yielded) (prompt_of u)
      u.completion_tokens u.cache (stream_outcome attempt s.ended) r b g

unfoldable pub after_message_stream :
    Outside
    → Engine
    → Moment
    → Job
    → ℕ
    → Bool
    → Retry
    → Option Reservation
    → BudgetState
    → Stores
    → StreamAnswer
    → Outcome × Stores
unfolding iter_message_stream settle_failed_attempt retry_or_give_up
after_message_stream o e m job attempt is_last retry r b g (opens chunks end) =
    iter_message_stream o e m job attempt chunks end r b g
after_message_stream o e m job attempt is_last retry r b g (refuses exc) =
    retry_or_give_up e m job attempt exc is_last retry (settle_failed_attempt r exc b g)

abbrev pub stream_message : Outside → Engine → (ℕ → Moment) → Job → (ℕ → StreamAnswer) → Attempting
stream_message o e moments job answers attempt is_last retry r b g =
    after_message_stream o e (moments attempt) job attempt is_last retry r b g (answers attempt)

abbrev pub when_admitted :
    (Option Reservation → Stores → Outcome × Stores) → Admission × Stores → Outcome × Stores
when_admitted asks (refused why, g) = (stopped why, g)
when_admitted asks (admitted r, g) = asks r g

module _ (e : Engine) (moments : ℕ → Moment) (job : Job) (asks : Attempting) where
  -- the attempts from number `attempt` on, when `left` more may follow it
  unfoldable pub message_loop : ℕ → ℕ → Retry
  unfolding admit
  message_loop zero attempt b g =
      when_admitted (λ r h. asks attempt true assertion_error r b h)
        (admit e (moments attempt) job attempt b g)
  message_loop (suc left) attempt b g =
      let next = message_loop left (suc attempt) in
      when_admitted (λ r h. asks attempt false next r b h)
        (admit e (moments attempt) job attempt b g)

unfoldable pub execute_messages :
    Outside → Engine → (ℕ → Moment) → Job → (ℕ → MessageAnswer) → Retry
unfolding message_loop after_message
execute_messages o e moments job answers =
    message_loop e moments job (complete_message o e moments job answers) job.decision.max_retries 0

unfoldable pub stream_messages : Outside → Engine → (ℕ → Moment) → Job → (ℕ → StreamAnswer) → Retry
unfolding message_loop after_message_stream
stream_messages o e moments job answers =
    message_loop e moments job (stream_message o e moments job answers) job.decision.max_retries 0
