-- ===== src/Gateway/Stream.antt =====
-- The streaming path: _open_stream_with_retries, _iter_stream and _emit_stream_outcome of
-- src/inferrail/gateway/execution.py. A stream that the provider opens is given as its chunks and how
-- they end; the client may leave at any chunk. Reading starts once the stream is open, and closing the
-- provider's generator does not raise.
pub mod Settles
use inferrail.Common.{
  ℕ, zero, suc, ◌+◌, Bool, true, false, not, ◌||◌, List, [], ◌∷◌, Option, none, some, is_some,
  if◌then◌else◌, ltb,
}
use inferrail.Errors.{Exception}
use inferrail.Receipts.Schema.{InferenceReceipt, Status, success, error, partial}
use inferrail.Receipts.Build.{build_receipt}
use inferrail.Pricing.Resolver.{resolve}
use inferrail.Budgets.Store.{Reservation}
use inferrail.Budgets.Enforcer.{Refusal, Admission, admitted, refused}
use inferrail.Budgets.Overrun.{augment_overrun}
use inferrail.Gateway.Admission.{
  Engine, Stores, BudgetState, Moment, Job, admit, settle_failed_attempt, settle_and_emit_receipt,
}
use inferrail.Gateway.Execution.{
  Reply, Outcome, responded, stopped, raised, priced_cache, augment_if_enabled, is_ours, Retry,
  retry_or_give_up, assertion_error,
}
use inferrail.Gateway.Counts.{OddReceipt, whole_counts, receipt_or}
use inferrail.Gateway.Sse.{Bytes, Loaded, Bookkeeper, StreamUsage, new_bookkeeper, feed}

-- `disconnects` is the client's GeneratorExit, `fails` what the provider's generator raises.
pub data StreamEnd : Type 0 where
  completes : StreamEnd
  disconnects : StreamEnd
  fails : Exception → StreamEnd

-- The provider's answer to an attempt: before the first chunk it may raise, and a stream without a
-- chunk is open all the same. The chunks are those that are read before the end.
pub data StreamAnswer : Type 0 where
  opens : List Bytes → StreamEnd → StreamAnswer
  refuses : Exception → StreamAnswer

-- what the loops over the chunks have done when they end
pub record Streamed (U : Type 0) : Type 0 where
  pub bookkeeper : Bookkeeper U
  pub chunks_yielded : ℕ
  pub ended : StreamEnd

-- A chunk that breaks the bookkeeper is not handed on, and ends the stream with that exception.
unfoldable pub stream_chunks :
    {U : Type 0}
    → (Bookkeeper U → Bytes → Bookkeeper U)
    → (U → Bool)
    → Bookkeeper U
    → ℕ
    → List Bytes
    → StreamEnd
    → Streamed U
stream_chunks feeds broken k n [] end = record { bookkeeper = k; chunks_yielded = n; ended = end }
stream_chunks feeds broken k n (c ∷ cs) end =
    let fed = feeds k c in
    let rest = stream_chunks feeds broken fed (suc n) cs end in
    if broken fed.usage
    then record { bookkeeper = fed; chunks_yielded = n; ended = fails Exception.outside }
    else rest

-- Only GeneratorExit and the program's own errors change the status: what else ends a stream, a
-- cancellation for one, leaves it at success.
unfoldable pub stream_status : StreamEnd → ℕ → Status
stream_status completes n = success
stream_status disconnects n = if ltb 0 n then partial else error
stream_status (fails exc) n = if is_ours exc then (if ltb 0 n then partial else error) else success

-- What is outside: `json.loads`, and what becomes of counts that are no whole numbers.
pub record Outside : Type 0 where
  pub loads : Bytes → Loaded
  pub odd_receipt : OddReceipt

abbrev pub reply_of : StreamUsage → Option ℕ → Option ℕ → Reply
reply_of u prompt completion = record {
  prompt_tokens = prompt;
  completion_tokens = completion;
  cached_prompt_tokens = u.cached_prompt_tokens;
  cache_write_prompt_tokens = u.cache_write_prompt_tokens;
}

unfoldable pub stream_receipt :
    Engine → Moment → Job → ℕ → Status → Reply → Stores → InferenceReceipt
unfolding priced_cache augment_overrun build_receipt resolve
stream_receipt e m job attempt status reply g =
    let cache =
      priced_cache (resolve e.catalogs e.resolver job.decision.provider_name job.decision.model)
        reply.cached_prompt_tokens reply.cache_write_prompt_tokens in
    build_receipt m.ended_at e.catalogs e.resolver record {
      receipt_id = m.receipt_id;
      request_id = job.request_id;
      route = job.decision.route_name;
      provider = job.decision.provider_name;
      model = job.decision.model;
      status = status;
      prompt_tokens = reply.prompt_tokens;
      completion_tokens = reply.completion_tokens;
      attributes = augment_if_enabled e e.budgets m job reply cache g;
      total_latency_us = m.latency_us;
      retry_count = attempt;
      cache = cache;
    }

-- The end of the `finally` block. What raises in it before the settlement takes the place of how the
-- stream ended, and leaves the stores as they are.
abbrev pub emit_or_raise :
    Engine
    → Outcome
    → Option Reservation
    → BudgetState
    → Stores
    → Option InferenceReceipt
    → Outcome × Stores
emit_or_raise e outcome r b g none = (raised Exception.outside, g)
emit_or_raise e outcome r b g (some receipt) =
    (outcome, (settle_and_emit_receipt e receipt r b g).1)

unfoldable pub emit_stream_outcome :
    Outside
    → Engine
    → Moment
    → Job
    → ℕ
    → Streamed StreamUsage
    → Outcome
    → Option Reservation
    → BudgetState
    → Stores
    → Outcome × Stores
unfolding stream_receipt stream_status settle_and_emit_receipt whole_counts priced_cache resolve
emit_stream_outcome o e m job attempt s outcome r b g =
    let u = s.bookkeeper.usage in
    let status = stream_status s.ended s.chunks_yielded in
    let cache =
      priced_cache (resolve e.catalogs e.resolver job.decision.provider_name job.decision.model)
        u.cached_prompt_tokens u.cache_write_prompt_tokens in
    emit_or_raise e outcome r b g (
      receipt_or (whole_counts u.prompt_tokens u.completion_tokens)
        (λ p c. stream_receipt e m job attempt status (reply_of u p c) g)
        (o.odd_receipt attempt status u.prompt_tokens u.completion_tokens cache g))

-- What the caller sees: an error of the program is swallowed, since the response has begun; any other
-- exception goes on. The counts are not told.
abbrev pub no_counts : Reply
no_counts = record {
  prompt_tokens = none;
  completion_tokens = none;
  cached_prompt_tokens = none;
  cache_write_prompt_tokens = none;
}

abbrev pub stream_outcome : ℕ → StreamEnd → Outcome
stream_outcome attempt (fails exc) = if is_ours exc then responded no_counts attempt else raised exc
stream_outcome attempt _ = responded no_counts attempt

-- A first chunk that is empty is passed over.
abbrev pub skip_empty : List Bytes → List Bytes
skip_empty ([] ∷ cs) = cs
skip_empty cs = cs

-- the bookkeeper after a stream
abbrev pub streamed : (Bytes → Loaded) → List Bytes → StreamEnd → Streamed StreamUsage
streamed loads chunks end =
    stream_chunks (feed loads) (λ u. u.is_broken) new_bookkeeper 0 (skip_empty chunks) end

unfoldable pub iter_stream :
    Outside
    → Engine
    → Moment
    → Job
    → ℕ
    → List Bytes
    → StreamEnd
    → Option Reservation
    → BudgetState
    → Stores
    → Outcome × Stores
unfolding stream_chunks feed emit_stream_outcome
iter_stream o e m job attempt chunks end r b g =
    let s = streamed o.loads chunks end in
    emit_stream_outcome o e m job attempt s (stream_outcome attempt s.ended) r b g

unfoldable pub after_stream_answer :
    Outside
    → Engine
    → Moment
    → Job
    → ℕ
    → Bool
    → Retry
    → Option Reservation
    → BudgetState
    → Stores
    → StreamAnswer
    → Outcome × Stores
unfolding iter_stream settle_failed_attempt retry_or_give_up
after_stream_answer o e m job attempt is_last retry r b g (opens chunks end) =
    iter_stream o e m job attempt chunks end r b g
after_stream_answer o e m job attempt is_last retry r b g (refuses exc) =
    retry_or_give_up e m job attempt exc is_last retry (settle_failed_attempt r exc b g)

unfoldable pub after_stream_admission :
    Outside
    → Engine
    → Moment
    → Job
    → ℕ
    → Bool
    → Retry
    → BudgetState
    → StreamAnswer
    → Admission × Stores
    → Outcome × Stores
unfolding after_stream_answer
after_stream_admission o e m job attempt is_last retry b answer (refused why, g) = (stopped why, g)
after_stream_admission o e m job attempt is_last retry b answer (admitted r, g) =
    after_stream_answer o e m job attempt is_last retry r b g answer

module _ (o : Outside) (e : Engine) (moments : ℕ → Moment) (answers : ℕ → StreamAnswer)
    (job : Job) where
  unfoldable pub stream_loop : ℕ → ℕ → BudgetState → Stores → Outcome × Stores
  unfolding after_stream_admission admit
  stream_loop zero attempt b g =
      after_stream_admission o e (moments attempt) job attempt true assertion_error b
        (answers attempt) (admit e (moments attempt) job attempt b g)
  stream_loop (suc left) attempt b g =
      after_stream_admission o e (moments attempt) job attempt false
        (stream_loop left (suc attempt)) b (answers attempt)
        (admit e (moments attempt) job attempt b g)

  unfoldable pub stream_with_retries : BudgetState → Stores → Outcome × Stores
  unfolding stream_loop
  stream_with_retries b g = stream_loop job.decision.max_retries 0 b g
