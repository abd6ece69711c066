-- ===== src/Gateway/Execution.antt =====
-- The retry loop of a request that is not streamed: InferenceEngine._execute_with_retries of
-- src/inferrail/gateway/execution.py. What the provider answers to each attempt, and the times and
-- fresh ids of each attempt, are arguments.
use inferrail.Common.{
  ℕ, zero, suc, Bool, true, false, not, ◌||◌, Option, none, some, is_some, if◌then◌else◌, ltb,
}
use inferrail.Common.Dict.{Attributes}
use inferrail.Pricing.Price.{PriceEntry}
use inferrail.Pricing.Cost.{CacheTokens, or_zero}
use inferrail.Pricing.Resolver.{resolve}
use inferrail.Errors.{Exception, is_retryable}
use inferrail.Receipts.Schema.{InferenceReceipt, success}
use inferrail.Receipts.Build.{build_receipt}
use inferrail.Budgets.Store.{Reservation}
use inferrail.Budgets.Enforcer.{Enforcer, Refusal, Admission, admitted, refused}
use inferrail.Budgets.Overrun.{augment_overrun, with_held}
use inferrail.Gateway.Admission.{
  Engine, Stores, BudgetState, Moment, Job, admit, emit_failure, settle_failed_attempt,
  settle_and_emit_receipt,
}

-- The counts of a NormalizedChatResponse; its content is handed on unread.
pub record Reply : Type 0 where
  pub prompt_tokens : Option ℕ
  pub completion_tokens : Option ℕ
  pub cached_prompt_tokens : Option ℕ
  pub cache_write_prompt_tokens : Option ℕ

pub data Answer : Type 0 where
  replied : Reply → Answer
  failed : Exception → Answer

pub data Outcome : Type 0 where
  responded : Reply → (retry_count : ℕ) → Outcome
  stopped : Refusal → Outcome
  raised : Exception → Outcome

-- the truth value of an `int | None`
abbrev pub is_nonzero : Option ℕ → Bool
is_nonzero tokens = ltb 0 (or_zero tokens)

abbrev pub has_read_rate : Option PriceEntry → Bool
has_read_rate none = false
has_read_rate (some price) = is_some price.cache_read_usd_per_million

-- `_priced_cache`, given the price of the provider and the model
unfoldable pub priced_cache : Option PriceEntry → Option ℕ → Option ℕ → Option CacheTokens
priced_cache price cached written =
    if is_nonzero written
    then some record {
      creation = or_zero written;
      creation_5m = none;
      creation_1h = none;
      read = or_zero cached;
    }
    else if not (is_nonzero cached) || not (has_read_rate price)
    then none
    else some record { creation = 0; creation_5m = none; creation_1h = none; read = or_zero cached }

-- `_augment_overrun`
abbrev pub augment_if_enabled :
    Engine → Option Enforcer → Moment → Job → Reply → Option CacheTokens → Stores → Attributes
augment_if_enabled e none m job reply cache g = job.attributes
augment_if_enabled e (some f) m job reply cache g =
    augment_overrun e.usd_text f m.ended_at g.receipts g.budgets job.attributes
      job.decision.provider_name job.decision.model reply.prompt_tokens reply.completion_tokens
      cache

unfoldable pub success_receipt : Engine → Moment → Job → ℕ → Reply → Stores → InferenceReceipt
unfolding priced_cache augment_overrun build_receipt resolve
success_receipt e m job attempt reply g =
    let cache =
      priced_cache (resolve e.catalogs e.resolver job.decision.provider_name job.decision.model)
        reply.cached_prompt_tokens reply.cache_write_prompt_tokens in
    build_receipt m.ended_at e.catalogs e.resolver record {
      receipt_id = m.receipt_id;
      request_id = job.request_id;
      route = job.decision.route_name;
      provider = job.decision.provider_name;
      model = job.decision.model;
      status = success;
      prompt_tokens = reply.prompt_tokens;
      completion_tokens = reply.completion_tokens;
      attributes = augment_if_enabled e e.budgets m job reply cache g;
      total_latency_us = m.latency_us;
      retry_count = attempt;
      cache = cache;
    }

unfoldable pub respond :
    Engine → Moment → Job → ℕ → Reply → Option Reservation → BudgetState → Stores → Outcome × Stores
unfolding success_receipt settle_and_emit_receipt
respond e m job attempt reply r b g = (
  responded reply attempt,
  (settle_and_emit_receipt e (success_receipt e m job attempt reply g) r b g).1,
)

-- An exception that is no InferrailError passes through without a receipt.
abbrev pub is_ours : Exception → Bool
is_ours Exception.outside = false
is_ours _ = true

unfoldable pub give_up :
    Engine → Moment → Job → ℕ → Exception → BudgetState → Stores → Outcome × Stores
unfolding emit_failure with_held
give_up e m job attempt exc b g = (
  raised exc,
  if is_ours exc
      then emit_failure e m job attempt (with_held e.usd_text job.attributes b.held_usd) g
      else g,
)

-- What the next attempt does, from the state that this one leaves.
abbrev pub Retry : Type 0
Retry = BudgetState → Stores → Outcome × Stores

unfoldable pub retry_or_give_up :
    Engine → Moment → Job → ℕ → Exception → Bool → Retry → BudgetState × Stores → Outcome × Stores
unfolding give_up is_retryable
retry_or_give_up e m job attempt exc is_last retry (b, g) =
    if not (is_ours exc) || not (is_retryable exc) || is_last
    then give_up e m job attempt exc b g
    else retry b g

unfoldable pub after_answer :
    Engine
    → Moment
    → Job
    → ℕ
    → Bool
    → Retry
    → Option Reservation
    → BudgetState
    → Stores
    → Answer
    → Outcome × Stores
unfolding respond settle_failed_attempt retry_or_give_up
after_answer e m job attempt is_last retry r b g (replied reply) =
    respond e m job attempt reply r b g
after_answer e m job attempt is_last retry r b g (failed exc) =
    retry_or_give_up e m job attempt exc is_last retry (settle_failed_attempt r exc b g)

-- The provider is only asked once the attempt is admitted.
unfoldable pub after_admission :
    Engine
    → Moment
    → Job
    → ℕ
    → Bool
    → Retry
    → BudgetState
    → Answer
    → Admission × Stores
    → Outcome × Stores
unfolding after_answer
after_admission e m job attempt is_last retry b answer (refused why, g) = (stopped why, g)
after_admission e m job attempt is_last retry b answer (admitted r, g) =
    after_answer e m job attempt is_last retry r b g answer

-- The loop's end without a return or a raise, which the last attempt does not reach.
abbrev pub assertion_error : Retry
assertion_error b g = (raised Exception.outside, g)

module _ (e : Engine) (moments : ℕ → Moment) (answers : ℕ → Answer) (job : Job) where
  -- the attempts from number `attempt` on, when `left` more may follow it
  unfoldable pub attempt_loop : ℕ → ℕ → BudgetState → Stores → Outcome × Stores
  unfolding after_admission admit
  attempt_loop zero attempt b g =
      after_admission e (moments attempt) job attempt true assertion_error b (answers attempt)
        (admit e (moments attempt) job attempt b g)
  attempt_loop (suc left) attempt b g =
      after_admission e (moments attempt) job attempt false (attempt_loop left (suc attempt)) b
        (answers attempt) (admit e (moments attempt) job attempt b g)

  unfoldable pub execute_with_retries : BudgetState → Stores → Outcome × Stores
  unfolding attempt_loop
  execute_with_retries b g = attempt_loop job.decision.max_retries 0 b g
