-- ===== src/Gateway/Anthropic/Settles.antt =====
-- A Messages API request that is over has settled its reservations:
-- src/inferrail/gateway/anthropic_execution.py.
use inferrail.Common.{
  ℕ, zero, suc, ◌≤◌, Bool, true, false, ◌≡◌, sym, ap, subst, inl, inr, Option, List, arith,
}
use inferrail.Common.Sorting.{sum_of}
use inferrail.Pricing.Usage.{parse_anthropic_cache_usage}
use inferrail.Receipts.Schema.{InferenceReceipt, Status, success}
use inferrail.Budgets.Store.{Reservation}
use inferrail.Budgets.Enforcer.{Admission}
use inferrail.Budgets.Run.Admitting.{with_row}
use inferrail.Gateway.Admission.{
  Engine, Stores, BudgetState, Moment, Job, admit, admit_by, settle_failed_attempt,
}
use inferrail.Gateway.Admitting.{Admits, admit_by-Admits}
use inferrail.Gateway.Execution.{Outcome, responded, Retry, assertion_error}
use inferrail.Gateway.Settlement.{active_part, active_sum, failed_settles, retried}
use inferrail.Pricing.Cost.{CacheTokens}
use inferrail.Gateway.Counts.{
  Count, count_of_int, whole_counts, receipt_or, receipt_or_there, IsTaken,
}
use inferrail.Gateway.Stream.Settles.{receipt_settles}
use inferrail.Gateway.Stream.{Outside, stream_outcome, StreamAnswer, opens, refuses, stream_status}
use inferrail.Gateway.AnthropicUsage.{prompt_of, total_input_tokens}
use inferrail.Gateway.Anthropic.{
  MessageAnswer, replied, failed, Attempting, when_admitted, message_loop, respond_message,
  message_receipt, after_message, complete_message, execute_messages, message_streamed,
  settle_message, told, iter_message_stream, after_message_stream, stream_message, stream_messages,
}

-- The counts of an answer are whole, or else taken as they are.
abbrev pub MessageIsTaken : Outside → MessageAnswer → Type 0
MessageIsTaken o (replied reply) =
    let cache = parse_anthropic_cache_usage reply.cache_usage in
    IsTaken o.odd_receipt (count_of_int (total_input_tokens reply.input_tokens cache))
      (count_of_int reply.output_tokens)
MessageIsTaken o (failed exc) = Unit

abbrev pub StreamIsTaken : Outside → StreamAnswer → Type 0
StreamIsTaken o (opens chunks end) =
    let u = (message_streamed o.loads chunks end).bookkeeper.usage in
    IsTaken o.odd_receipt (prompt_of u) u.completion_tokens
StreamIsTaken o (refuses exc) = Unit

module _ (f : Reservation → ℕ) where
  abbrev Settling : Retry → Type 0
  Settling retry =
      (b : BudgetState) (g : Stores) → active_sum f ((retry b g).1).budgets ≤ active_sum f g.budgets

  -- An admitted attempt leaves no more active than there was without its own row.
  abbrev AllSettle : Attempting → Type 0
  AllSettle asks =
      (attempt : ℕ) (is_last : Bool) (retry : Retry) (o : Option Reservation)
      (rs : List Reservation) (b : BudgetState) (g : Stores)
      → Settling retry
      → g.budgets.reservations ≡ with_row o rs
      → active_sum f ((asks attempt is_last retry o b g).1).budgets ≤ sum_of (active_part f) rs

  admitted_settles :
      (asks : Option Reservation → Stores → Outcome × Stores) (g : Stores)
      (out : Admission × Stores)
      → Admits g out
      → ((o : Option Reservation) (g2 : Stores)
          → g2.budgets.reservations ≡ with_row o g.budgets.reservations
          → active_sum f ((asks o g2).1).budgets ≤ active_sum f g.budgets)
      → active_sum f ((when_admitted asks out).1).budgets ≤ active_sum f g.budgets
  admitted_settles asks g out (inl (why, g2, e2, same)) h =
      subst (λ z. active_sum f ((when_admitted asks z).1).budgets ≤ active_sum f g.budgets) (sym e2)
        (omega (arith, ap (λ s. active_sum f s) same))
  admitted_settles asks g out (inr (o, g2, e2, rows)) h =
      subst (λ z. active_sum f ((when_admitted asks z).1).budgets ≤ active_sum f g.budgets) (sym e2)
        (h o g2 rows)

  loop_settles :
      (e : Engine) (moments : ℕ → Moment) (job : Job) (asks : Attempting) (left attempt : ℕ)
      → AllSettle asks
      → Settling (message_loop e moments job asks left attempt)
  unfolding message_loop admit
  loop_settles e moments job asks zero attempt h b g =
      admitted_settles (λ r g2. asks attempt true assertion_error r b g2) g
        (admit_by e (moments attempt) job attempt b e.budgets g)
        (admit_by-Admits e (moments attempt) job attempt b e.budgets g)
        (λ o g2 rows.
          h attempt true assertion_error o g.budgets.reservations b g2 (λ b3 g3. omega arith) rows)
  loop_settles e moments job asks (suc left) attempt h b g =
      let next = message_loop e moments job asks left (suc attempt) in
      admitted_settles (λ r g2. asks attempt false next r b g2) g
        (admit_by e (moments attempt) job attempt b e.budgets g)
        (admit_by-Admits e (moments attempt) job attempt b e.budgets g)
        (λ o g2 rows.
          h attempt false next o g.budgets.reservations b g2
            (loop_settles e moments job asks left (suc attempt) h) rows)

  settle_message-settles :
      (o : Outside) (e : Engine) (m : Moment) (job : Job) (attempt : ℕ) (status : Status)
      (prompt completion : Count) (cache : Option CacheTokens) (outcome : Outcome)
      (r : Option Reservation) (rs : List Reservation) (b : BudgetState) (g : Stores)
      → IsTaken o.odd_receipt prompt completion
      → g.budgets.reservations ≡ with_row r rs
      → active_sum f
          ((settle_message o e m job attempt status prompt completion cache outcome r b g).1
            ).budgets
        ≤ sum_of (active_part f) rs
  unfolding settle_message
  settle_message-settles o e m job attempt status prompt completion cache outcome r rs b g taken h =
      let of_whole : Option ℕ → Option ℕ → InferenceReceipt =
        λ p c. message_receipt e m job attempt status p c cache g in
      let of_odd = o.odd_receipt attempt status prompt completion cache g in
      receipt_settles f e outcome (receipt_or (whole_counts prompt completion) of_whole of_odd) r rs
        b g
        (receipt_or_there (whole_counts prompt completion) of_whole of_odd
          (λ q. taken q attempt status cache g))
        h

  message_answered :
      (o : Outside) (e : Engine) (m : Moment) (job : Job) (attempt : ℕ) (is_last : Bool)
      (retry : Retry) (r : Option Reservation) (rs : List Reservation) (b : BudgetState)
      (g : Stores) (answer : MessageAnswer)
      → MessageIsTaken o answer
      → Settling retry
      → g.budgets.reservations ≡ with_row r rs
      → active_sum f ((after_message o e m job attempt is_last retry r b g answer).1).budgets
        ≤ sum_of (active_part f) rs
  unfolding after_message respond_message
  message_answered o e m job attempt is_last retry r rs b g (replied reply) taken next h =
      let cache = parse_anthropic_cache_usage reply.cache_usage in
      settle_message-settles o e m job attempt success
        (count_of_int (total_input_tokens reply.input_tokens cache))
        (count_of_int reply.output_tokens) cache
        (responded
          (told (whole_counts (count_of_int reply.input_tokens) (count_of_int reply.output_tokens)))
          attempt)
        r rs b g taken h
  message_answered o e m job attempt is_last retry r rs b g (failed exc) taken next h =
      retried f e m job attempt exc is_last retry (sum_of (active_part f) rs)
        (settle_failed_attempt r exc b g) next (failed_settles f r rs exc b g h)

  stream_answered :
      (o : Outside) (e : Engine) (m : Moment) (job : Job) (attempt : ℕ) (is_last : Bool)
      (retry : Retry) (r : Option Reservation) (rs : List Reservation) (b : BudgetState)
      (g : Stores) (answer : StreamAnswer)
      → StreamIsTaken o answer
      → Settling retry
      → g.budgets.reservations ≡ with_row r rs
      → active_sum f ((after_message_stream o e m job attempt is_last retry r b g answer).1).budgets
        ≤ sum_of (active_part f) rs
  unfolding after_message_stream iter_message_stream
  stream_answered o e m job attempt is_last retry r rs b g (opens chunks end) taken next h =
      let s = message_streamed o.loads chunks end in
      let u = s.bookkeeper.usage in
      settle_message-settles o e m job attempt (stream_status s.ended s.chunks_yielded)
        (prompt_of u) u.completion_tokens u.cache (stream_outcome attempt s.ended) r rs b g taken h
  stream_answered o e m job attempt is_last retry r rs b g (refuses exc) taken next h =
      retried f e m job attempt exc is_last retry (sum_of (active_part f) rs)
        (settle_failed_attempt r exc b g) next (failed_settles f r rs exc b g h)

-- However the provider answers, a Messages API request that is over leaves no reservation of its own
-- active, be it answered at once or as a stream that is read to its end, provided that the token
-- counts of its usage are whole numbers or missing, or else that the event and the receipt take
-- them: by any measure of reservations, what is active afterwards is at most what was active before.
pub messages_settle :
    (f : Reservation → ℕ) (o : Outside) (e : Engine) (moments : ℕ → Moment) (job : Job)
    (answers : ℕ → MessageAnswer) (streams : ℕ → StreamAnswer) (b : BudgetState) (g : Stores)
    → ((n : ℕ) → MessageIsTaken o (answers n))
    → ((n : ℕ) → StreamIsTaken o (streams n))
    → (active_sum f ((execute_messages o e moments job answers b g).1).budgets
        ≤ active_sum f g.budgets)
      × (active_sum f ((stream_messages o e moments job streams b g).1).budgets
          ≤ active_sum f g.budgets)
unfolding execute_messages stream_messages
messages_settle f o e moments job answers streams b g answer_taken stream_taken = (
  loop_settles f e moments job (complete_message o e moments job answers) job.decision.max_retries 0
      (λ attempt is_last retry r rs b2 g2 next h.
        message_answered f o e (moments attempt) job attempt is_last retry r rs b2 g2
          (answers attempt) (answer_taken attempt) next h)
      b g,
  loop_settles f e moments job (stream_message o e moments job streams) job.decision.max_retries 0
      (λ attempt is_last retry r rs b2 g2 next h.
        stream_answered f o e (moments attempt) job attempt is_last retry r rs b2 g2
          (streams attempt) (stream_taken attempt) next h)
      b g,
)
