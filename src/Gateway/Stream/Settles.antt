-- ===== src/Gateway/Stream/Settles.antt =====
-- A stream that is over has settled its reservations: src/inferrail/gateway/execution.py.
use inferrail.Common.{
  ℕ, zero, suc, ◌≤◌, Bool, true, false, ◌≡◌, sym, ap, subst, inl, inr, Option, none, some, is_some,
  List, arith,
}
use inferrail.Common.Sorting.{sum_of}
use inferrail.Budgets.Store.{Reservation}
use inferrail.Budgets.Enforcer.{Admission}
use inferrail.Budgets.Run.Admitting.{with_row}
use inferrail.Gateway.Admission.{
  Engine, Stores, BudgetState, Moment, Job, admit, admit_by, settle_failed_attempt,
}
use inferrail.Gateway.Admitting.{Admits, admit_by-Admits}
use inferrail.Gateway.Execution.{Outcome, priced_cache, Retry, assertion_error}
use inferrail.Gateway.Settlement.{active_part, active_sum, emitted_settles, failed_settles, retried}
use inferrail.Pricing.Resolver.{resolve}
use inferrail.Receipts.Schema.{InferenceReceipt}
use inferrail.Gateway.Counts.{whole_counts, receipt_or, receipt_or_there, IsTaken}
use inferrail.Gateway.Stream.{
  Outside, streamed, emit_or_raise, stream_outcome, StreamAnswer, opens, refuses, stream_status,
  stream_receipt, reply_of, emit_stream_outcome, iter_stream, after_stream_answer,
  after_stream_admission, stream_loop, stream_with_retries,
}

-- The counts of a stream that the provider opens are whole, or else taken as they are.
abbrev pub AnswerIsTaken : Outside → StreamAnswer → Type 0
AnswerIsTaken o (opens chunks end) =
    let u = (streamed o.loads chunks end).bookkeeper.usage in
    IsTaken o.odd_receipt u.prompt_tokens u.completion_tokens
AnswerIsTaken o (refuses exc) = Unit

-- nothing that an attempt takes stays active when its continuation leaves nothing
abbrev Settling : (Reservation → ℕ) → Retry → Type 0
Settling f retry =
    (b : BudgetState) (g : Stores) → active_sum f ((retry b g).1).budgets ≤ active_sum f g.budgets

-- An attempt whose receipt is there has settled.
pub receipt_settles :
    (f : Reservation → ℕ) (e : Engine) (outcome : Outcome) (x : Option InferenceReceipt)
    (o : Option Reservation) (rs : List Reservation) (b : BudgetState) (g : Stores)
    → is_some x ≡ true
    → g.budgets.reservations ≡ with_row o rs
    → active_sum f ((emit_or_raise e outcome o b g x).1).budgets ≤ sum_of (active_part f) rs
receipt_settles f e outcome none o rs b g there h = absurd (ground (arith, there))
receipt_settles f e outcome (some receipt) o rs b g there h = emitted_settles f e receipt o rs b g h

module _ (f : Reservation → ℕ) (io : Outside) (e : Engine) where
  stream_answered :
      (m : Moment) (job : Job) (attempt : ℕ) (is_last : Bool) (retry : Retry)
      (o : Option Reservation) (rs : List Reservation) (b : BudgetState) (g : Stores)
      (answer : StreamAnswer)
      → AnswerIsTaken io answer
      → Settling f retry
      → g.budgets.reservations ≡ with_row o rs
      → active_sum f ((after_stream_answer io e m job attempt is_last retry o b g answer).1).budgets
        ≤ sum_of (active_part f) rs
  unfolding after_stream_answer iter_stream emit_stream_outcome
  stream_answered m job attempt is_last retry o rs b g (opens chunks end) taken next h =
      let s = streamed io.loads chunks end in
      let u = s.bookkeeper.usage in
      let status = stream_status s.ended s.chunks_yielded in
      let cache =
        priced_cache (resolve e.catalogs e.resolver job.decision.provider_name job.decision.model)
          u.cached_prompt_tokens u.cache_write_prompt_tokens in
      let of_whole : Option ℕ → Option ℕ → InferenceReceipt =
        λ p c. stream_receipt e m job attempt status (reply_of u p c) g in
      let of_odd = io.odd_receipt attempt status u.prompt_tokens u.completion_tokens cache g in
      let counts = whole_counts u.prompt_tokens u.completion_tokens in
      receipt_settles f e (stream_outcome attempt s.ended) (receipt_or counts of_whole of_odd) o rs
        b g (receipt_or_there counts of_whole of_odd (λ q. taken q attempt status cache g)) h
  stream_answered m job attempt is_last retry o rs b g (refuses exc) taken next h =
      retried f e m job attempt exc is_last retry (sum_of (active_part f) rs)
        (settle_failed_attempt o exc b g) next (failed_settles f o rs exc b g h)

  stream_attempted :
      (m : Moment) (job : Job) (attempt : ℕ) (is_last : Bool) (retry : Retry) (b : BudgetState)
      (g : Stores) (answer : StreamAnswer)
      → AnswerIsTaken io answer
      → Settling f retry
      → active_sum f
          ((after_stream_admission io e m job attempt is_last retry b answer
              (admit e m job attempt b g)).1
            ).budgets
        ≤ active_sum f g.budgets
  unfolding admit after_stream_admission
  stream_attempted m job attempt is_last retry b g answer taken next =
      judged (admit_by e m job attempt b e.budgets g)
        (admit_by-Admits e m job attempt b e.budgets g)
    where
      Fine : Admission × Stores → Type 0
      Fine out =
          active_sum f
            ((after_stream_admission io e m job attempt is_last retry b answer out).1).budgets
          ≤ active_sum f g.budgets

      judged : (out : Admission × Stores) → Admits g out → Fine out
      judged out (inl (why, g2, e2, same)) =
          subst (λ z. Fine z) (sym e2) (omega (arith, ap (λ s. active_sum f s) same))
      judged out (inr (o, g2, e2, rows)) =
          subst (λ z. Fine z) (sym e2)
            (stream_answered m job attempt is_last retry o g.budgets.reservations b g2 answer taken
              next rows)

  stream_loop_settles :
      (moments : ℕ → Moment) (answers : ℕ → StreamAnswer) (job : Job) (left attempt : ℕ)
      → ((n : ℕ) → AnswerIsTaken io (answers n))
      → Settling f (stream_loop io e moments answers job left attempt)
  unfolding stream_loop
  stream_loop_settles moments answers job zero attempt taken b g =
      stream_attempted (moments attempt) job attempt true assertion_error b g (answers attempt)
        (taken attempt) (λ b2 g2. omega arith)
  stream_loop_settles moments answers job (suc left) attempt taken b g =
      stream_attempted (moments attempt) job attempt false
        (stream_loop io e moments answers job left (suc attempt)) b g (answers attempt)
        (taken attempt) (stream_loop_settles moments answers job left (suc attempt) taken)

-- However the provider opens and ends a stream, and wherever the client leaves it: a stream that has
-- been read to its end leaves no reservation of its own active, provided that the token counts of
-- its usage are whole numbers or missing, or else that the event and the receipt take them.
pub stream_settles :
    (f : Reservation → ℕ) (io : Outside) (e : Engine) (moments : ℕ → Moment)
    (answers : ℕ → StreamAnswer) (job : Job) (b : BudgetState) (g : Stores)
    → ((n : ℕ) → AnswerIsTaken io (answers n))
    → active_sum f ((stream_with_retries io e moments answers job b g).1).budgets
      ≤ active_sum f g.budgets
unfolding stream_with_retries
stream_settles f io e moments answers job b g taken =
    stream_loop_settles f io e moments answers job job.decision.max_retries 0 taken b g
