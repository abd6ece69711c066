-- ===== src/Gateway/Settlement.antt =====
-- A request that is over has settled every reservation that it took.
use inferrail.Common.{
  ℕ, zero, suc, ◌≤◌, String, Bool, true, false, ◌||◌, not, ◌≡◌, sym, ap, subst, inl, inr, Option,
  none, some, is_some, List, [], ◌∷◌, if◌then◌else◌, arith, same_text_iff,
}
use inferrail.Common.Sorting.{sum_of}
use inferrail.Receipts.Schema.{InferenceReceipt}
use inferrail.Errors.{Exception, is_retryable}
use inferrail.Budgets.Store.{
  BudgetStore, Reservation, ReservationState, active, held, delete_reservation, mark_held,
  release_reservation, hold_reservation,
}
use inferrail.Budgets.Enforcer.{Admission, release, hold}
use inferrail.Budgets.Overrun.{attempt_may_have_billed, settle_as_hold}
use inferrail.Budgets.Run.Admitting.{with_row}
use inferrail.Gateway.Admission.{
  Engine, Stores, BudgetState, Moment, Job, admit, admit_by, emit_failure, settle_by,
  settle_failed_attempt, emit_with_held, settle_and_emit_receipt,
}
use inferrail.Gateway.Admitting.{Admits, admit_by-Admits}
use inferrail.Gateway.Execution.{
  Answer, replied, failed, Retry, assertion_error, is_ours, success_receipt, respond, give_up,
  retry_or_give_up, after_answer, after_admission, attempt_loop, execute_with_retries,
}

abbrev pub is_active : ReservationState → Bool
is_active active = true
is_active held = false

abbrev pub active_part : (Reservation → ℕ) → Reservation → ℕ
active_part f r = if is_active r.state then f r else 0

module _ (f : Reservation → ℕ) where
  -- what the reservations that are still active measure together
  abbrev pub active_sum : BudgetStore → ℕ
  active_sum s = sum_of (active_part f) s.reservations

  delete_le :
      (id : String) (rs : List Reservation)
      → sum_of (active_part f) (delete_reservation id rs) ≤ sum_of (active_part f) rs
  unfolding sum_of delete_reservation
  delete_le id [] = omega arith
  delete_le id (r ∷ rs) = ground (arith, delete_le id rs)

  hold_le :
      (id : String) (rs : List Reservation)
      → sum_of (active_part f) (mark_held id rs) ≤ sum_of (active_part f) rs
  unfolding sum_of mark_held
  hold_le id [] = omega arith
  hold_le id (r ∷ rs) = ground (arith, hold_le id rs)

  delete_row :
      (r : Reservation) (rs : List Reservation)
      → sum_of (active_part f) (delete_reservation r.reservation_id (r ∷ rs))
        ≤ sum_of (active_part f) rs
  unfolding sum_of delete_reservation
  delete_row r rs =
      ground (arith, same_text_iff r.reservation_id r.reservation_id, delete_le r.reservation_id rs)

  hold_row :
      (r : Reservation) (rs : List Reservation)
      → sum_of (active_part f) (mark_held r.reservation_id (r ∷ rs)) ≤ sum_of (active_part f) rs
  unfolding sum_of mark_held
  hold_row r rs =
      ground (arith, same_text_iff r.reservation_id r.reservation_id, hold_le r.reservation_id rs)

  -- A settlement of the newest row leaves no more active than there was without it.
  settled_row :
      (holds : Bool) (r : Reservation) (rs : List Reservation) (b : BudgetState) (g : Stores)
      → g.budgets.reservations ≡ r ∷ rs
      → active_sum ((settle_by holds r b g).1).budgets ≤ sum_of (active_part f) rs
  unfolding settle_by hold release hold_reservation release_reservation
  settled_row true r rs b g h =
      subst (λ x. sum_of (active_part f) (mark_held r.reservation_id x) ≤ sum_of (active_part f) rs)
        (sym h) (hold_row r rs)
  settled_row false r rs b g h =
      subst
        (λ x.
          sum_of (active_part f) (delete_reservation r.reservation_id x)
          ≤ sum_of (active_part f) rs)
        (sym h) (delete_row r rs)

  pub failed_settles :
      (o : Option Reservation) (rs : List Reservation) (exc : Exception) (b : BudgetState)
      (g : Stores)
      → g.budgets.reservations ≡ with_row o rs
      → active_sum ((settle_failed_attempt o exc b g).1).budgets ≤ sum_of (active_part f) rs
  unfolding settle_failed_attempt
  failed_settles none rs exc b g h = omega (arith, ap (λ x. sum_of (active_part f) x) h)
  failed_settles (some r) rs exc b g h = settled_row (attempt_may_have_billed exc) r rs b g h

  either_le {ℓ} :
      {A : Type ℓ} (t : Bool) (x y : A × Stores) (n : ℕ)
      → active_sum x.1.budgets ≤ n
      → active_sum y.1.budgets ≤ n
      → active_sum ((if t then x else y).1).budgets ≤ n
  either_le true x y n h k = h
  either_le false x y n h k = k

  pub emitted_settles :
      (e : Engine) (receipt : InferenceReceipt) (o : Option Reservation) (rs : List Reservation)
      (b : BudgetState) (g : Stores)
      → g.budgets.reservations ≡ with_row o rs
      → active_sum ((settle_and_emit_receipt e receipt o b g).1).budgets ≤ sum_of (active_part f) rs
  unfolding settle_and_emit_receipt emit_with_held
  emitted_settles e receipt none rs b g h = omega (arith, ap (λ x. sum_of (active_part f) x) h)
  emitted_settles e receipt (some r) rs b g h =
      let after_hold = settle_by true r b g in
      either_le (settle_as_hold (is_some receipt.estimated_cost_usd) true)
        (after_hold.0, emit_with_held e receipt after_hold.0 after_hold.1)
        (settle_by false r b (emit_with_held e receipt b g)) (sum_of (active_part f) rs)
        (settled_row true r rs b g h) (settled_row false r rs b (emit_with_held e receipt b g) h)

  gives_up :
      (e : Engine) (m : Moment) (job : Job) (attempt : ℕ) (exc : Exception) (b : BudgetState)
      (g : Stores)
      → ((give_up e m job attempt exc b g).1).budgets ≡ g.budgets
  unfolding give_up emit_failure
  gives_up e m job attempt exc b g = ground arith

  pub retried :
      (e : Engine) (m : Moment) (job : Job) (attempt : ℕ) (exc : Exception) (is_last : Bool)
      (retry : Retry) (n : ℕ) (left : BudgetState × Stores)
      → ((b2 : BudgetState) (g2 : Stores)
          → active_sum ((retry b2 g2).1).budgets ≤ active_sum g2.budgets)
      → active_sum left.1.budgets ≤ n
      → active_sum ((retry_or_give_up e m job attempt exc is_last retry left).1).budgets ≤ n
  unfolding retry_or_give_up
  retried e m job attempt exc is_last retry n (b, g) next h =
      either_le (not (is_ours exc) || not (is_retryable exc) || is_last)
        (give_up e m job attempt exc b g) (retry b g) n
        (omega (arith, h, ap (λ s. active_sum s) (gives_up e m job attempt exc b g)))
        (omega (arith, h, next b g))

  -- an attempt after its admission, whatever the next attempt would do
  answered :
      (e : Engine) (m : Moment) (job : Job) (attempt : ℕ) (is_last : Bool) (retry : Retry)
      (o : Option Reservation) (rs : List Reservation) (b : BudgetState) (g : Stores)
      (answer : Answer)
      → ((b2 : BudgetState) (g2 : Stores)
          → active_sum ((retry b2 g2).1).budgets ≤ active_sum g2.budgets)
      → g.budgets.reservations ≡ with_row o rs
      → active_sum ((after_answer e m job attempt is_last retry o b g answer).1).budgets
        ≤ sum_of (active_part f) rs
  unfolding after_answer respond
  answered e m job attempt is_last retry o rs b g (replied reply) next h =
      emitted_settles e (success_receipt e m job attempt reply g) o rs b g h
  answered e m job attempt is_last retry o rs b g (failed exc) next h =
      retried e m job attempt exc is_last retry (sum_of (active_part f) rs)
        (settle_failed_attempt o exc b g) next (failed_settles o rs exc b g h)

  attempted :
      (e : Engine) (m : Moment) (job : Job) (attempt : ℕ) (is_last : Bool) (retry : Retry)
      (b : BudgetState) (g : Stores) (answer : Answer)
      → ((b2 : BudgetState) (g2 : Stores)
          → active_sum ((retry b2 g2).1).budgets ≤ active_sum g2.budgets)
      → active_sum
          ((after_admission e m job attempt is_last retry b answer (admit e m job attempt b g)).1
            ).budgets
        ≤ active_sum g.budgets
  unfolding admit after_admission
  attempted e m job attempt is_last retry b g answer next =
      judged (admit_by e m job attempt b e.budgets g)
        (admit_by-Admits e m job attempt b e.budgets g)
    where
      judged :
          (out : Admission × Stores)
          → Admits g out
          → active_sum ((after_admission e m job attempt is_last retry b answer out).1).budgets
            ≤ active_sum g.budgets
      judged out (inl (why, g2, e2, same)) =
          subst
            (λ z.
              active_sum ((after_admission e m job attempt is_last retry b answer z).1).budgets
              ≤ active_sum g.budgets)
            (sym e2) (omega (arith, ap (λ s. active_sum s) same))
      judged out (inr (o, g2, e2, rows)) =
          subst
            (λ z.
              active_sum ((after_admission e m job attempt is_last retry b answer z).1).budgets
              ≤ active_sum g.budgets)
            (sym e2)
            (answered e m job attempt is_last retry o g.budgets.reservations b g2 answer next rows)

  loop_settles :
      (e : Engine) (moments : ℕ → Moment) (answers : ℕ → Answer) (job : Job) (left attempt : ℕ)
      (b : BudgetState) (g : Stores)
      → active_sum ((attempt_loop e moments answers job left attempt b g).1).budgets
        ≤ active_sum g.budgets
  unfolding attempt_loop
  loop_settles e moments answers job zero attempt b g =
      attempted e (moments attempt) job attempt true assertion_error b g (answers attempt)
        (λ b2 g2. omega arith)
  loop_settles e moments answers job (suc left) attempt b g =
      attempted e (moments attempt) job attempt false
        (attempt_loop e moments answers job left (suc attempt)) b g (answers attempt)
        (loop_settles e moments answers job left (suc attempt))

-- However the provider answers, a request that is over leaves no reservation of its own active: by
-- any measure of reservations, what is active afterwards is at most what was active before.
pub execute_settles :
    (f : Reservation → ℕ) (e : Engine) (moments : ℕ → Moment) (answers : ℕ → Answer) (job : Job)
    (b : BudgetState) (g : Stores)
    → active_sum f ((execute_with_retries e moments answers job b g).1).budgets
      ≤ active_sum f g.budgets
unfolding execute_with_retries
execute_settles f e moments answers job b g =
    loop_settles f e moments answers job job.decision.max_retries 0 b g
