-- ===== src/Recovery/Store.antt =====
-- The tables of AP exception recovery and their transactions: RecoveryStore of
-- src/inferrail/ap/store.py. Each function is one transaction; what it raises leaves the tables as
-- they were. `at` is the value of `time.time()`, in microseconds.
pub mod Rows
pub mod Reaping
pub mod Keeps
pub mod Unstuck
pub mod Stale
pub mod Passes
pub mod Sweep
use Prim.Native.String.{◌++◌}
use inferrail.Common.{
  ℕ, Bool, true, false, ◌||◌, not, String, List, [], ◌∷◌, Option, none, some, any, filter, map,
  if◌then◌else◌, same_text, leb,
}
use inferrail.Common.Double.{Double}
use inferrail.Common.Sorting.{sort_by}
use inferrail.Recovery.Models.{
  Action, AttemptStatus, DecisionStatus, resolved, ReviewOutcome, Reason,
}

pub record Decision : Type 0 where
  pub work_id : String
  pub decision_id : String
  pub checkpoint_attempt_id : String
  pub failure_type : String
  pub confidence : Option Double
  pub cost_so_far_usd : Option ℕ
  pub policy_name : String
  pub policy_version : String
  pub recommended_action : Action
  pub reason : Reason
  pub status : DecisionStatus
  pub created_at : ℕ
  pub worker_id : Option String
  pub lease_expires_at : Option ℕ

pub record Attempt : Type 0 where
  pub attempt_id : String
  pub work_id : String
  pub status : AttemptStatus
  pub cost_usd : Option ℕ
  pub confidence : Option Double
  pub provider : String
  pub validation_passed : Option Bool
  pub validator_version : Option String
  pub created_at : ℕ
  pub pre_flight_estimate_usd : Option ℕ

pub record Handoff : Type 0 where
  pub work_id : String
  pub handoff_ref : String
  pub created_at : ℕ

pub record OutcomeRow : Type 0 where
  pub work_id : String
  pub outcome : ReviewOutcome
  pub timestamp : ℕ
  pub source : String
  pub correction_delta_usd : Option ℕ
  pub review_cost_usd : Option ℕ
  pub recorded_at : ℕ

pub record LateResult : Type 0 where
  pub work_id : String
  pub attempt_id : String
  pub status : AttemptStatus
  pub cost_usd : Option ℕ
  pub provider : String
  pub recorded_at : ℕ

pub record RecoveryStore : Type 0 where
  pub decisions : List Decision
  pub retry_attempts : List Attempt
  pub handoffs : List Handoff
  pub review_outcomes : List OutcomeRow
  pub late_retry_results : List LateResult

-- `integrity_error` is SQLite's, for a key that is taken or a decision that is missing.
pub data StoreError : Type 0 where
  ambiguous_retry : StoreError
  integrity_error : StoreError
  key_error : StoreError
  assertion_failed : StoreError

pub data Attempted (A : Type 0) : Type 0 where
  done : A → RecoveryStore → Attempted A
  raises : StoreError → Attempted A

-- the tables after a transaction
abbrev pub store_after : {A : Type 0} → RecoveryStore → Attempted A → RecoveryStore
store_after s (done _ t) = t
store_after s (raises _) = s

-- `WHERE key = ?`, the first row of it, and whether there is one
module _ {A : Type 0} (key : A → String) where
  abbrev pub has_row : String → List A → Bool
  has_row k rows = any (λ r. same_text (key r) k) rows

  unfoldable pub find_row : String → List A → Option A
  unfolding same_text
  find_row k [] = none
  find_row k (r ∷ rows) = if same_text (key r) k then some r else find_row k rows

  abbrev pub without : String → List A → List A
  without k rows = filter (λ r. not (same_text (key r) k)) rows

abbrev pub has_decision : String → RecoveryStore → Bool
has_decision w s = has_row (λ (d : Decision). d.work_id) w s.decisions

abbrev pub has_attempt : String → RecoveryStore → Bool
has_attempt w s = has_row (λ (a : Attempt). a.work_id) w s.retry_attempts

unfoldable pub get_decision : String → RecoveryStore → Option Decision
unfolding find_row
get_decision w s = find_row (λ (d : Decision). d.work_id) w s.decisions

unfoldable pub get_retry_attempt : String → RecoveryStore → Option Attempt
unfolding find_row
get_retry_attempt w s = find_row (λ (a : Attempt). a.work_id) w s.retry_attempts

unfoldable pub get_handoff : String → RecoveryStore → Option Handoff
unfolding find_row
get_handoff w s = find_row (λ (h : Handoff). h.work_id) w s.handoffs

-- `INSERT` puts a row last
abbrev pub insert_row : {A : Type 0} → A → List A → List A
insert_row x [] = x ∷ []
insert_row x (y ∷ ys) = y ∷ insert_row x ys

abbrev pub insert_decision :
    Decision → Option Decision → RecoveryStore → Attempted (Decision × Bool)
insert_decision d (some existing) s = done (existing, false) s
insert_decision d none s =
    if has_row (λ (d : Decision). d.decision_id) d.decision_id s.decisions
    then raises integrity_error
    else done (d, true) (record s { decisions = insert_row d s.decisions })

-- The arguments of the source are the fields of a row.
unfoldable pub create_decision : Decision → RecoveryStore → Attempted (Decision × Bool)
unfolding get_decision
create_decision d s = insert_decision d (get_decision d.work_id s) s

abbrev put_status : String → DecisionStatus → Decision → Decision
put_status w status d = if same_text d.work_id w then record d { status = status } else d

unfoldable pub set_decision_status : String → DecisionStatus → RecoveryStore → RecoveryStore
set_decision_status w status s = record s { decisions = map (put_status w status) s.decisions }

abbrev drop_lease : String → Decision → Decision
drop_lease w d =
    if same_text d.work_id w then record d { worker_id = none; lease_expires_at = none } else d

unfoldable pub clear_retry_lease : String → RecoveryStore → RecoveryStore
clear_retry_lease w s = record s { decisions = map (drop_lease w) s.decisions }

abbrev pub insert_attempt : Attempt → Option Attempt → RecoveryStore → Attempted (Attempt × Bool)
insert_attempt a (some existing) s = done (existing, false) s
insert_attempt a none s =
    if has_attempt a.work_id s
    then raises ambiguous_retry
    else if has_decision a.work_id s
    then done (a, true) (record s { retry_attempts = insert_row a s.retry_attempts })
    else raises integrity_error

unfoldable pub record_retry_attempt : Attempt → RecoveryStore → Attempted (Attempt × Bool)
unfolding find_row
record_retry_attempt a s =
    insert_attempt a (find_row (λ (b : Attempt). b.attempt_id) a.attempt_id s.retry_attempts) s

-- The text `detail` of a late result is left out.
unfoldable pub record_late_retry_result : LateResult → RecoveryStore → Attempted Unit
record_late_retry_result r s =
    if has_decision r.work_id s
    then done tt (record s { late_retry_results = insert_row r s.late_retry_results })
    else raises integrity_error

abbrev pub insert_handoff : Handoff → Option Handoff → RecoveryStore → Attempted (Handoff × Bool)
insert_handoff h (some existing) s = done (existing, false) s
insert_handoff h none s =
    if has_decision h.work_id s
    then done (h, true) (record s { handoffs = insert_row h s.handoffs })
    else raises integrity_error

unfoldable pub record_handoff : Handoff → RecoveryStore → Attempted (Handoff × Bool)
unfolding get_handoff
record_handoff h s = insert_handoff h (get_handoff h.work_id s) s

unfoldable pub get_outcome_history : String → RecoveryStore → List OutcomeRow
unfolding sort_by
get_outcome_history w s =
    sort_by (λ (o p : OutcomeRow). leb o.recorded_at p.recorded_at)
      (filter (λ o. same_text o.work_id w) s.review_outcomes)

-- `rows[-1]`
abbrev last_after : OutcomeRow → List OutcomeRow → OutcomeRow
last_after o [] = o
last_after o (p ∷ ps) = last_after p ps

unfoldable pub record_outcome : OutcomeRow → RecoveryStore → Attempted OutcomeRow
unfolding set_decision_status get_outcome_history
record_outcome o s =
    let t =
      set_decision_status o.work_id resolved
        (record s { review_outcomes = insert_row o s.review_outcomes }) in
    if has_decision o.work_id s
    then done (last_after o (get_outcome_history o.work_id t)) t
    else raises key_error

unfoldable pub all_work_ids : RecoveryStore → List String
unfolding sort_by
all_work_ids s =
    map (λ d. d.work_id) (sort_by (λ (d e : Decision). leb d.created_at e.created_at) s.decisions)

unfoldable pub get_late_retry_results : String → RecoveryStore → List LateResult
unfolding sort_by
get_late_retry_results w s =
    sort_by (λ (o p : LateResult). leb o.recorded_at p.recorded_at)
      (filter (λ o. same_text o.work_id w) s.late_retry_results)

unfoldable pub delete_work_id : String → RecoveryStore → Bool × RecoveryStore
delete_work_id w s = (
  has_decision w s,
  record {
    decisions = without (λ (d : Decision). d.work_id) w s.decisions;
    retry_attempts = without (λ (a : Attempt). a.work_id) w s.retry_attempts;
    handoffs = without (λ (h : Handoff). h.work_id) w s.handoffs;
    review_outcomes = without (λ (o : OutcomeRow). o.work_id) w s.review_outcomes;
    late_retry_results = without (λ (r : LateResult). r.work_id) w s.late_retry_results;
  },
)
