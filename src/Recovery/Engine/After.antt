-- ===== src/Recovery/Engine/After.antt =====
-- What follows each transaction of a call until its attempt is recorded: decide and _execute_retry of
-- src/inferrail/ap/engine.py.
use Prim.Native.String.{◌++◌}
use inferrail.Common.{
  ℕ, ◌+◌, Bool, true, false, String, List, [], ◌∷◌, Option, none, some, map, if◌then◌else◌,
}
use inferrail.Recovery.Models.{
  Action, retry, ambiguous, DecisionStatus, retry_in_progress, awaiting_human_review, ExceptionCase,
  Recommendation, RetryAttemptResult, ValidationResult, CostEstimate, failed_checks,
}
use inferrail.Recovery.Policy.{recommend, authorize_retry_cost}
use inferrail.Recovery.Store.{
  Decision, Attempt, LateResult, RecoveryStore, ambiguous_retry, Attempted, done, raises,
}
use inferrail.Recovery.Engine.{
  Engine, Inputs, DecisionResult, cost_not_authorized, adapter_raised, not_validated, Job, Ending,
  with_fields, with_review, decide_call, store_error, decision_missing, Stage, creating, calling,
  recording_ambiguous, recording, recording_late, reading_late, setting, finding_handoff, replaying,
  finished, raised, Effect,
}

pub record Moved : Type 0 where
  pub stage : Stage
  pub store : RecoveryStore
  pub effects : List Effect

abbrev pub to : Stage → RecoveryStore → Moved
to stage store = record { stage = stage; store = store; effects = [] }

abbrev pub is_retry : Action → Bool
is_retry retry = true
is_retry _ = false

abbrev pub initial_status : Bool → DecisionStatus
initial_status retries = if retries then retry_in_progress else awaiting_human_review

abbrev pub new_decision_id : Inputs → String
new_decision_id i = "dec_" ++ i.new_id

unfoldable pub new_decision : Engine → Inputs → ExceptionCase → Recommendation → Decision
new_decision e i case r =
    let retries = is_retry r.action in
    record {
      work_id = case.work_id;
      decision_id = new_decision_id i;
      checkpoint_attempt_id = case.checkpoint_attempt_id;
      failure_type = case.failure_type;
      confidence = case.confidence;
      cost_so_far_usd = case.cost_so_far_usd;
      policy_name = r.policy_name;
      policy_version = r.policy_version;
      recommended_action = r.action;
      reason = r.reason;
      status = initial_status retries;
      created_at = i.at;
      worker_id = if retries then some e.worker_id else none;
      lease_expires_at = if retries then some (i.now + e.retry_lease) else none;
    }

-- what the results of `decide` share
unfoldable pub result_for : Job → DecisionStatus → DecisionResult
result_for job status = record {
  work_id = job.case.work_id;
  decision_id = job.decision_id;
  recommended_action = job.recommendation.action;
  reason = job.recommendation.reason;
  policy_version = job.recommendation.policy_version;
  status = status;
  idempotent_replay = false;
  retry_status = none;
  retry_cost_usd = none;
  handoff_ref = none;
  raw_fields = [];
  late_result_recorded = false;
}

-- After the decision has been created: no retry, no authorization, or the adapter's turn.
unfoldable pub after_created : Engine → Inputs → Job → Stage
unfolding authorize_retry_cost result_for
after_created e i job =
    if is_retry job.recommendation.action
    then if authorize_retry_cost i.estimate e.config.max_retry_cost_usd
      then calling job i.estimate
      else setting job (
          with_review none none
            (record { attempt_id = none; status = none; detail = cost_not_authorized } ∷ []))
    else finding_handoff record {
      case = job.case;
      recommendation = job.recommendation;
      attempt_history = [];
      asker = decide_call (result_for job awaiting_human_review);
    }

unfoldable pub when_created :
    Engine
    → Inputs
    → ExceptionCase
    → Recommendation
    → RecoveryStore
    → Attempted (Decision × Bool)
    → Moved
unfolding after_created
when_created e i case r s (done (row, true) t) =
    to
      (after_created e i
        record { case = case; decision_id = new_decision_id i; recommendation = r })
      t
when_created e i case r s (done (row, false) t) = to (replaying row) t
when_created e i case r s (raises x) = to (raised (store_error x)) s

unfoldable pub when_found : Engine → Inputs → ExceptionCase → Option Decision → Stage
unfolding recommend
when_found e i case (some row) = replaying row
when_found e i case none = creating case (recommend case e.config i.now)

abbrev pub answered : Engine → Job → Option CostEstimate → Option RetryAttemptResult → Stage
answered e job estimate none = recording_ambiguous job
answered e job estimate (some r) = recording job estimate r (e.validate r)

unfoldable pub ambiguous_ending : String → Ending
ambiguous_ending id =
    with_review (some ambiguous) none
      (record { attempt_id = some id; status = some ambiguous; detail = adapter_raised } ∷ [])

-- An attempt that another process has recorded for the work is passed over.
unfoldable pub when_ambiguous : String → Job → RecoveryStore → Attempted (Attempt × Bool) → Moved
unfolding ambiguous_ending
when_ambiguous id job s (done _ t) = to (setting job (ambiguous_ending id)) t
when_ambiguous id job s (raises ambiguous_retry) = to (setting job (ambiguous_ending id)) s
when_ambiguous id job s (raises x) = to (raised (store_error x)) s

unfoldable pub ambiguous_attempt : Engine → Inputs → Job → Attempt
ambiguous_attempt e i job = record {
  attempt_id = "ret_ambiguous_" ++ i.new_id;
  work_id = job.case.work_id;
  status = ambiguous;
  cost_usd = none;
  confidence = none;
  provider = e.adapter_name;
  validation_passed = none;
  validator_version = none;
  created_at = i.at;
  pre_flight_estimate_usd = none;
}

unfoldable pub attempt_of :
    Inputs → Job → Option CostEstimate → RetryAttemptResult → ValidationResult → Attempt
attempt_of i job estimate result validation = record {
  attempt_id = result.attempt_id;
  work_id = job.case.work_id;
  status = result.status;
  cost_usd = result.cost_usd;
  confidence = result.confidence;
  provider = result.provider;
  validation_passed = some validation.passed;
  validator_version = some validation.validator_version;
  created_at = i.at;
  pre_flight_estimate_usd = amount_of estimate;
}
  where
    amount_of : Option CostEstimate → Option ℕ
    amount_of none = none
    amount_of (some c) = some c.amount_usd

unfoldable pub ending_of : RetryAttemptResult → ValidationResult → Ending
unfolding failed_checks
ending_of result validation =
    if validation.passed
    then with_fields result
    else with_review (some result.status) result.cost_usd (
        record {
          attempt_id = some result.attempt_id;
          status = some result.status;
          detail = not_validated (map (λ c. c.name) (failed_checks validation));
        }
        ∷ [])

unfoldable pub when_recorded :
    Job → RetryAttemptResult → ValidationResult → RecoveryStore → Attempted (Attempt × Bool) → Moved
unfolding ending_of
when_recorded job r v s (done _ t) = to (setting job (ending_of r v)) t
when_recorded job r v s (raises ambiguous_retry) = to (recording_late job r) s
when_recorded job r v s (raises x) = to (raised (store_error x)) s

unfoldable pub late_result : Inputs → Job → RetryAttemptResult → LateResult
late_result i job r = record {
  work_id = job.case.work_id;
  attempt_id = r.attempt_id;
  status = r.status;
  cost_usd = r.cost_usd;
  provider = r.provider;
  recorded_at = i.at;
}

abbrev pub when_late : Job → RetryAttemptResult → RecoveryStore → Attempted Unit → Moved
when_late job r s (done _ t) = to (reading_late job r) t
when_late job r s (raises x) = to (raised (store_error x)) s

-- The source asserts that the decision is there.
unfoldable pub late_answer : Job → RetryAttemptResult → Option Decision → Stage
unfolding result_for
late_answer job r none = raised decision_missing
late_answer job r (some current) = finished record (result_for job current.status) {
  retry_status = some r.status;
  retry_cost_usd = r.cost_usd;
  late_result_recorded = true;
}
