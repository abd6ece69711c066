-- ===== src/Recovery/Engine.antt =====
-- One call of `decide` or `ensure_handoff` in stages: RecoveryEngine of src/inferrail/ap/engine.py.
-- A stage ends with a transaction of the store or a call of the customer's code, so that the
-- transactions of other processes may come between any two.
pub mod After
pub mod Closing
pub mod Stages
pub mod Progress
pub mod System
pub mod Calls
pub mod Once
pub mod Attempts
pub mod Authorized
pub mod Keeping
pub mod Decide
use inferrail.Common.{ℕ, Bool, String, List, Option, none}
use inferrail.Common.Dict.{Dict}
use inferrail.Recovery.Models.{
  ExceptionCase, Recommendation, Action, Reason, AttemptStatus, DecisionStatus, retry_resolved,
  awaiting_human_review, RetryAttemptResult, CostEstimate, ValidationResult,
}
use inferrail.Recovery.Policy.{PolicyConfig}
use inferrail.Recovery.Store.{Decision, Attempt, StoreError}

pub record Engine : Type 0 where
  pub config : PolicyConfig
  pub worker_id : String
  pub retry_lease : ℕ
  pub adapter_name : String
  pub validate : RetryAttemptResult → ValidationResult

-- What the world gives one stage: the two clocks, new ids, and the answers of the adapter and of the
-- handoff, which are `none` where they raise.
pub record Inputs : Type 0 where
  pub now : ℕ
  pub at : ℕ
  pub new_id : String
  pub estimate : Option CostEstimate
  pub retry_answer : Option RetryAttemptResult
  pub handoff_answer : Option String

pub record DecisionResult : Type 0 where
  pub work_id : String
  pub decision_id : String
  pub recommended_action : Action
  pub reason : Reason
  pub policy_version : String
  pub status : DecisionStatus
  pub idempotent_replay : Bool
  pub retry_status : Option AttemptStatus
  pub retry_cost_usd : Option ℕ
  pub handoff_ref : Option String
  pub raw_fields : Dict String
  pub late_result_recorded : Bool

-- which text an entry of the attempt history carries
pub data Detail : Type 0 where
  cost_not_authorized : Detail
  adapter_raised : Detail
  not_validated : List String → Detail
  recovered : Detail

pub record HistoryEntry : Type 0 where
  pub attempt_id : Option String
  pub status : Option AttemptStatus
  pub detail : Detail

-- what a call of `decide` carries once its decision exists
pub record Job : Type 0 where
  pub case : ExceptionCase
  pub decision_id : String
  pub recommendation : Recommendation

pub data Ending : Type 0 where
  with_fields : RetryAttemptResult → Ending
  with_review : Option AttemptStatus → Option ℕ → List HistoryEntry → Ending

abbrev pub status_of : Ending → DecisionStatus
status_of (with_fields r) = retry_resolved
status_of (with_review _ _ _) = awaiting_human_review

-- who asked for the handoff
pub data Asker : Type 0 where
  decide_call : DecisionResult → Asker
  ensure_call : Asker

pub record Handing : Type 0 where
  pub case : ExceptionCase
  pub recommendation : Recommendation
  pub attempt_history : List HistoryEntry
  pub asker : Asker

pub data EngineError : Type 0 where
  store_error : StoreError → EngineError
  handoff_send_failed : EngineError
  decision_missing : EngineError
  no_handoff_due : EngineError

pub data Stage : Type 0 where
  looking : ExceptionCase → Stage
  creating : ExceptionCase → Recommendation → Stage
  calling : Job → Option CostEstimate → Stage
  recording_ambiguous : Job → Stage
  recording : Job → Option CostEstimate → RetryAttemptResult → ValidationResult → Stage
  recording_late : Job → RetryAttemptResult → Stage
  reading_late : Job → RetryAttemptResult → Stage
  setting : Job → Ending → Stage
  clearing : Job → Ending → Stage
  finding_handoff : Handing → Stage
  sending : Handing → Stage
  recording_handoff : Handing → String → Stage
  replaying : Decision → Stage
  replaying_handoff : Decision → Option Attempt → Stage
  ensuring : ExceptionCase → Stage
  ensuring_attempt : ExceptionCase → Decision → Stage
  finished : DecisionResult → Stage
  handed_off : String → Stage
  raised : EngineError → Stage

-- a call of the customer's code, with the work that it is for
pub data Effect : Type 0 where
  calls_adapter : String → Effect
  sends_handoff : String → Effect
