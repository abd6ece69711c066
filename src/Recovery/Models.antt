-- ===== src/Recovery/Models.antt =====
-- The data of AP exception recovery: src/inferrail/ap/models.py. Costs are in units of 10⁻¹² dollar,
-- and not negative, as the constructors of the source demand; a text that only a person reads is a
-- constructor that says which text it is.
use inferrail.Common.{ℕ, Bool, true, not, String, List, Option, none, some, filter}
use inferrail.Common.Dict.{Dict}
use inferrail.Common.Double.{Double, in_unit}

pub data FailureType : Type 0 where
  low_confidence : FailureType
  validation_check_failed : FailureType

abbrev pub failure_type_value : FailureType → String
failure_type_value low_confidence = "low_confidence"
failure_type_value validation_check_failed = "validation_check_failed"

pub data Action : Type 0 where
  retry : Action
  human_review : Action
  insufficient_evidence : Action

pub data AttemptStatus : Type 0 where
  success : AttemptStatus
  failed : AttemptStatus
  partial : AttemptStatus
  ambiguous : AttemptStatus

pub data ReviewOutcome : Type 0 where
  accepted : ReviewOutcome
  corrected : ReviewOutcome
  rejected : ReviewOutcome
  escalated : ReviewOutcome

pub data DecisionStatus : Type 0 where
  retry_in_progress : DecisionStatus
  retry_resolved : DecisionStatus
  awaiting_human_review : DecisionStatus
  resolved : DecisionStatus

pub record ExceptionCase : Type 0 where
  pub work_id : String
  pub checkpoint_attempt_id : String
  pub failure_type : String
  pub confidence : Option Double
  pub validation_check_passed : Option Bool
  pub cost_so_far_usd : Option ℕ
  pub opened_at : Option ℕ
  pub source : String
  pub extraction_policy_version : Option String

abbrev confidence_ok : Option Double → Bool
confidence_ok none = true
confidence_ok (some c) = in_unit c

-- `__post_init__` of the case and of the attempt
unfoldable pub case_ok : ExceptionCase → Bool
case_ok c = confidence_ok c.confidence

pub record RetryAttemptResult : Type 0 where
  pub attempt_id : String
  pub status : AttemptStatus
  pub cost_usd : Option ℕ
  pub confidence : Option Double
  pub provider : String
  pub raw_fields : Dict String

unfoldable pub result_ok : RetryAttemptResult → Bool
result_ok r = confidence_ok r.confidence

pub record CheckResult : Type 0 where
  pub name : String
  pub passed : Bool

pub record ValidationResult : Type 0 where
  pub passed : Bool
  pub checks : List CheckResult
  pub validator_version : String

unfoldable pub failed_checks : ValidationResult → List CheckResult
failed_checks v = filter (λ c. not c.passed) v.checks

pub record CostEstimate : Type 0 where
  pub amount_usd : ℕ
  pub basis : String

-- which message a recommendation carries
pub data Reason : Type 0 where
  unsupported_failure_type : Reason
  past_deadline : Reason
  no_confidence : Reason
  check_not_recorded_failed : Reason
  too_costly : Reason
  in_retry_band : Reason
  outside_retry_band : Reason

pub record Recommendation : Type 0 where
  pub work_id : String
  pub policy_name : String
  pub policy_version : String
  pub action : Action
  pub reason : Reason
