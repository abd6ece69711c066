-- ===== src/Recovery/Policy.antt =====
-- The policy of AP exception recovery: src/inferrail/ap/policy.py. Times are microseconds since
-- 1970; up to ages of 272 years a comparison of the source's float seconds is one of microseconds.
pub mod Band
use inferrail.Common.{
  ℕ, ◌+◌, Bool, true, false, ◌&&◌, ◌||◌, not, String, List, [], ◌∷◌, Option, none, some, any, all,
  if◌then◌else◌, ltb, leb, ◌==◌, same_text,
}
use inferrail.Common.Double.{Double, double_le, double_lt, in_unit}
use inferrail.Recovery.Models.{
  failure_type_value, low_confidence, validation_check_failed, Action, retry, human_review,
  insufficient_evidence, ExceptionCase, CostEstimate, Reason, unsupported_failure_type,
  past_deadline, no_confidence, check_not_recorded_failed, too_costly, in_retry_band,
  outside_retry_band, Recommendation,
}

pub record PolicyConfig : Type 0 where
  pub eligible_failure_types : List String
  pub retry_floor : Double
  pub human_review_threshold : Double
  pub max_retry_cost_usd : ℕ
  pub decision_deadline : ℕ
  pub max_retries : ℕ
  pub fallback_action : Action
  pub config_version : String
  pub name : String

abbrev is_in : List String → String → Bool
is_in ts t = any (same_text t) ts

abbrev pub supported_failure_types : List String
supported_failure_types =
    failure_type_value low_confidence ∷ failure_type_value validation_check_failed ∷ []

abbrev is_human_review : Action → Bool
is_human_review human_review = true
is_human_review _ = false

-- `__post_init__` raises nothing
unfoldable pub config_ok : PolicyConfig → Bool
config_ok c =
    all (is_in supported_failure_types) c.eligible_failure_types
    && in_unit c.retry_floor
    && in_unit c.human_review_threshold
    && not (double_lt c.human_review_threshold c.retry_floor)
    && ltb 0 c.decision_deadline
    && c.max_retries == 1
    && is_human_review c.fallback_action

-- the age is known and beyond the deadline
unfoldable pub is_stale : ℕ → ℕ → Option ℕ → Bool
is_stale deadline now none = false
is_stale deadline now (some opened) = ltb (opened + deadline) now

abbrev is_failed : Option Bool → Bool
is_failed (some false) = true
is_failed _ = false

unfoldable pub check_missing : ExceptionCase → Bool
unfolding same_text
check_missing case =
    same_text case.failure_type (failure_type_value validation_check_failed)
    && not (is_failed case.validation_check_passed)

abbrev exceeds : Option ℕ → ℕ → Bool
exceeds none limit = false
exceeds (some cost) limit = ltb limit cost

-- The tests from the cost on, for a case with a confidence.
unfoldable pub by_band : PolicyConfig → ExceptionCase → Double → Action × Reason
unfolding check_missing
by_band config case confidence =
    if check_missing case
    then (insufficient_evidence, check_not_recorded_failed)
    else if exceeds case.cost_so_far_usd config.max_retry_cost_usd
    then (human_review, too_costly)
    else if double_le config.retry_floor confidence
        && double_lt confidence config.human_review_threshold
    then (retry, in_retry_band)
    else (human_review, outside_retry_band)

unfoldable pub by_confidence : PolicyConfig → ExceptionCase → Option Double → Action × Reason
unfolding by_band
by_confidence config case none = (insufficient_evidence, no_confidence)
by_confidence config case (some c) = by_band config case c

unfoldable pub choose : PolicyConfig → ExceptionCase → ℕ → Action × Reason
unfolding by_confidence is_stale
choose config case now =
    if not (is_in config.eligible_failure_types case.failure_type)
    then (insufficient_evidence, unsupported_failure_type)
    else if is_stale config.decision_deadline now case.opened_at
    then (human_review, past_deadline)
    else by_confidence config case case.confidence

unfoldable pub recommend : ExceptionCase → PolicyConfig → ℕ → Recommendation
unfolding choose
recommend case config now =
    let (action, reason) = choose config case now in
    record {
      work_id = case.work_id;
      policy_name = config.name;
      policy_version = config.config_version;
      action = action;
      reason = reason;
    }

-- The flag of the pair that the source returns; its text is left out.
unfoldable pub authorize_retry_cost : Option CostEstimate → ℕ → Bool
authorize_retry_cost none limit = false
authorize_retry_cost (some estimate) limit = not (ltb limit estimate.amount_usd)
