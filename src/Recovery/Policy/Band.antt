-- ===== src/Recovery/Policy/Band.antt =====
-- When the policy of src/inferrail/ap/policy.py recommends a retry.
use inferrail.Common.{
  ℕ, ◌+◌, ◌≤◌, ◌≡◌, ◌↔◌, true, false, none, some, any, same_text, arith, same_text_iff,
  Option-cases, Option,
}
use inferrail.Common.Double.{Double, double_le, double_lt}
use inferrail.Recovery.Models.{ExceptionCase, retry, failure_type_value, validation_check_failed}
use inferrail.Recovery.Policy.{
  PolicyConfig, recommend, choose, by_confidence, by_band, is_stale, check_missing,
}

-- The confidence lies in the band, NaN excluded.
abbrev InBand : PolicyConfig → Option Double → Type 0
InBand config none = ⊥
InBand config (some c) =
    (double_le config.retry_floor c ≡ true) × (double_lt c config.human_review_threshold ≡ true)

abbrev IsFresh : ℕ → ℕ → Option ℕ → Type 0
IsFresh deadline now none = Unit
IsFresh deadline now (some opened) = now ≤ opened + deadline

abbrev IsAffordable : ℕ → Option ℕ → Type 0
IsAffordable limit none = Unit
IsAffordable limit (some cost) = cost ≤ limit

abbrev IsChecked : ExceptionCase → Type 0
IsChecked case =
    case.failure_type ≡ failure_type_value validation_check_failed
    → case.validation_check_passed ≡ some false

abbrev pub IsRetryable : PolicyConfig → ExceptionCase → ℕ → Type 0
IsRetryable config case now =
    (any (same_text case.failure_type) config.eligible_failure_types ≡ true)
    × IsFresh config.decision_deadline now case.opened_at
    × InBand config case.confidence
    × IsChecked case
    × IsAffordable config.max_retry_cost_usd case.cost_so_far_usd

-- A retry is recommended exactly for a case of an eligible failure type, within the deadline if its
-- opening time is known, with a confidence at or above the floor and below the threshold, with
-- a check recorded as failed if that is its failure type, and with a cost so far, if known, at most
-- the limit.
pub recommend-retry_iff :
    (case : ExceptionCase) (config : PolicyConfig) (now : ℕ)
    → ((recommend case config now).action ≡ retry) ↔ IsRetryable config case now
unfolding recommend choose is_stale check_missing by_confidence by_band
recommend-retry_iff case config now = ground (
  arith,
  same_text_iff case.failure_type (failure_type_value validation_check_failed),
  Option-cases case.opened_at,
  Option-cases case.confidence,
  Option-cases case.cost_so_far_usd,
)
