-- ===== src/Recovery/Validation.antt =====
-- The reference validator: src/inferrail/ap/validation.py.
use inferrail.Common.{Bool, true, false, not, List, [], ◌∷◌, Option, none, some, all}
use inferrail.Common.Double.{Double, double_le}
use inferrail.Recovery.Models.{
  AttemptStatus, success, ambiguous, RetryAttemptResult, CheckResult, ValidationResult,
}

abbrev is_ambiguous : AttemptStatus → Bool
is_ambiguous ambiguous = true
is_ambiguous _ = false

abbrev pub is_success : AttemptStatus → Bool
is_success success = true
is_success _ = false

abbrev reaches : Option Double → Double → Bool
reaches none floor = false
reaches (some c) floor = double_le floor c

abbrev confidence_checks : Option Double → Option Double → List CheckResult
confidence_checks none confidence = []
confidence_checks (some floor) confidence =
    record { name = "confidence_at_or_above_floor"; passed = reaches confidence floor } ∷ []

unfoldable pub validate : Option Double → RetryAttemptResult → ValidationResult
validate min_confidence result =
    let checks =
      record { name = "attempt_status_not_ambiguous"; passed = not (is_ambiguous result.status) }
      ∷ record { name = "attempt_status_success"; passed = is_success result.status }
      ∷ confidence_checks min_confidence result.confidence in
    record {
      passed = all (λ c. c.passed) checks;
      checks = checks;
      validator_version = "ap.validator/v1";
    }
