-- ===== src/Recovery/Samples.antt =====
-- Inputs for runs of AP exception recovery.
use inferrail.Common.{◌*◌, [], ◌∷◌, none, some}
use inferrail.Common.Double.{plus}
use inferrail.Common.Money.{usd}
use inferrail.Recovery.Models.{ExceptionCase, RetryAttemptResult, success, human_review, accepted}
use inferrail.Recovery.Policy.{PolicyConfig}
use inferrail.Recovery.Validation.{validate}
use inferrail.Recovery.Store.{OutcomeRow}
use inferrail.Recovery.Engine.{Engine, Inputs}

-- doubles as small numbers of their unit: only their order counts
abbrev pub config : PolicyConfig
config = record {
  eligible_failure_types = "low_confidence" ∷ [];
  retry_floor = plus 30;
  human_review_threshold = plus 80;
  max_retry_cost_usd = 2 * usd;
  decision_deadline = 1000;
  max_retries = 1;
  fallback_action = human_review;
  config_version = "ap.policy/v1";
  name = "candidate_policy";
}

abbrev pub engine : Engine
engine = record {
  config = config;
  worker_id = "worker";
  retry_lease = 120;
  adapter_name = "adapter";
  validate = validate none;
}

abbrev pub case : ExceptionCase
case = record {
  work_id = "invoice";
  checkpoint_attempt_id = "first";
  failure_type = "low_confidence";
  confidence = some (plus 50);
  validation_check_passed = none;
  cost_so_far_usd = some usd;
  opened_at = some 500;
  source = "test";
  extraction_policy_version = none;
}

abbrev pub answer : RetryAttemptResult
answer = record {
  attempt_id = "second";
  status = success;
  cost_usd = some usd;
  confidence = some (plus 90);
  provider = "provider";
  raw_fields = [];
}

abbrev pub inputs : Inputs
inputs = record {
  now = 600;
  at = 600;
  new_id = "1";
  estimate = some record { amount_usd = usd; basis = "catalog" };
  retry_answer = some answer;
  handoff_answer = some "queue/1";
}

-- the adapter raises
abbrev pub failing : Inputs
failing = record inputs { retry_answer = none }

abbrev pub outcome : OutcomeRow
outcome = record {
  work_id = "invoice";
  outcome = accepted;
  timestamp = 900;
  source = "reviewer";
  correction_delta_usd = none;
  review_cost_usd = none;
  recorded_at = 900;
}
