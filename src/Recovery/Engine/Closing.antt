-- ===== src/Recovery/Engine/Closing.antt =====
-- The end of a call, with the handoff, the replay and ensure_handoff: src/inferrail/ap/engine.py.
use inferrail.Common.{
  ℕ, Bool, true, false, String, List, [], ◌∷◌, Option, none, some, if◌then◌else◌,
}
use inferrail.Recovery.Models.{
  AttemptStatus, DecisionStatus, retry_resolved, awaiting_human_review, ExceptionCase,
}
use inferrail.Recovery.Store.{Decision, Attempt, Handoff, RecoveryStore, Attempted, done, raises}
use inferrail.Recovery.Engine.{
  DecisionResult, HistoryEntry, recovered, Job, Ending, with_fields, with_review, Asker,
  decide_call, ensure_call, Handing, store_error, handoff_send_failed, decision_missing,
  no_handoff_due, Stage, finding_handoff, sending, recording_handoff, ensuring_attempt, finished,
  handed_off, raised,
}
use inferrail.Recovery.Engine.After.{Moved, to, result_for}

-- After the status has been set and the lease cleared.
unfoldable pub after_cleared : Job → Ending → Stage
unfolding result_for
after_cleared job (with_fields r) = finished record (result_for job retry_resolved) {
  retry_status = some r.status;
  retry_cost_usd = r.cost_usd;
  raw_fields = r.raw_fields;
}
after_cleared job (with_review status cost history) = finding_handoff record {
  case = job.case;
  recommendation = job.recommendation;
  attempt_history = history;
  asker = decide_call record (result_for job awaiting_human_review) {
    retry_status = status;
    retry_cost_usd = cost;
  };
}

unfoldable pub answer_with : Asker → String → Stage
answer_with (decide_call r) ref = finished record r { handoff_ref = some ref }
answer_with ensure_call ref = handed_off ref

unfoldable pub when_handoff : Handing → Option Handoff → Stage
unfolding answer_with
when_handoff h (some existing) = answer_with h.asker existing.handoff_ref
when_handoff h none = sending h

abbrev pub when_sent : Handing → Option String → Stage
when_sent h none = raised handoff_send_failed
when_sent h (some ref) = recording_handoff h ref

unfoldable pub when_handoff_recorded : Handing → RecoveryStore → Attempted (Handoff × Bool) → Moved
unfolding answer_with
when_handoff_recorded h s (done (row, _) t) = to (answer_with h.asker row.handoff_ref) t
when_handoff_recorded h s (raises x) = to (raised (store_error x)) s

abbrev pub status_of? : Option Attempt → Option AttemptStatus
status_of? none = none
status_of? (some a) = some a.status

abbrev pub cost_of? : Option Attempt → Option ℕ
cost_of? none = none
cost_of? (some a) = a.cost_usd

abbrev pub ref_of? : Option Handoff → Option String
ref_of? none = none
ref_of? (some h) = some h.handoff_ref

unfoldable pub replay : Decision → Option Attempt → Option Handoff → DecisionResult
replay row attempt handoff = record {
  work_id = row.work_id;
  decision_id = row.decision_id;
  recommended_action = row.recommended_action;
  reason = row.reason;
  policy_version = row.policy_version;
  status = row.status;
  idempotent_replay = true;
  retry_status = status_of? attempt;
  retry_cost_usd = cost_of? attempt;
  handoff_ref = ref_of? handoff;
  raw_fields = [];
  late_result_recorded = false;
}

abbrev pub is_awaiting : DecisionStatus → Bool
is_awaiting awaiting_human_review = true
is_awaiting _ = false

unfoldable pub when_ensuring : ExceptionCase → Option Decision → Stage
when_ensuring case none = raised decision_missing
when_ensuring case (some row) =
    if is_awaiting row.status then ensuring_attempt case row else raised no_handoff_due

abbrev pub recovered_history : Option Attempt → List HistoryEntry
recovered_history none = []
recovered_history (some a) =
    record { attempt_id = some a.attempt_id; status = some a.status; detail = recovered } ∷ []

unfoldable pub ensured : ExceptionCase → Decision → Option Attempt → Stage
ensured case row attempt = finding_handoff record {
  case = case;
  recommendation = record {
    work_id = case.work_id;
    policy_name = row.policy_name;
    policy_version = row.policy_version;
    action = row.recommended_action;
    reason = row.reason;
  };
  attempt_history = recovered_history attempt;
  asker = ensure_call;
}
