-- ===== src/Recovery/Engine/Stages.antt =====
-- One stage of a call: decide, _execute_retry, _do_handoff, _replay and ensure_handoff of
-- src/inferrail/ap/engine.py.
use inferrail.Common.{[], ◌∷◌}
use inferrail.Recovery.Store.{
  RecoveryStore, get_decision, get_retry_attempt, get_handoff, create_decision, set_decision_status,
  clear_retry_lease, record_retry_attempt, record_late_retry_result, record_handoff,
}
use inferrail.Recovery.Engine.{
  Engine, Inputs, status_of, Stage, looking, creating, calling, recording_ambiguous, recording,
  recording_late, reading_late, setting, clearing, finding_handoff, sending, recording_handoff,
  replaying, replaying_handoff, ensuring, ensuring_attempt, finished, handed_off, raised,
  calls_adapter, sends_handoff,
}
use inferrail.Recovery.Engine.After.{
  Moved, to, new_decision, when_created, when_found, answered, when_ambiguous, ambiguous_attempt,
  attempt_of, when_recorded, late_result, when_late, late_answer,
}
use inferrail.Recovery.Engine.Closing.{
  after_cleared, when_handoff, when_sent, when_handoff_recorded, replay, when_ensuring, ensured,
}

-- One stage. A call that is over stays so.
unfoldable pub advance : Engine → Inputs → Stage → RecoveryStore → Moved
unfolding when_found when_created new_decision create_decision get_decision get_retry_attempt
    get_handoff when_ambiguous ambiguous_attempt record_retry_attempt attempt_of when_recorded
    late_result record_late_retry_result late_answer set_decision_status clear_retry_lease
    after_cleared when_handoff record_handoff when_handoff_recorded replay when_ensuring ensured
advance e i (looking case) s = to (when_found e i case (get_decision case.work_id s)) s
advance e i (creating case r) s =
    when_created e i case r s (create_decision (new_decision e i case r) s)
advance e i (calling job estimate) s = record {
  stage = answered e job estimate i.retry_answer;
  store = s;
  effects = calls_adapter job.case.work_id ∷ [];
}
advance e i (recording_ambiguous job) s =
    let a = ambiguous_attempt e i job in
    when_ambiguous a.attempt_id job s (record_retry_attempt a s)
advance e i (recording job estimate r v) s =
    when_recorded job r v s (record_retry_attempt (attempt_of i job estimate r v) s)
advance e i (recording_late job r) s =
    when_late job r s (record_late_retry_result (late_result i job r) s)
advance e i (reading_late job r) s = to (late_answer job r (get_decision job.case.work_id s)) s
advance e i (setting job ending) s =
    to (clearing job ending) (set_decision_status job.case.work_id (status_of ending) s)
advance e i (clearing job ending) s =
    to (after_cleared job ending) (clear_retry_lease job.case.work_id s)
advance e i (finding_handoff h) s = to (when_handoff h (get_handoff h.case.work_id s)) s
advance e i (sending h) s = record {
  stage = when_sent h i.handoff_answer;
  store = s;
  effects = sends_handoff h.case.work_id ∷ [];
}
advance e i (recording_handoff h ref) s =
    when_handoff_recorded h s
      (record_handoff record { work_id = h.case.work_id; handoff_ref = ref; created_at = i.at } s)
advance e i (replaying row) s = to (replaying_handoff row (get_retry_attempt row.work_id s)) s
advance e i (replaying_handoff row attempt) s =
    to (finished (replay row attempt (get_handoff row.work_id s))) s
advance e i (ensuring case) s = to (when_ensuring case (get_decision case.work_id s)) s
advance e i (ensuring_attempt case row) s =
    to (ensured case row (get_retry_attempt case.work_id s)) s
advance e i (finished r) s = to (finished r) s
advance e i (handed_off ref) s = to (handed_off ref) s
advance e i (raised x) s = to (raised x) s
