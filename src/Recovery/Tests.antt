-- ===== src/Recovery/Tests.antt =====
-- Runs of AP exception recovery, and each theorem at a run.
use inferrail.Common.{
  ◌*◌, ◌≤◌, ◌≡◌, ◌↔◌, refl, true, String, List, [], ◌∷◌, Option, none, some, same_text, arith,
}
use inferrail.Common.Double.{in_unit}
use inferrail.Common.Money.{usd}
use inferrail.Recovery.Models.{
  retry, DecisionStatus, retry_resolved, awaiting_human_review, resolved,
}
use inferrail.Recovery.Policy.{
  config_ok, recommend, choose, by_confidence, by_band, is_stale, check_missing,
  authorize_retry_cost,
}
use inferrail.Recovery.Policy.Band.{recommend-retry_iff, IsRetryable}
use inferrail.Recovery.Validation.{validate}
use inferrail.Recovery.Store.{
  RecoveryStore, find_row, get_decision, get_retry_attempt, get_handoff, create_decision,
  record_retry_attempt, record_late_retry_result, record_handoff, record_outcome,
  set_decision_status, clear_retry_lease, delete_work_id,
}
use inferrail.Recovery.Store.Reaping.{
  reap_stale_retry_lease, reap_decision, reap_attempt, reaped_attempt, reaped_id, close_decision,
  reap_each, reaped_row, reconciled_status, is_stale_lease, reap_stale_retries,
  find_stale_retry_leases,
}
use inferrail.Recovery.Engine.{Stage, looking, creating}
use inferrail.Recovery.Engine.After.{
  when_found, when_created, after_created, new_decision, result_for, when_ambiguous,
  ambiguous_ending, ambiguous_attempt, attempt_of, ending_of, when_recorded, late_result,
  late_answer,
}
use inferrail.Recovery.Engine.Closing.{
  after_cleared, answer_with, when_handoff, when_handoff_recorded, replay, when_ensuring, ensured,
}
use inferrail.Recovery.Engine.Stages.{advance}
use inferrail.Recovery.Engine.System.{
  System, Act, decides, advances, dies, reaps, reports, initial, run, act, advance_at, remove_at,
  new_store,
}
use inferrail.Recovery.Engine.Progress.{Round, drive, drive_ends, is_over}
use inferrail.Recovery.Engine.Calls.{adapter_calls}
use inferrail.Recovery.Engine.Once.{called_at_most_once}
use inferrail.Recovery.Engine.Attempts.{attempts_of, at_most_one_attempt}
use inferrail.Recovery.Engine.Authorized.{IsAuthorized, IsOwnCreation, adapter-IsAuthorized}
use inferrail.Recovery.Engine.Decide.{decide, run_stages, decide_replays, Replayed}
use inferrail.Recovery.Samples.{config, engine, case, inputs, failing, outcome}

computing : Unit {0}
unfolding run act advance_at remove_at advance drive run_stages decide recommend choose
    by_confidence by_band is_stale check_missing authorize_retry_cost in_unit config_ok validate
    find_row get_decision get_retry_attempt get_handoff create_decision record_retry_attempt
    record_late_retry_result record_handoff record_outcome set_decision_status clear_retry_lease
    delete_work_id reap_stale_retry_lease reap_decision reap_attempt reaped_attempt reaped_id
    reap_stale_retries reap_each reaped_row find_stale_retry_leases close_decision reconciled_status
    is_stale_lease when_found when_created after_created new_decision result_for when_ambiguous
    ambiguous_ending ambiguous_attempt attempt_of ending_of when_recorded late_result late_answer
    after_cleared answer_with when_handoff when_handoff_recorded replay when_ensuring ensured
    same_text
computing = tt

abbrev status_in : String → RecoveryStore → Option DecisionStatus
status_in w s = elim (get_decision w s) [ none ↦ none | some d ↦ some d.status ]

-- a retry that passes its validation resolves the case without a handoff
retry_resolves :
    status_in "invoice" (decide engine inputs case new_store).store ≡ some retry_resolved
unfolding computing
retry_resolves = refl

-- Two processes decide the same case, one gets to the adapter and dies there, its lease is reaped
-- and a reviewer reports an outcome.
abbrev story : List Act
story =
    decides case
    ∷ decides case
    ∷ advances 0 engine inputs
    ∷ advances 1 engine inputs
    ∷ advances 1 engine inputs
    ∷ advances 0 engine inputs
    ∷ advances 1 engine failing
    ∷ reaps "invoice" 1000 1000
    ∷ reports outcome
    ∷ []

abbrev called : System
called = run story initial

resolved_first : status_in "invoice" called.store ≡ some resolved
unfolding computing
resolved_first = refl

-- The process that seemed dead goes on: its adapter has raised, and it sets the status back.
reopened :
    status_in "invoice"
      (run (advances 1 engine failing ∷ advances 1 engine failing ∷ []) called).store
    ≡ some awaiting_human_review
unfolding computing
reopened = refl

called_at_most_once_example : adapter_calls "invoice" (run story initial).effects ≤ 1
called_at_most_once_example = called_at_most_once "invoice" story refl

at_most_one_attempt_example : attempts_of "invoice" (run story initial).store ≤ 1
at_most_one_attempt_example = at_most_one_attempt "invoice" story

abbrev alone : Round
alone = record { engine = engine; inputs = failing; others = λ s. s }

abbrev rounds : List Round
rounds = alone ∷ alone ∷ alone ∷ alone ∷ alone ∷ alone ∷ alone ∷ alone ∷ alone ∷ []

drive_ends_example : is_over (drive rounds (looking case) new_store).0 ≡ true
drive_ends_example = drive_ends rounds (looking case) new_store (omega arith)

abbrev decided_system : System
decided_system = record {
  store = (decide engine inputs case new_store).store;
  calls = [];
  effects = [];
}

-- another call that dies after a stage, and a reported outcome
abbrev later : List Act
later = decides case ∷ advances 0 engine failing ∷ dies 0 ∷ reports outcome ∷ []

decide_replays_example :
    Replayed case
      (run later decided_system).store
      (decide engine failing case (run later decided_system).store)
unfolding computing
decide_replays_example =
    decide_replays engine inputs case new_store _ refl decided_system refl later refl engine failing
      case refl

recommend-retry_iff_example :
    ((recommend case config 600).action ≡ retry) ↔ IsRetryable config case 600
recommend-retry_iff_example = recommend-retry_iff case config 600

abbrev creating_stage : Stage
creating_stage = creating case (recommend case config 600)

adapter-IsAuthorized_example :
    IsAuthorized
      (2 * usd)
      (IsOwnCreation engine inputs creating_stage new_store
        (advance engine inputs creating_stage new_store).store)
      (advance engine inputs creating_stage new_store).stage
adapter-IsAuthorized_example = adapter-IsAuthorized engine inputs creating_stage new_store
