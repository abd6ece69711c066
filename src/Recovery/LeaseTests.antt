-- ===== src/Recovery/LeaseTests.antt =====
-- Runs in which a lease runs out, and the theorems on leases at a run.
use inferrail.Common.{◌≡◌, refl, List, [], ◌∷◌, none, same_text, arith, Bool-cases, inl, inr}
use inferrail.Common.Double.{in_unit}
use inferrail.Recovery.Models.{awaiting_human_review}
use inferrail.Recovery.Policy.{
  config_ok, recommend, choose, by_confidence, by_band, is_stale, check_missing,
  authorize_retry_cost,
}
use inferrail.Recovery.Validation.{validate}
use inferrail.Recovery.Store.{
  Decision, RecoveryStore, done, find_row, get_decision, get_retry_attempt, get_handoff,
  create_decision, record_retry_attempt, record_late_retry_result, record_handoff, record_outcome,
  set_decision_status, clear_retry_lease, delete_work_id,
}
use inferrail.Recovery.Store.Reaping.{
  reap_stale_retry_lease, reap_decision, reap_attempt, reaped_attempt, reaped_id, close_decision,
  reap_each, reaped_row, reconciled_status, is_stale_lease, Reaped, reap_stale_retries,
  find_stale_retry_leases, ReapedRow,
}
use inferrail.Recovery.Store.Stale.{HasKey, KeepsIds}
use inferrail.Recovery.Store.Sweep.{sweep_clears}
use inferrail.Recovery.Store.Unstuck.{stale-IsClosed, IsClosed, due_status}
use inferrail.Recovery.Engine.{looking}
use inferrail.Recovery.Engine.After.{
  when_found, when_created, after_created, new_decision, result_for, when_ambiguous,
  ambiguous_ending, ambiguous_attempt, attempt_of, ending_of, when_recorded, late_result,
  late_answer,
}
use inferrail.Recovery.Engine.Closing.{
  after_cleared, answer_with, when_handoff, when_handoff_recorded, replay, when_ensuring, ensured,
}
use inferrail.Recovery.Engine.Stages.{advance}
use inferrail.Recovery.Engine.System.{run, act, advance_at, remove_at, new_store}
use inferrail.Recovery.Engine.Progress.{drive}
use inferrail.Recovery.Engine.Decide.{decide, run_stages}
use inferrail.Recovery.Samples.{config, engine, case, inputs}

computing : Unit {0}
unfolding run act advance_at remove_at advance drive run_stages decide recommend choose
    by_confidence by_band is_stale check_missing authorize_retry_cost in_unit config_ok validate
    find_row get_decision get_retry_attempt get_handoff create_decision record_retry_attempt
    record_late_retry_result record_handoff record_outcome set_decision_status clear_retry_lease
    delete_work_id reap_stale_retry_lease reap_decision reap_attempt reaped_attempt reaped_id
    reap_stale_retries reap_each reaped_row find_stale_retry_leases close_decision reconciled_status
    is_stale_lease when_found when_created after_created new_decision result_for when_ambiguous
    ambiguous_ending ambiguous_attempt attempt_of ending_of when_recorded late_result late_answer
    after_cleared answer_with when_handoff when_handoff_recorded replay when_ensuring ensured
    same_text
computing = tt

-- the tables when the adapter is called
abbrev leased : RecoveryStore
leased = (run_stages 2 engine inputs (looking case) new_store).store

abbrev leased_decision : Decision
leased_decision = new_decision engine inputs case (recommend case config 600)

stale-IsClosed_example :
    (r : Reaped) × (t : RecoveryStore) × (reap_stale_retry_lease "invoice" 1000 1000 leased
      ≡ done r t)
    × IsClosed "invoice" (due_status (get_retry_attempt "invoice" leased)) t
unfolding computing
stale-IsClosed_example = stale-IsClosed "invoice" 1000 1000 leased leased_decision refl refl refl

-- the tables of a process that died during its call of the adapter
abbrev crashed : RecoveryStore
crashed = record new_store { decisions = leased_decision ∷ [] }

crashed-HasKey : HasKey crashed
crashed-HasKey w = elim (Bool-cases (same_text leased_decision.work_id w)) [
  | inl q ↦ rw q (omega arith)
  | inr q ↦ rw q (omega arith)
]

crashed-KeepsIds : KeepsIds crashed
crashed-KeepsIds w h = h

sweep_clears_example :
    (rows : List ReapedRow) × (t : RecoveryStore) × (reap_stale_retries 1000 1000 crashed
      ≡ record { answer = inr rows; store = t })
    × (find_stale_retry_leases 1000 t ≡ [])
sweep_clears_example = sweep_clears 1000 1000 crashed crashed-HasKey crashed-KeepsIds

abbrev closed_decision : Decision
closed_decision = record leased_decision {
  status = awaiting_human_review;
  worker_id = none;
  lease_expires_at = none;
}

sweeps_one : (reap_stale_retries 1000 1000 crashed).store.decisions ≡ closed_decision ∷ []
unfolding computing
sweeps_one = refl
