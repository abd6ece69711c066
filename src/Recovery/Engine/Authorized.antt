-- ===== src/Recovery/Engine/Authorized.antt =====
-- What stands before the adapter: decide and _execute_retry of src/inferrail/ap/engine.py.
use inferrail.Common.{
  ℕ, ◌≤◌, ◌≡◌, refl, Option, none, some, inl, inr, arith, Option-cases, Bool-cases,
}
use inferrail.Recovery.Models.{retry, ExceptionCase, Recommendation}
use inferrail.Recovery.Policy.{authorize_retry_cost}
use inferrail.Recovery.Store.{
  Decision, RecoveryStore, get_decision, get_handoff, create_decision, insert_decision, insert_row,
  has_row,
}
use inferrail.Recovery.Engine.{
  Engine, Inputs, Job, Stage, looking, creating, calling, recording_ambiguous, recording,
  recording_late, reading_late, setting, clearing, finding_handoff, sending, recording_handoff,
  replaying, replaying_handoff, ensuring, ensuring_attempt, finished, handed_off, raised,
}
use inferrail.Recovery.Engine.After.{
  after_created, when_created, new_decision, new_decision_id, when_found, when_ambiguous,
  when_recorded, late_answer,
}
use inferrail.Recovery.Engine.Closing.{
  after_cleared, when_handoff, when_handoff_recorded, answer_with, when_ensuring, ensured,
}
use inferrail.Recovery.Engine.Stages.{advance}

-- The stage created the decision of its own job: there was none, and its row is put last.
abbrev pub IsOwnCreation : Engine → Inputs → Stage → RecoveryStore → RecoveryStore → Job → Type 0
IsOwnCreation e i (creating case r) s t job =
    (get_decision case.work_id s ≡ none)
    × (t ≡ record s { decisions = insert_row (new_decision e i case r) s.decisions })
    × (job ≡ record { case = case; decision_id = new_decision_id i; recommendation = r })
IsOwnCreation e i _ s t job = ⊥

-- A job on its way to the adapter has a known cost within the limit, a recommended retry, and a
-- property of its own.
abbrev pub IsAuthorized : ℕ → (Job → Type 0) → Stage → Type 0
IsAuthorized limit Own (calling job (some c)) =
    (c.amount_usd ≤ limit) × (job.recommendation.action ≡ retry) × Own job
IsAuthorized limit Own (calling job none) = ⊥
IsAuthorized limit Own _ = Unit

after_created-IsAuthorized :
    (e : Engine) (i : Inputs) (job : Job) (Own : Job → Type 0)
    → Own job
    → IsAuthorized e.config.max_retry_cost_usd Own (after_created e i job)
unfolding after_created authorize_retry_cost
after_created-IsAuthorized e i job Own own = ground (arith, own, Option-cases i.estimate)

when_created-IsAuthorized :
    (e : Engine) (i : Inputs) (case : ExceptionCase) (r : Recommendation) (s : RecoveryStore)
    (o : Option Decision)
    → get_decision case.work_id s ≡ o
    → let m = when_created e i case r s (insert_decision (new_decision e i case r) o s) in
      IsAuthorized e.config.max_retry_cost_usd
        (IsOwnCreation e i (creating case r) s m.store)
        m.stage
unfolding when_created
when_created-IsAuthorized e i case r s (some row) h = tt
when_created-IsAuthorized e i case r s none h =
    let d = new_decision e i case r in
    let job : Job = record { case = case; decision_id = new_decision_id i; recommendation = r } in
    let t : RecoveryStore = record s { decisions = insert_row d s.decisions } in
    elim (Bool-cases (has_row (λ (x : Decision). x.decision_id) d.decision_id s.decisions)) [
      | inl q ↦ rw q tt
      | inr q ↦ rw q (
          after_created-IsAuthorized e i job (IsOwnCreation e i (creating case r) s t)
            (h, refl, refl))
    ]

-- A call gets to the adapter only by the stage in which it has itself created the decision of the work,
-- where there was none before, with a retry recommended and with a known estimate within the
-- configured limit.
pub adapter-IsAuthorized :
    (e : Engine) (i : Inputs) (stage : Stage) (s : RecoveryStore)
    → let m = advance e i stage s in
      IsAuthorized e.config.max_retry_cost_usd (IsOwnCreation e i stage s m.store) m.stage
unfolding advance create_decision new_decision when_found when_ambiguous when_recorded late_answer
    after_cleared when_handoff when_handoff_recorded answer_with when_ensuring ensured
adapter-IsAuthorized e i (creating case r) s =
    when_created-IsAuthorized e i case r s (get_decision case.work_id s) refl
adapter-IsAuthorized e i (looking case) s =
    ground (arith, Option-cases (get_decision case.work_id s))
adapter-IsAuthorized e i (calling job estimate) s = ground (arith, Option-cases i.retry_answer)
adapter-IsAuthorized e i (recording_ambiguous job) s = ground arith
adapter-IsAuthorized e i (recording job estimate r v) s = ground arith
adapter-IsAuthorized e i (recording_late job r) s = ground arith
adapter-IsAuthorized e i (reading_late job r) s =
    ground (arith, Option-cases (get_decision job.case.work_id s))
adapter-IsAuthorized e i (setting job ending) s = tt
adapter-IsAuthorized e i (clearing job ending) s = ground arith
adapter-IsAuthorized e i (finding_handoff h) s =
    ground (arith, Option-cases (get_handoff h.case.work_id s))
adapter-IsAuthorized e i (sending h) s = ground (arith, Option-cases i.handoff_answer)
adapter-IsAuthorized e i (recording_handoff h ref) s = ground arith
adapter-IsAuthorized e i (replaying row) s = tt
adapter-IsAuthorized e i (replaying_handoff row attempt) s = tt
adapter-IsAuthorized e i (ensuring case) s =
    ground (arith, Option-cases (get_decision case.work_id s))
adapter-IsAuthorized e i (ensuring_attempt case row) s = tt
adapter-IsAuthorized e i (finished r) s = tt
adapter-IsAuthorized e i (handed_off ref) s = tt
adapter-IsAuthorized e i (raised x) s = tt
