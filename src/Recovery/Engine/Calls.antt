-- ===== src/Recovery/Engine/Calls.antt =====
-- How often the customer's adapter is called: src/inferrail/ap/engine.py over all interleavings.
use inferrail.Common.{
  ℕ, ◌+◌, ◌≤◌, ◌≡◌, refl, subst, Bool, true, false, String, List, [], ◌∷◌, ◌++◌, Option, none, some,
  if◌then◌else◌, same_text, same_text_iff, arith, Option-cases,
}
use inferrail.Recovery.Models.{ExceptionCase, Recommendation, RetryAttemptResult, ValidationResult}
use inferrail.Recovery.Store.{
  Decision, Attempt, Handoff, insert_attempt, insert_handoff, get_handoff, RecoveryStore,
  has_decision, insert_decision, get_decision, create_decision, record_retry_attempt,
  record_late_retry_result, record_handoff,
}
use inferrail.Recovery.Store.Keeps.{
  has_decision-set_decision_status, has_decision-clear_retry_lease,
}
use inferrail.Recovery.Store.Rows.{has_row-insert_row, find_row-none}
use inferrail.Recovery.Engine.{
  Engine, Inputs, Job, Stage, looking, creating, calling, recording_ambiguous, recording,
  recording_late, reading_late, setting, clearing, finding_handoff, sending, recording_handoff,
  replaying, replaying_handoff, ensuring, ensuring_attempt, finished, handed_off, raised, Effect,
  calls_adapter, sends_handoff, Ending, status_of, Asker, Handing,
}
use inferrail.Recovery.Engine.After.{
  Moved, when_created, after_created, new_decision, new_decision_id, when_ambiguous, when_recorded,
  when_found, late_answer,
}
use inferrail.Recovery.Engine.Closing.{
  when_handoff, when_handoff_recorded, answer_with, after_cleared, when_ensuring, ensured,
}
use inferrail.Recovery.Engine.Stages.{advance}

abbrev is_call_for : String → Effect → Bool
is_call_for w (calls_adapter v) = same_text v w
is_call_for w (sends_handoff v) = false

-- how often the adapter has been called for a work
abbrev pub adapter_calls : String → List Effect → ℕ
adapter_calls w [] = 0
adapter_calls w (f ∷ fs) = (if is_call_for w f then 1 else 0) + adapter_calls w fs

abbrev is_about_to : String → Stage → Bool
is_about_to w (calling job estimate) = same_text job.case.work_id w
is_about_to w _ = false

-- the calls that stand before the adapter
abbrev pub about_to : String → List Stage → ℕ
about_to w [] = 0
about_to w (stage ∷ stages) = (if is_about_to w stage then 1 else 0) + about_to w stages

abbrev pub decided : String → RecoveryStore → ℕ
decided w s = if has_decision w s then 1 else 0

pub adapter_calls-append :
    (w : String) (fs gs : List Effect)
    → adapter_calls w (fs ++ gs) ≡ adapter_calls w fs + adapter_calls w gs
adapter_calls-append w [] gs = omega arith
adapter_calls-append w (f ∷ fs) gs = ground (arith, adapter_calls-append w fs gs)

about_to-after_created :
    (w : String) (e : Engine) (i : Inputs) (job : Job)
    → about_to w (after_created e i job ∷ []) ≤ (if same_text job.case.work_id w then 1 else 0)
unfolding after_created
about_to-after_created w e i job = ground arith

-- no decision of the work of `case` stands for `w`, if that is the same work
absent_at :
    (w v : String) (s : RecoveryStore)
    → get_decision v s ≡ none
    → same_text v w ≡ true
    → has_decision w s ≡ false
unfolding get_decision
absent_at w v s h q =
    subst (λ z. has_decision z s ≡ false) ((same_text_iff v w).0 q)
      (find_row-none (λ (d : Decision). d.work_id) v s.decisions h)

-- Creating a decision uses up the one call of its work.
pub created_counts :
    (w : String) (e : Engine) (i : Inputs) (case : ExceptionCase) (r : Recommendation)
    (s : RecoveryStore) (o : Option Decision)
    → get_decision case.work_id s ≡ o
    → let m = when_created e i case r s (insert_decision (new_decision e i case r) o s) in
      (adapter_calls w m.effects ≡ 0)
      × (about_to w (m.stage ∷ []) + decided w s ≤ decided w m.store)
unfolding when_created new_decision
created_counts w e i case r s (some row) h = ground arith
created_counts w e i case r s none h = ground (
  arith,
  about_to-after_created w e i
      record { case = case; decision_id = new_decision_id i; recommendation = r },
  has_row-insert_row (λ (d : Decision). d.work_id) w (new_decision e i case r) s.decisions,
  absent_at w case.work_id s h,
)

-- A stage that is not before the adapter, does not call it and keeps which works are decided.
abbrev Quiet : String → RecoveryStore → Moved → Type 0
Quiet w s m =
    (adapter_calls w m.effects ≡ 0)
    × (about_to w (m.stage ∷ []) ≡ 0)
    × (decided w m.store ≡ decided w s)

pub ambiguous-Quiet :
    (w id : String) (job : Job) (s : RecoveryStore) (a : Attempt) (o : Option Attempt)
    → Quiet w s (when_ambiguous id job s (insert_attempt a o s))
unfolding when_ambiguous
ambiguous-Quiet w id job s a o = ground arith

pub recorded-Quiet :
    (w : String) (job : Job) (r : RetryAttemptResult) (v : ValidationResult) (s : RecoveryStore)
    (a : Attempt) (o : Option Attempt)
    → Quiet w s (when_recorded job r v s (insert_attempt a o s))
unfolding when_recorded
recorded-Quiet w job r v s a o = ground arith

answer_quiet : (w : String) (a : Asker) (ref : String) → about_to w (answer_with a ref ∷ []) ≡ 0
unfolding answer_with
answer_quiet w a ref = ground arith

pub handoff-Quiet :
    (w : String) (h : Handing) (s : RecoveryStore) (row : Handoff) (o : Option Handoff)
    → Quiet w s (when_handoff_recorded h s (insert_handoff row o s))
unfolding when_handoff_recorded
handoff-Quiet w h s row (some existing) = (refl, answer_quiet w h.asker existing.handoff_ref, refl)
handoff-Quiet w h s row none = ground (arith, answer_quiet w h.asker row.handoff_ref)

found_quiet :
    (w : String) (h : Handing) (o : Option Handoff) → about_to w (when_handoff h o ∷ []) ≡ 0
unfolding when_handoff
found_quiet w h none = refl
found_quiet w h (some row) = answer_quiet w h.asker row.handoff_ref

cleared_quiet :
    (w : String) (job : Job) (ending : Ending) → about_to w (after_cleared job ending ∷ []) ≡ 0
unfolding after_cleared
cleared_quiet w job ending = ground arith

-- Over one stage, calls made and calls to come grow by no more than decisions do.
abbrev pub Counts : String → Stage → RecoveryStore → Moved → Type 0
Counts w stage s m =
    adapter_calls w m.effects + about_to w (m.stage ∷ []) + decided w s
    ≤ about_to w (stage ∷ []) + decided w m.store

of_Quiet :
    (w : String) (stage : Stage) (s : RecoveryStore) (m : Moved) → Quiet w s m → Counts w stage s m
of_Quiet w stage s m q = omega (arith, q.0, q.1, q.2)

pub advance-Counts :
    (w : String) (e : Engine) (i : Inputs) (stage : Stage) (s : RecoveryStore)
    → Counts w stage s (advance e i stage s)
unfolding advance when_found create_decision record_retry_attempt record_late_retry_result
    record_handoff late_answer when_ensuring ensured
advance-Counts w e i (looking case) s = ground (arith, Option-cases (get_decision case.work_id s))
advance-Counts w e i (creating case r) s =
    let c = created_counts w e i case r s (get_decision case.work_id s) refl in
    omega (arith, c.0, c.1)
advance-Counts w e i (calling job estimate) s = ground (arith, Option-cases i.retry_answer)
advance-Counts w e i (recording_ambiguous job) s =
    of_Quiet w (recording_ambiguous job) s (advance e i (recording_ambiguous job) s)
      (ambiguous-Quiet w _ job s _ _)
advance-Counts w e i (recording job estimate r v) s =
    of_Quiet w (recording job estimate r v) s (advance e i (recording job estimate r v) s)
      (recorded-Quiet w job r v s _ _)
advance-Counts w e i (recording_late job r) s = ground arith
advance-Counts w e i (reading_late job r) s =
    ground (arith, Option-cases (get_decision job.case.work_id s))
advance-Counts w e i (setting job ending) s =
    ground (arith, has_decision-set_decision_status w job.case.work_id (status_of ending) s)
advance-Counts w e i (clearing job ending) s =
    ground (arith, has_decision-clear_retry_lease w job.case.work_id s, cleared_quiet w job ending)
advance-Counts w e i (finding_handoff h) s =
    ground (arith, found_quiet w h (get_handoff h.case.work_id s))
advance-Counts w e i (sending h) s = ground (arith, Option-cases i.handoff_answer)
advance-Counts w e i (recording_handoff h ref) s =
    of_Quiet w (recording_handoff h ref) s (advance e i (recording_handoff h ref) s)
      (handoff-Quiet w h s _ _)
advance-Counts w e i (replaying row) s = omega arith
advance-Counts w e i (replaying_handoff row attempt) s = omega arith
advance-Counts w e i (ensuring case) s = ground (arith, Option-cases (get_decision case.work_id s))
advance-Counts w e i (ensuring_attempt case row) s = omega arith
advance-Counts w e i (finished r) s = omega arith
advance-Counts w e i (handed_off ref) s = omega arith
advance-Counts w e i (raised x) s = omega arith
