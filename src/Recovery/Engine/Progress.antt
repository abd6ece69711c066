-- ===== src/Recovery/Engine/Progress.antt =====
-- A call of src/inferrail/ap/engine.py comes to an end, whatever other processes do meanwhile.
use inferrail.Common.{
  ℕ, ◌-◌, ◌≤◌, ◌≡◌, Bool, true, false, List, [], ◌∷◌, Option, none, some, length, arith,
  Option-cases,
}
use inferrail.Recovery.Models.{ExceptionCase, RetryAttemptResult, ValidationResult, Recommendation}
use inferrail.Recovery.Store.{
  RecoveryStore, Attempted, done, raises, Decision, Attempt, Handoff, get_decision, get_handoff,
}
use inferrail.Recovery.Engine.{
  Engine, Inputs, Job, Ending, Asker, Handing, Stage, looking, creating, calling,
  recording_ambiguous, recording, recording_late, reading_late, setting, clearing, finding_handoff,
  sending, recording_handoff, replaying, replaying_handoff, ensuring, ensuring_attempt, finished,
  handed_off, raised,
}
use inferrail.Recovery.Engine.After.{
  when_found, when_created, after_created, when_ambiguous, when_recorded, late_answer,
}
use inferrail.Recovery.Engine.Closing.{
  after_cleared, when_handoff, when_handoff_recorded, answer_with, when_ensuring, ensured,
}
use inferrail.Recovery.Engine.Stages.{advance}

-- how many stages a call has before it at most
abbrev pub rank : Stage → ℕ
rank (looking _) = 9
rank (creating _ _) = 8
rank (calling _ _) = 7
rank (recording_ambiguous _) = 6
rank (recording _ _ _ _) = 6
rank (recording_late _ _) = 2
rank (reading_late _ _) = 1
rank (setting _ _) = 5
rank (clearing _ _) = 4
rank (finding_handoff _) = 3
rank (sending _) = 2
rank (recording_handoff _ _) = 1
rank (replaying _) = 2
rank (replaying_handoff _ _) = 1
rank (ensuring _) = 5
rank (ensuring_attempt _ _) = 4
rank (finished _) = 0
rank (handed_off _) = 0
rank (raised _) = 0

abbrev pub is_over : Stage → Bool
is_over (finished _) = true
is_over (handed_off _) = true
is_over (raised _) = true
is_over _ = false

rank-when_created :
    (e : Engine) (i : Inputs) (case : ExceptionCase) (r : Recommendation) (s : RecoveryStore)
    (a : Attempted (Decision × Bool))
    → rank (when_created e i case r s a).stage ≤ 7
unfolding when_created after_created
rank-when_created e i case r s a = ground (arith)

rank-when_ambiguous :
    (id : _) (job : Job) (s : RecoveryStore) (a : Attempted (Attempt × Bool))
    → rank (when_ambiguous id job s a).stage ≤ 5
unfolding when_ambiguous
rank-when_ambiguous id job s a = ground (arith)

rank-when_recorded :
    (job : Job) (r : RetryAttemptResult) (v : ValidationResult) (s : RecoveryStore)
    (a : Attempted (Attempt × Bool))
    → rank (when_recorded job r v s a).stage ≤ 5
unfolding when_recorded
rank-when_recorded job r v s a = ground (arith)

rank-answer_with : (a : Asker) (ref : _) → rank (answer_with a ref) ≤ 0
unfolding answer_with
rank-answer_with a ref = ground (arith)

rank-when_handoff : (h : Handing) (o : Option Handoff) → rank (when_handoff h o) ≤ 2
unfolding when_handoff
rank-when_handoff h none = omega arith
rank-when_handoff h (some x) = omega (arith, rank-answer_with h.asker x.handoff_ref)

rank-when_handoff_recorded :
    (h : Handing) (s : RecoveryStore) (a : Attempted (Handoff × Bool))
    → rank (when_handoff_recorded h s a).stage ≤ 0
unfolding when_handoff_recorded
rank-when_handoff_recorded h s (done (row, new) t) = rank-answer_with h.asker row.handoff_ref
rank-when_handoff_recorded h s (raises x) = omega arith

rank-after_cleared : (job : Job) (ending : Ending) → rank (after_cleared job ending) ≤ 3
unfolding after_cleared
rank-after_cleared job ending = ground (arith)

-- every stage comes nearer to the end
rank-advance :
    (e : Engine) (i : Inputs) (stage : Stage) (s : RecoveryStore)
    → rank (advance e i stage s).stage ≤ rank stage - 1
unfolding advance when_found late_answer when_ensuring ensured
rank-advance e i (looking case) s = ground (arith, Option-cases (get_decision case.work_id s))
rank-advance e i (creating case r) s = rank-when_created e i case r s _
rank-advance e i (calling job estimate) s = ground (arith, Option-cases i.retry_answer)
rank-advance e i (recording_ambiguous job) s = rank-when_ambiguous _ job s _
rank-advance e i (recording job estimate r v) s = rank-when_recorded job r v s _
rank-advance e i (recording_late job r) s = ground arith
rank-advance e i (reading_late job r) s =
    ground (arith, Option-cases (get_decision job.case.work_id s))
rank-advance e i (setting job ending) s = omega arith
rank-advance e i (clearing job ending) s = rank-after_cleared job ending
rank-advance e i (finding_handoff h) s = rank-when_handoff h (get_handoff h.case.work_id s)
rank-advance e i (sending h) s = ground (arith, Option-cases i.handoff_answer)
rank-advance e i (recording_handoff h ref) s = rank-when_handoff_recorded h s _
rank-advance e i (replaying row) s = omega arith
rank-advance e i (replaying_handoff row attempt) s = omega arith
rank-advance e i (ensuring case) s = ground (arith, Option-cases (get_decision case.work_id s))
rank-advance e i (ensuring_attempt case row) s = omega arith
rank-advance e i (finished r) s = omega arith
rank-advance e i (handed_off ref) s = omega arith
rank-advance e i (raised x) s = omega arith

-- One stage of a call, after whatever other processes have done to the tables since the last one.
pub record Round : Type 0 where
  pub engine : Engine
  pub inputs : Inputs
  pub others : RecoveryStore → RecoveryStore

unfoldable pub drive : List Round → Stage → RecoveryStore → Stage × RecoveryStore
unfolding advance
drive [] stage s = (stage, s)
drive (r ∷ rs) stage s =
    let m = advance r.engine r.inputs stage (r.others s) in drive rs m.stage m.store

rank-drive :
    (rs : List Round) (stage : Stage) (s : RecoveryStore)
    → rank (drive rs stage s).0 ≤ rank stage - length rs
unfolding drive
rank-drive [] stage s = omega arith
rank-drive (r ∷ rs) stage s =
    let m = advance r.engine r.inputs stage (r.others s) in
    omega (arith, rank-advance r.engine r.inputs stage (r.others s), rank-drive rs m.stage m.store)

over_at_zero : (stage : Stage) → rank stage ≤ 0 → is_over stage ≡ true
over_at_zero stage h = ground (arith, h)

rank_at_most : (stage : Stage) → rank stage ≤ 9
rank_at_most stage = ground arith

-- After nine of its own stages any call of `decide` or `ensure_handoff` is over, with a result or an
-- error, whatever other processes do to the tables between the stages and whatever the adapter and
-- the handoff answer.
pub drive_ends :
    (rs : List Round) (stage : Stage) (s : RecoveryStore)
    → 9 ≤ length rs
    → is_over (drive rs stage s).0 ≡ true
drive_ends rs stage s h =
    over_at_zero (drive rs stage s).0 (omega (arith, rank-drive rs stage s, rank_at_most stage))
