-- ===== src/Recovery/Engine/Keeping.antt =====
-- Which works are decided only grows, but for deletions: src/inferrail/ap/engine.py and store.py.
use inferrail.Common.{ℕ, zero, suc, ◌≤◌, ◌≡◌, refl, false, String, List, [], ◌∷◌, any, arith}
use inferrail.Recovery.Store.{
  RecoveryStore, get_decision, create_decision, record_retry_attempt, record_late_retry_result,
  record_handoff,
}
use inferrail.Recovery.Store.Keeps.{
  has_decision-set_decision_status, has_decision-clear_retry_lease, has_decision-reaps,
  has_decision-reports, has_decision-deletes,
}
use inferrail.Recovery.Engine.{
  Engine, Inputs, Stage, looking, creating, calling, recording_ambiguous, recording, recording_late,
  reading_late, setting, clearing, finding_handoff, sending, recording_handoff, replaying,
  replaying_handoff, ensuring, ensuring_attempt, finished, handed_off, raised, status_of,
}
use inferrail.Recovery.Engine.After.{Moved}
use inferrail.Recovery.Engine.Stages.{advance}
use inferrail.Recovery.Engine.System.{
  System, Act, decides, ensures, advances, dies, reaps, reports, deletes, advance_at, act, run,
}
use inferrail.Recovery.Engine.Once.{is_deletion_of, none_of}
use inferrail.Recovery.Engine.Calls.{
  decided, created_counts, ambiguous-Quiet, recorded-Quiet, handoff-Quiet,
}

abbrev pub Keeps : String → RecoveryStore → Moved → Type 0
Keeps w s m = decided w s ≤ decided w m.store

pub advance-Keeps :
    (w : String) (e : Engine) (i : Inputs) (stage : Stage) (s : RecoveryStore)
    → Keeps w s (advance e i stage s)
unfolding advance create_decision record_retry_attempt record_late_retry_result record_handoff
advance-Keeps w e i (looking case) s = omega arith
advance-Keeps w e i (creating case r) s =
    let c = created_counts w e i case r s (get_decision case.work_id s) refl in omega (arith, c.1)
advance-Keeps w e i (calling job estimate) s = omega arith
advance-Keeps w e i (recording_ambiguous job) s = omega (arith, (ambiguous-Quiet w _ job s _ _).2)
advance-Keeps w e i (recording job estimate r v) s =
    omega (arith, (recorded-Quiet w job r v s _ _).2)
advance-Keeps w e i (recording_late job r) s = ground arith
advance-Keeps w e i (reading_late job r) s = omega arith
advance-Keeps w e i (setting job ending) s =
    ground (arith, has_decision-set_decision_status w job.case.work_id (status_of ending) s)
advance-Keeps w e i (clearing job ending) s =
    ground (arith, has_decision-clear_retry_lease w job.case.work_id s)
advance-Keeps w e i (finding_handoff h) s = omega arith
advance-Keeps w e i (sending h) s = omega arith
advance-Keeps w e i (recording_handoff h ref) s = omega (arith, (handoff-Quiet w h s _ _).2)
advance-Keeps w e i (replaying row) s = omega arith
advance-Keeps w e i (replaying_handoff row attempt) s = omega arith
advance-Keeps w e i (ensuring case) s = omega arith
advance-Keeps w e i (ensuring_attempt case row) s = omega arith
advance-Keeps w e i (finished r) s = omega arith
advance-Keeps w e i (handed_off ref) s = omega arith
advance-Keeps w e i (raised x) s = omega arith

advance_at_keeps :
    (w : String) (n : ℕ) (e : Engine) (i : Inputs) (y : System) (stages : List Stage)
    → decided w y.store ≤ decided w (advance_at n e i y stages).store
unfolding advance_at
advance_at_keeps w n e i y [] = omega arith
advance_at_keeps w zero e i y (stage ∷ stages) = advance-Keeps w e i stage y.store
advance_at_keeps w (suc n) e i y (stage ∷ stages) = advance_at_keeps w n e i y stages

-- No act but its deletion takes a decision from the table.
act_keeps :
    (w : String) (a : Act) (y : System)
    → is_deletion_of w a ≡ false
    → decided w y.store ≤ decided w (act a y).store
unfolding act
act_keeps w (decides case) y k = omega arith
act_keeps w (ensures case) y k = omega arith
act_keeps w (advances n e i) y k = advance_at_keeps w n e i y y.calls
act_keeps w (dies n) y k = omega arith
act_keeps w (reaps v ts at) y k = ground (arith, has_decision-reaps w v ts at y.store)
act_keeps w (reports o) y k = ground (arith, has_decision-reports w o y.store)
act_keeps w (deletes v) y k = ground (arith, has_decision-deletes w v y.store k)

pub acts_keep :
    (w : String) (acts : List Act) (y : System)
    → any (is_deletion_of w) acts ≡ false
    → decided w y.store ≤ decided w (run acts y).store
unfolding run
acts_keep w [] y k = omega arith
acts_keep w (a ∷ acts) y k =
    let (first, rest) = none_of (is_deletion_of w a) (any (is_deletion_of w) acts) k in
    omega (arith, act_keeps w a y first, acts_keep w acts (act a y) rest)
