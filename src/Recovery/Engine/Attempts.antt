-- ===== src/Recovery/Engine/Attempts.antt =====
-- How many attempts of a work are recorded: src/inferrail/ap/store.py and engine.py over all
-- interleavings.
use inferrail.Common.{
  ℕ, zero, suc, ◌≤◌, ◌≡◌, refl, sym, subst, Bool, true, false, String, List, [], ◌∷◌, Option, none,
  some, same_text, same_text_iff, arith, Option-cases, Bool-cases, inl, inr,
}
use inferrail.Recovery.Models.{RetryAttemptResult, ValidationResult}
use inferrail.Recovery.Store.{
  Decision, Attempt, Handoff, RecoveryStore, Attempted, store_after, insert_attempt, insert_handoff,
  has_attempt, get_decision, get_retry_attempt, find_row, insert_row, create_decision,
  record_retry_attempt, record_late_retry_result, record_handoff, record_outcome,
  set_decision_status, clear_retry_lease, delete_work_id,
}
use inferrail.Recovery.Store.Rows.{
  count_rows, count_rows-insert_row, count_rows-absent, count_rows-without, find_row-none,
}
use inferrail.Recovery.Store.Reaping.{
  reap_stale_retry_lease, reap_decision, reap_attempt, reaped_attempt,
}
use inferrail.Recovery.Engine.{
  Engine, Inputs, Job, Handing, Stage, looking, creating, calling, recording_ambiguous, recording,
  recording_late, reading_late, setting, clearing, finding_handoff, sending, recording_handoff,
  replaying, replaying_handoff, ensuring, ensuring_attempt, finished, handed_off, raised,
}
use inferrail.Recovery.Engine.After.{
  when_created, when_ambiguous, when_recorded, ambiguous_attempt, attempt_of,
}
use inferrail.Recovery.Engine.Closing.{when_handoff_recorded}
use inferrail.Recovery.Engine.Stages.{advance}
use inferrail.Recovery.Engine.System.{
  System, Act, decides, ensures, advances, dies, reaps, reports, deletes, advance_at, act, run,
  initial,
}

-- the recorded attempts of a work
abbrev pub attempts_of : String → RecoveryStore → ℕ
attempts_of w s = count_rows (λ (a : Attempt). a.work_id) w s.retry_attempts

abbrev IsSingle : String → RecoveryStore → Type 0
IsSingle w s = attempts_of w s ≤ 1

-- A first attempt of its work leaves at most one for any work.
first_attempt :
    (w : String) (a : Attempt) (s : RecoveryStore)
    → has_attempt a.work_id s ≡ false
    → IsSingle w s
    → count_rows (λ (b : Attempt). b.work_id) w (insert_row a s.retry_attempts) ≤ 1
first_attempt w a s k h = ground (
  arith,
  h,
  count_rows-insert_row (λ (b : Attempt). b.work_id) w a s.retry_attempts,
  λ (q : same_text a.work_id w ≡ true).
      count_rows-absent (λ (b : Attempt). b.work_id) w s.retry_attempts
        (subst (λ z. has_attempt z s ≡ false) ((same_text_iff a.work_id w).0 q) k),
)

insert_attempt-IsSingle :
    (w : String) (a : Attempt) (o : Option Attempt) (s : RecoveryStore)
    → IsSingle w s
    → IsSingle w (store_after s (insert_attempt a o s))
insert_attempt-IsSingle w a (some b) s h = h
insert_attempt-IsSingle w a none s h = elim (Bool-cases (has_attempt a.work_id s)) [
  | inl k ↦ rw k h
  | inr k ↦ let first = first_attempt w a s k h in ground (arith, h, k, first)
]

store-when_ambiguous :
    (id : String) (job : Job) (s : RecoveryStore) (x : Attempted (Attempt × Bool))
    → (when_ambiguous id job s x).store ≡ store_after s x
unfolding when_ambiguous
store-when_ambiguous id job s x = ground arith

store-when_recorded :
    (job : Job) (r : RetryAttemptResult) (v : ValidationResult) (s : RecoveryStore)
    (x : Attempted (Attempt × Bool))
    → (when_recorded job r v s x).store ≡ store_after s x
unfolding when_recorded
store-when_recorded job r v s x = ground arith

handoff-IsSingle :
    (w : String) (h : Handing) (s : RecoveryStore) (row : Handoff) (o : Option Handoff)
    → IsSingle w s
    → IsSingle w (when_handoff_recorded h s (insert_handoff row o s)).store
unfolding when_handoff_recorded
handoff-IsSingle w h s row o k = ground (arith, k)

advance-IsSingle :
    (w : String) (e : Engine) (i : Inputs) (stage : Stage) (s : RecoveryStore)
    → IsSingle w s
    → IsSingle w (advance e i stage s).store
unfolding advance when_created create_decision record_retry_attempt record_late_retry_result
    record_handoff set_decision_status clear_retry_lease
advance-IsSingle w e i (recording_ambiguous job) s h =
    let a = ambiguous_attempt e i job in
    subst (λ t. IsSingle w t)
      (sym (store-when_ambiguous a.attempt_id job s (record_retry_attempt a s)))
      (insert_attempt-IsSingle w a
        (find_row (λ (b : Attempt). b.attempt_id) a.attempt_id s.retry_attempts) s h)
advance-IsSingle w e i (recording job estimate r v) s h =
    let a = attempt_of i job estimate r v in
    subst (λ t. IsSingle w t) (sym (store-when_recorded job r v s (record_retry_attempt a s)))
      (insert_attempt-IsSingle w a
        (find_row (λ (b : Attempt). b.attempt_id) a.attempt_id s.retry_attempts) s h)
advance-IsSingle w e i (recording_handoff g ref) s h = handoff-IsSingle w g s _ _ h
advance-IsSingle w e i (creating case r) s h =
    ground (arith, h, Option-cases (get_decision case.work_id s))
advance-IsSingle w e i (recording_late job r) s h = ground (arith, h)
advance-IsSingle w e i (looking case) s h = h
advance-IsSingle w e i (calling job estimate) s h = h
advance-IsSingle w e i (reading_late job r) s h = h
advance-IsSingle w e i (setting job ending) s h = h
advance-IsSingle w e i (clearing job ending) s h = h
advance-IsSingle w e i (finding_handoff g) s h = h
advance-IsSingle w e i (sending g) s h = h
advance-IsSingle w e i (replaying row) s h = h
advance-IsSingle w e i (replaying_handoff row attempt) s h = h
advance-IsSingle w e i (ensuring case) s h = h
advance-IsSingle w e i (ensuring_attempt case row) s h = h
advance-IsSingle w e i (finished r) s h = h
advance-IsSingle w e i (handed_off ref) s h = h
advance-IsSingle w e i (raised x) s h = h

advance_at-IsSingle :
    (w : String) (n : ℕ) (e : Engine) (i : Inputs) (y : System) (stages : List Stage)
    → IsSingle w y.store
    → IsSingle w (advance_at n e i y stages).store
unfolding advance_at
advance_at-IsSingle w n e i y [] h = h
advance_at-IsSingle w zero e i y (stage ∷ stages) h = advance-IsSingle w e i stage y.store h
advance_at-IsSingle w (suc n) e i y (stage ∷ stages) h = advance_at-IsSingle w n e i y stages h

reap_attempt-IsSingle :
    (w v : String) (at : ℕ) (o : Option Attempt) (s : RecoveryStore)
    → get_retry_attempt v s ≡ o
    → IsSingle w s
    → IsSingle w (store_after s (reap_attempt v at o s))
unfolding reap_attempt reaped_attempt get_retry_attempt
reap_attempt-IsSingle w v at (some a) s e h = h
reap_attempt-IsSingle w v at none s e h = ground (
  arith,
  h,
  first_attempt w (reaped_attempt v at) s
      (find_row-none (λ (b : Attempt). b.work_id) v s.retry_attempts e) h,
)

reap_decision-IsSingle :
    (w v : String) (ts at : ℕ) (o : Option Decision) (s : RecoveryStore)
    → IsSingle w s
    → IsSingle w (store_after s (reap_decision v ts at o s))
unfolding reap_decision
reap_decision-IsSingle w v ts at none s h = h
reap_decision-IsSingle w v ts at (some d) s h =
    ground (arith, h, reap_attempt-IsSingle w v at (get_retry_attempt v s) s refl h)

act-IsSingle : (w : String) (a : Act) (y : System) → IsSingle w y.store → IsSingle w (act a y).store
unfolding act reap_stale_retry_lease record_outcome set_decision_status delete_work_id
act-IsSingle w (decides case) y h = h
act-IsSingle w (ensures case) y h = h
act-IsSingle w (advances n e i) y h = advance_at-IsSingle w n e i y y.calls h
act-IsSingle w (dies n) y h = h
act-IsSingle w (reaps v ts at) y h =
    reap_decision-IsSingle w v ts at (get_decision v y.store) y.store h
act-IsSingle w (reports o) y h = ground (arith, h)
act-IsSingle w (deletes v) y h =
    omega (arith, h, count_rows-without (λ (b : Attempt). b.work_id) w v y.store.retry_attempts)

run-IsSingle :
    (w : String) (acts : List Act) (y : System) → IsSingle w y.store → IsSingle w (run acts y).store
unfolding run
run-IsSingle w [] y h = h
run-IsSingle w (a ∷ acts) y h = run-IsSingle w acts (act a y) (act-IsSingle w a y h)

-- However the stages of calls and the other transactions interleave, deletions included, the tables
-- hold at most one attempt of a work.
pub at_most_one_attempt :
    (w : String) (acts : List Act) → attempts_of w (run acts initial).store ≤ 1
at_most_one_attempt w acts = run-IsSingle w acts initial (omega arith)
