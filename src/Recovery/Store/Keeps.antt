-- ===== src/Recovery/Store/Keeps.antt =====
-- Which works are decided does not change by a status, a lease, a reaping or an outcome:
-- src/inferrail/ap/store.py.
use inferrail.Common.{ℕ, ◌≡◌, refl, false, String, List, Option, none, some, map, same_text, arith}
use inferrail.Recovery.Models.{DecisionStatus, awaiting_human_review, resolved}
use inferrail.Recovery.Store.{
  Decision, Attempt, store_after, get_retry_attempt, OutcomeRow, RecoveryStore, has_decision,
  has_row, get_decision, set_decision_status, clear_retry_lease, record_outcome, delete_work_id,
}
use inferrail.Recovery.Store.Rows.{has_row-map, has_row-without}
use inferrail.Recovery.Store.Reaping.{
  reap_stale_retry_lease, reap_decision, reap_attempt, close_decision, reconciled_status,
}

pub has_decision-set_decision_status :
    (w v : String) (st : _) (s : RecoveryStore)
    → has_decision w (set_decision_status v st s) ≡ has_decision w s
unfolding set_decision_status
has_decision-set_decision_status w v st s =
    has_row-map (λ (d : Decision). d.work_id) w _ s.decisions (λ d. ground arith)

pub has_decision-clear_retry_lease :
    (w v : String) (s : RecoveryStore) → has_decision w (clear_retry_lease v s) ≡ has_decision w s
unfolding clear_retry_lease
has_decision-clear_retry_lease w v s =
    has_row-map (λ (d : Decision). d.work_id) w _ s.decisions (λ d. ground arith)

keeps-close_decision :
    (w v : String) (st : DecisionStatus) (ds : List Decision)
    → has_row (λ (d : Decision). d.work_id) w (map (close_decision v st) ds)
      ≡ has_row (λ (d : Decision). d.work_id) w ds
unfolding close_decision
keeps-close_decision w v st ds =
    has_row-map (λ (d : Decision). d.work_id) w (close_decision v st) ds (λ d. ground arith)

keeps-reap_attempt :
    (w v : String) (at : ℕ) (o : Option Attempt) (s : RecoveryStore)
    → has_decision w (store_after s (reap_attempt v at o s)) ≡ has_decision w s
unfolding reap_attempt
keeps-reap_attempt w v at (some a) s = keeps-close_decision w v (reconciled_status a) s.decisions
keeps-reap_attempt w v at none s =
    ground (arith, keeps-close_decision w v awaiting_human_review s.decisions)

keeps-reap_decision :
    (w v : String) (ts at : ℕ) (o : Option Decision) (s : RecoveryStore)
    → has_decision w (store_after s (reap_decision v ts at o s)) ≡ has_decision w s
unfolding reap_decision
keeps-reap_decision w v ts at none s = refl
keeps-reap_decision w v ts at (some d) s =
    ground (arith, keeps-reap_attempt w v at (get_retry_attempt v s) s)

pub has_decision-reaps :
    (w v : String) (ts at : ℕ) (s : RecoveryStore)
    → has_decision w (store_after s (reap_stale_retry_lease v ts at s)) ≡ has_decision w s
unfolding reap_stale_retry_lease
has_decision-reaps w v ts at s = keeps-reap_decision w v ts at (get_decision v s) s

pub has_decision-reports :
    (w : String) (o : OutcomeRow) (s : RecoveryStore)
    → has_decision w (store_after s (record_outcome o s)) ≡ has_decision w s
unfolding record_outcome
has_decision-reports w o s = ground (arith, has_decision-set_decision_status w o.work_id resolved s)

pub has_decision-deletes :
    (w v : String) (s : RecoveryStore)
    → same_text v w ≡ false
    → has_decision w (delete_work_id v s).1 ≡ has_decision w s
unfolding delete_work_id
has_decision-deletes w v s h = has_row-without (λ (d : Decision). d.work_id) w v s.decisions h
