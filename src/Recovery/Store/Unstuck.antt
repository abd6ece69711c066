-- ===== src/Recovery/Store/Unstuck.antt =====
-- A decision whose worker died does not stay in progress: reap_stale_retry_lease of
-- src/inferrail/ap/store.py.
use inferrail.Common.{
  ℕ, ◌≡◌, refl, subst, Option-cases, true, false, String, List, [], ◌∷◌, Option, none, some, map,
  if◌then◌else◌, same_text, arith, Bool-cases, inl, inr,
}
use inferrail.Recovery.Models.{DecisionStatus, retry_resolved, awaiting_human_review}
use inferrail.Recovery.Store.{
  Decision, Attempt, RecoveryStore, done, has_row, find_row, get_decision, get_retry_attempt,
  insert_row,
}
use inferrail.Recovery.Store.Reaping.{
  reap_stale_retry_lease, reap_decision, reap_attempt, close_decision, is_stale_lease, reaped_id,
  Reaped, reaped_attempt, reconciled_status, reaped, reconciled,
}

-- the status that an attempt on record calls for
abbrev pub due_status : Option Attempt → DecisionStatus
due_status none = awaiting_human_review
due_status (some a) = elim a.validation_passed [
  | none ↦ awaiting_human_review
  | some b ↦ if b then retry_resolved else awaiting_human_review
]

-- The decision of a work is closed with a status.
abbrev pub IsClosed : String → DecisionStatus → RecoveryStore → Type 0
IsClosed w status t =
    (d : Decision) × (get_decision w t ≡ some d)
    × (d.status ≡ status)
    × (d.lease_expires_at ≡ none)
    × (d.worker_id ≡ none)

abbrev pub Closed : String → DecisionStatus → List Decision → Type 0
Closed w status ds =
    (d : Decision) × (find_row (λ (e : Decision). e.work_id) w ds ≡ some d)
    × (d.status ≡ status)
    × (d.lease_expires_at ≡ none)
    × (d.worker_id ≡ none)

pub Closed-map :
    (w : String) (status : DecisionStatus) (ds : List Decision) (d : Decision)
    → find_row (λ (e : Decision). e.work_id) w ds ≡ some d
    → Closed w status (map (close_decision w status) ds)
unfolding find_row close_decision
Closed-map w status [] d h = absurd (ground (arith, h))
Closed-map w status (x ∷ ds) d h = elim (Bool-cases (same_text x.work_id w)) [
  | inl q ↦ (
    record x { status = status; worker_id = none; lease_expires_at = none },
    rw (q, q) refl,
    refl,
    refl,
    refl,
  )
  | inr q ↦ rw (q, q) (Closed-map w status ds d (ground (arith, h, q)))
]

due-reconciled : (a : Attempt) → reconciled_status a ≡ due_status (some a)
unfolding reconciled_status
due-reconciled a = ground (arith, Option-cases a.validation_passed)

attempt_closes :
    (w : String) (at : ℕ) (o : Option Attempt) (s : RecoveryStore) (d : Decision)
    → get_decision w s ≡ some d
    → has_row (λ (a : Attempt). a.attempt_id) (reaped_id w) s.retry_attempts ≡ false
    → (r : Reaped) × (t : RecoveryStore) × (reap_attempt w at o s ≡ done r t)
      × IsClosed w (due_status o) t
unfolding reap_attempt get_decision reconciled_status reaped_attempt
attempt_closes w at (some a) s d g k = (
  some (a, reconciled),
  record s { decisions = map (close_decision w (reconciled_status a)) s.decisions },
  refl,
  subst
      (λ z.
        IsClosed w z
          (record s { decisions = map (close_decision w (reconciled_status a)) s.decisions }))
      (due-reconciled a) (Closed-map w (reconciled_status a) s.decisions d g),
)
attempt_closes w at none s d g k = (
  some (reaped_attempt w at, reaped),
  record s {
    retry_attempts = insert_row (reaped_attempt w at) s.retry_attempts;
    decisions = map (close_decision w awaiting_human_review) s.decisions;
  },
  rw k refl,
  Closed-map w awaiting_human_review s.decisions d g,
)

-- A reaping of a work whose decision is in progress with a lease that has run out returns, if the
-- reaper's own attempt id is not taken, and leaves the decision without a worker and a lease, as
-- resolved if an attempt on record passed its validation and as awaiting human review otherwise.
pub stale-IsClosed :
    (w : String) (ts at : ℕ) (s : RecoveryStore) (d : Decision)
    → get_decision w s ≡ some d
    → is_stale_lease ts d ≡ true
    → has_row (λ (a : Attempt). a.attempt_id) (reaped_id w) s.retry_attempts ≡ false
    → (r : Reaped) × (t : RecoveryStore) × (reap_stale_retry_lease w ts at s ≡ done r t)
      × IsClosed w (due_status (get_retry_attempt w s)) t
unfolding reap_stale_retry_lease reap_decision
stale-IsClosed w ts at s d g q k = rw (g, q) (attempt_closes w at (get_retry_attempt w s) s d g k)
