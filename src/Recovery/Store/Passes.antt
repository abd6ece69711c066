-- ===== src/Recovery/Store/Passes.antt =====
-- One pass of the loop over expired leases, reap_stale_retry_lease of src/inferrail/ap/store.py.
use text.Mathlib.TextLemmas.{append_cancel_left}
use inferrail.Common.{
  ℕ, ◌≡◌, refl, true, false, String, List, Option, none, some, map, same_text, same_text_iff, arith,
  Bool-cases, ◌⊎◌, inl, inr,
}
use inferrail.Recovery.Models.{DecisionStatus, awaiting_human_review}
use inferrail.Recovery.Store.{
  Decision, Attempt, RecoveryStore, Attempted, done, has_row, get_decision, get_retry_attempt,
  insert_row,
}
use inferrail.Recovery.Store.Rows.{has_row-insert_row, find_row-none}
use inferrail.Recovery.Store.Unstuck.{Closed-map}
use inferrail.Recovery.Store.Reaping.{
  reap_stale_retry_lease, reap_decision, reap_attempt, close_decision, is_stale_lease, reaped_id,
  Reaped, reaped_attempt, reconciled_status, Kind, reaped, reconciled,
}
use inferrail.Recovery.Store.Stale.{
  id_of, stale_in, HasKey, KeepsIds, stale_in-closed, stale_in-others, count_rows-closed,
  stale_in-absent, stale_in-one,
}

-- what one pass of the loop leaves for the next
abbrev pub IsSwept : ℕ → String → RecoveryStore → RecoveryStore → Type 0
IsSwept ts w s t =
    HasKey t
    × KeepsIds t
    × (stale_in ts w t.decisions ≡ false)
    × ((v : String) → stale_in ts v s.decisions ≡ false → stale_in ts v t.decisions ≡ false)

same-reaped_id :
    (w v : String) → same_text (reaped_id w) (reaped_id v) ≡ true → same_text w v ≡ true
unfolding reaped_id
same-reaped_id w v h =
    (same_text_iff w v).1
      (append_cancel_left "ret_reaped_" w v ((same_text_iff (reaped_id w) (reaped_id v)).0 h))

KeepsIds-insert :
    (w : String) (at : ℕ) (status : DecisionStatus) (s : RecoveryStore)
    → KeepsIds s
    → KeepsIds (record s {
      retry_attempts = insert_row (reaped_attempt w at) s.retry_attempts;
      decisions = map (close_decision w status) s.decisions;
    })
unfolding reaped_attempt
KeepsIds-insert w at status s k v h =
    let own =
      has_row-insert_row (λ (a : Attempt). a.attempt_id) (reaped_id v) (reaped_attempt w at)
        s.retry_attempts in
    let works =
      has_row-insert_row (λ (a : Attempt). a.work_id) v (reaped_attempt w at) s.retry_attempts in
    elim (Bool-cases (has_row (λ (a : Attempt). a.attempt_id) (reaped_id v) s.retry_attempts)) [
      | inl q ↦ ground (arith, works, k v q)
      | inr q ↦ ground (arith, works, same-reaped_id w v (ground (arith, own, h, q)))
    ]

-- The decision of a work is on record.
abbrev pub IsKnown : String → RecoveryStore → Type 0
IsKnown w t = (e : Decision) × (get_decision w t ≡ some e)

closed-IsSwept :
    (w : String) (ts : ℕ) (status : DecisionStatus) (attempts : List Attempt) (s : RecoveryStore)
    → HasKey s
    → let t = record s {
      retry_attempts = attempts;
      decisions = map (close_decision w status) s.decisions;
    } in
      KeepsIds t → IsSwept ts w s t
closed-IsSwept w ts status attempts s key ids = (
  (λ v. rw (count_rows-closed w v status s.decisions) (key v)),
  ids,
  stale_in-closed ts w status s.decisions,
  (λ v. stale_in-others ts w v status s.decisions),
)

-- The reaper's attempt id is free for a work without an attempt.
id_is_free :
    (w : String) (s : RecoveryStore)
    → KeepsIds s
    → get_retry_attempt w s ≡ none
    → has_row (λ (a : Attempt). a.attempt_id) (reaped_id w) s.retry_attempts ≡ false
unfolding get_retry_attempt
id_is_free w s ids g =
    let no = find_row-none (λ (a : Attempt). a.work_id) w s.retry_attempts g in
    elim (Bool-cases (has_row (λ (a : Attempt). a.attempt_id) (reaped_id w) s.retry_attempts)) [
      | inl q ↦ absurd (ground (arith, no, ids w q))
      | inr q ↦ q
    ]

-- A pass whose work has a stale decision closes it.
attempt-IsSwept :
    (w : String) (ts at : ℕ) (o : Option Attempt) (s : RecoveryStore) (d : Decision)
    → HasKey s
    → KeepsIds s
    → get_decision w s ≡ some d
    → get_retry_attempt w s ≡ o
    → (r : Attempt × Kind) × (t : RecoveryStore) × (reap_attempt w at o s ≡ done (some r) t)
      × IsKnown w t
      × IsSwept ts w s t
unfolding reap_attempt reconciled_status get_decision
attempt-IsSwept w ts at (some a) s d key ids e g =
    let closed = Closed-map w (reconciled_status a) s.decisions d e in
    (
      (a, reconciled),
      record s { decisions = map (close_decision w (reconciled_status a)) s.decisions },
      refl,
      (closed.0, closed.1),
      closed-IsSwept w ts (reconciled_status a) s.retry_attempts s key ids,
    )
attempt-IsSwept w ts at none s d key ids e g =
    let closed = Closed-map w awaiting_human_review s.decisions d e in
    let t = record s {
      retry_attempts = insert_row (reaped_attempt w at) s.retry_attempts;
      decisions = map (close_decision w awaiting_human_review) s.decisions;
    } in
    (
      (reaped_attempt w at, reaped),
      t,
      rw (id_is_free w s ids g) refl,
      (closed.0, closed.1),
      closed-IsSwept w ts awaiting_human_review t.retry_attempts s key
          (KeepsIds-insert w at awaiting_human_review s ids),
    )

-- what the loop needs to know of a pass: its answer is none, or the decision is on record
abbrev pub IsPassed : ℕ → String → RecoveryStore → Attempted Reaped → Type 0
IsPassed ts w s x =
    (r : Reaped) × (t : RecoveryStore) × (x ≡ done r t)
    × ((r ≡ none) ⊎ IsKnown w t)
    × IsSwept ts w s t

decision-IsPassed :
    (w : String) (ts at : ℕ) (o : Option Decision) (s : RecoveryStore)
    → HasKey s
    → KeepsIds s
    → get_decision w s ≡ o
    → IsPassed ts w s (reap_decision w ts at o s)
unfolding reap_decision get_decision
decision-IsPassed w ts at none s key ids e = (
  none,
  s,
  refl,
  inl refl,
  (key, ids, stale_in-absent ts w s.decisions (find_row-none id_of w s.decisions e), (λ v h. h)),
)
decision-IsPassed w ts at (some d) s key ids e = elim (Bool-cases (is_stale_lease ts d)) [
  | inl q ↦
      let p = attempt-IsSwept w ts at (get_retry_attempt w s) s d key ids e refl in
      (some p.0, p.1, rw q p.2, inr p.3, p.4)
  | inr q ↦ (
    none,
    s,
    rw q refl,
    inl refl,
    (key, ids, stale_in-one ts w s.decisions d (key w) e q, (λ v h. h)),
  )
]

pub reap-IsPassed :
    (w : String) (ts at : ℕ) (s : RecoveryStore)
    → HasKey s
    → KeepsIds s
    → IsPassed ts w s (reap_stale_retry_lease w ts at s)
unfolding reap_stale_retry_lease
reap-IsPassed w ts at s key ids = decision-IsPassed w ts at (get_decision w s) s key ids refl
