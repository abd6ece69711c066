-- ===== src/Recovery/Store/Stale.antt =====
-- Which works have a decision whose lease has run out, in a list of decisions of
-- src/inferrail/ap/store.py.
use inferrail.Common.{
  ℕ, ◌≤◌, ◌≡◌, refl, Bool, true, false, ◌&&◌, String, List, [], ◌∷◌, some, any, filter, map,
  same_text, same_text_iff, arith, Bool-cases, inl, inr,
}
use inferrail.Recovery.Models.{DecisionStatus}
use inferrail.Recovery.Store.{Decision, Attempt, RecoveryStore, has_row, find_row, has_attempt}
use inferrail.Recovery.Store.Rows.{count_rows}
use inferrail.Recovery.Store.Reaping.{close_decision, is_stale_lease, reaped_id}

abbrev pub id_of : Decision → String
id_of d = d.work_id

-- Does a work have a stale decision?
abbrev pub stale_in : ℕ → String → List Decision → Bool
stale_in ts w ds = any (λ (d : Decision). is_stale_lease ts d && same_text d.work_id w) ds

-- `work_id` is the primary key of the decisions.
abbrev pub HasKey : RecoveryStore → Type 0
HasKey s = (w : String) → count_rows (λ (d : Decision). d.work_id) w s.decisions ≤ 1

-- The attempt id of the reaper is on record for its own work only.
abbrev pub KeepsIds : RecoveryStore → Type 0
KeepsIds s =
    (w : String)
    → has_row (λ (a : Attempt). a.attempt_id) (reaped_id w) s.retry_attempts ≡ true
    → has_attempt w s ≡ true

-- A closed decision is not stale, and no other becomes so.
pub stale_in-closed :
    (ts : ℕ) (w : String) (status : DecisionStatus) (ds : List Decision)
    → stale_in ts w (map (close_decision w status) ds) ≡ false
unfolding close_decision is_stale_lease
stale_in-closed ts w status [] = refl
stale_in-closed ts w status (d ∷ ds) = elim (Bool-cases (same_text d.work_id w)) [
  | inl q ↦ ground (arith, q, stale_in-closed ts w status ds)
  | inr q ↦ ground (arith, q, stale_in-closed ts w status ds)
]

pub stale_in-others :
    (ts : ℕ) (w v : String) (status : DecisionStatus) (ds : List Decision)
    → stale_in ts v ds ≡ false
    → stale_in ts v (map (close_decision w status) ds) ≡ false
unfolding close_decision is_stale_lease
stale_in-others ts w v status [] h = refl
stale_in-others ts w v status (d ∷ ds) h = elim (Bool-cases (same_text d.work_id w)) [
  | inl q ↦ ground (arith, q, h, stale_in-others ts w v status ds)
  | inr q ↦ ground (arith, q, h, stale_in-others ts w v status ds)
]

pub count_rows-closed :
    (w v : String) (status : DecisionStatus) (ds : List Decision)
    → count_rows id_of v (map (close_decision w status) ds) ≡ count_rows id_of v ds
unfolding close_decision
count_rows-closed w v status [] = refl
count_rows-closed w v status (d ∷ ds) = elim (Bool-cases (same_text d.work_id w)) [
  | inl q ↦ ground (arith, q, count_rows-closed w v status ds)
  | inr q ↦ ground (arith, q, count_rows-closed w v status ds)
]

-- A work without a decision has no stale one.
pub stale_in-absent :
    (ts : ℕ) (w : String) (ds : List Decision)
    → has_row id_of w ds ≡ false
    → stale_in ts w ds ≡ false
stale_in-absent ts w [] h = refl
stale_in-absent ts w (d ∷ ds) h = ground (arith, h, stale_in-absent ts w ds)

absent-count_rows :
    (w : String) (ds : List Decision) → count_rows id_of w ds ≤ 0 → has_row id_of w ds ≡ false
absent-count_rows w [] h = refl
absent-count_rows w (d ∷ ds) h = ground (arith, h, absent-count_rows w ds)

-- If the one decision of a work is not stale, none is.
pub stale_in-one :
    (ts : ℕ) (w : String) (ds : List Decision) (d : Decision)
    → count_rows id_of w ds ≤ 1
    → find_row id_of w ds ≡ some d
    → is_stale_lease ts d ≡ false
    → stale_in ts w ds ≡ false
unfolding find_row
stale_in-one ts w [] d h g q = refl
stale_in-one ts w (x ∷ ds) d h g q = elim (Bool-cases (same_text x.work_id w)) [
  | inl p ↦
      ground
        (arith, p, g, q, stale_in-absent ts w ds (absent-count_rows w ds (ground (arith, p, h))))
  | inr p ↦
      ground (arith, p, stale_in-one ts w ds d (ground (arith, p, h)) (ground (arith, p, g)) q)
]

pub none_stale :
    (ts : ℕ) (ds : List Decision)
    → ((v : String) → stale_in ts v ds ≡ false)
    → filter (is_stale_lease ts) ds ≡ []
none_stale ts [] h = refl
none_stale ts (d ∷ ds) h =
    let same = (same_text_iff d.work_id d.work_id).1 refl in
    let fresh : is_stale_lease ts d ≡ false = ground (arith, same, h d.work_id) in
    rw fresh (none_stale ts ds (λ v. ground (arith, h v)))
