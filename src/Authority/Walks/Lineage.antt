-- ===== src/Authority/Walks/Lineage.antt =====
-- The walk up the lineage finds a revocation exactly when an ancestor has one, and its fuel, one more
-- than the number of rows, is enough.
use inferrail.Common.{
  ℕ, zero, suc, ◌<◌, ◌≡◌, refl, String, true, false, ◌⊎◌, ◌↔◌, inl, inr, Option, none, some, [],
  ◌∷◌, arith, length, subst, sym, same_text, same_text_iff, is_some, Bool-cases, Option-cases,
}
use inferrail.Authority.State.{DelegationState, Delegations, find}
use inferrail.Authority.Walks.{revoked_from, is_revocation_in_progress_in_lineage}
use inferrail.Authority.Invariant.{Known, IsForest}
use inferrail.Authority.Invariant.Forest.{Known-find}

-- `Above rows a d`: `a` is `d` or an ancestor of it.
pub data Above (rows : Delegations) : String → String → Type 0 where
  self : {d : String} → Above rows d d
  up :
      {a p d : String} (r : DelegationState)
      → find d rows ≡ some r
      → r.parent_delegation_id ≡ some p
      → Above rows a p
      → Above rows a d

abbrev pub IsRevoked : Delegations → String → Type 0
IsRevoked rows a =
    (q : DelegationState) × (find a rows ≡ some q) × (is_some q.revocation_started_at ≡ true)

-- A revocation above is found whatever the fuel.
pub revoked_from_complete :
    (fuel : ℕ) {a d : String} (rows : Delegations)
    → Above rows a d
    → IsRevoked rows a
    → revoked_from fuel rows (some d) ≡ true
unfolding revoked_from
revoked_from_complete zero rows s m = refl
revoked_from_complete (suc fuel) rows self (q, e, marked) = rw (e, revoked_from) (rw marked)
revoked_from_complete (suc fuel) rows (up r e parent s) m =
    let above = revoked_from_complete fuel rows s m in
    rw (e, revoked_from) (rw (parent, above) (ground arith))

-- A chain that starts among the older rows never meets the newest one.
module _ (x : DelegationState) (older : Delegations) (h : IsForest (x ∷ older)) where
  find-older : (d : String) → is_some (find d older) ≡ true → find d (x ∷ older) ≡ find d older
  unfolding find
  find-older d known = ground (arith, h.0, same_text_iff x.delegation_id d)

  revoked_from-older :
      (fuel : ℕ) (o : Option String)
      → Known o older
      → revoked_from fuel (x ∷ older) o ≡ revoked_from fuel older o
  unfolding revoked_from
  revoked_from-older zero o known = refl
  revoked_from-older (suc fuel) none known = refl
  revoked_from-older (suc fuel) (some d) known = elim (Option-cases (find d older)) [
    | inl missing ↦ ground (arith, known)
    | inr (r, e) ↦
        let ih = revoked_from-older fuel r.parent_delegation_id (Known-find d r older h.2 e) in
        rw (find-older d known, e, revoked_from) (rw ih)
  ]

  Above-older : {a d : String} → Above older a d → Above (x ∷ older) a d
  Above-older self = self
  Above-older (up {d = d} r e parent s) = up r (rw (find-older d (rw e)) e) parent (Above-older s)

-- The delegation or one of its ancestors is marked.
abbrev pub IsFoundAbove : Delegations → String → Type 0
IsFoundAbove rows d = (a : String) × Above rows a d × IsRevoked rows a

found-older :
    (x : DelegationState) (older : Delegations) (h : IsForest (x ∷ older)) (d : String)
    → IsFoundAbove older d
    → IsFoundAbove (x ∷ older) d
found-older x older h d (a, s, (q, e, marked)) =
    (a, Above-older x older h s, (q, rw (find-older x older h a (rw e)) e, marked))

abbrev IsFoundFrom : Delegations → Option String → Type 0
IsFoundFrom rows none = ⊥
IsFoundFrom rows (some d) = IsFoundAbove rows d

found-here :
    (rows : Delegations) (d : String) (r : DelegationState) (o : Option String)
    → find d rows ≡ some r
    → r.parent_delegation_id ≡ o
    → IsFoundFrom rows o
    → IsFoundAbove rows d
found-here rows d r none e q f = absurd f
found-here rows d r (some p) e q (a, s, m) = (a, up r e q s, m)

from-older :
    (x : DelegationState) (older : Delegations) (h : IsForest (x ∷ older)) (o : Option String)
    → IsFoundFrom older o
    → IsFoundFrom (x ∷ older) o
from-older x older h none f = f
from-older x older h (some d) f = found-older x older h d f

revoked_from-marked :
    (fuel : ℕ) (rows : Delegations) (d : String) (r : DelegationState)
    → find d rows ≡ some r
    → revoked_from (suc fuel) rows (some d) ≡ true
    → (is_some r.revocation_started_at ≡ true)
      ⊎ (revoked_from fuel rows r.parent_delegation_id ≡ true)
unfolding revoked_from
revoked_from-marked fuel rows d r e h = ground arith

revoked_from-missing :
    (fuel : ℕ) (rows : Delegations) (d : String)
    → find d rows ≡ none
    → revoked_from (suc fuel) rows (some d) ≡ false
unfolding revoked_from
revoked_from-missing fuel rows d e = rw (e, revoked_from)

-- With more fuel than rows, a positive answer has an ancestor to show for it.
revoked_from_sound :
    (fuel : ℕ) (rows : Delegations) (o : Option String)
    → IsForest rows
    → length rows < fuel
    → revoked_from fuel rows o ≡ true
    → IsFoundFrom rows o
unfolding find
revoked_from_sound zero rows o h lt e = absurd (omega arith)
revoked_from_sound (suc fuel) rows none h lt e = unfold revoked_from in cc
revoked_from_sound (suc fuel) [] (some d) h lt e = cc (revoked_from-missing fuel [] d refl)
revoked_from_sound (suc fuel) (x ∷ older) (some d) h lt e =
    elim (Option-cases (find d (x ∷ older))) [
      | inl missing ↦ cc (revoked_from-missing fuel (x ∷ older) d missing)
      | inr (r, there) ↦ elim (Bool-cases (same_text x.delegation_id d)) [
        | inl hit ↦ elim (revoked_from-marked fuel (x ∷ older) d r there e) [
          | inl marked ↦ (d, self, (r, there, marked))
          | inr above ↦
              let same : r ≡ x = ground arith in
              let known =
                subst (λ (y : DelegationState). Known y.parent_delegation_id older) (sym same)
                  h.1 in
              found-here (x ∷ older) d r r.parent_delegation_id there refl (
                from-older x older h r.parent_delegation_id (
                  revoked_from_sound fuel older r.parent_delegation_id h.2 (omega arith)
                    (rw (revoked_from-older x older h fuel r.parent_delegation_id known) at above)))
        ]
        | inr miss ↦
            let known : is_some (find d older) ≡ true = ground arith in
            found-older x older h d (
              revoked_from_sound (suc fuel) older (some d) h.2 (omega arith)
                (rw (revoked_from-older x older h (suc fuel) (some d) known) at e))
      ]
    ]

-- A revocation is reported exactly when the delegation or an ancestor of it is marked.
pub in_progress_iff :
    (rows : Delegations) (d : String)
    → IsForest rows
    → (is_revocation_in_progress_in_lineage rows d ≡ true) ↔ IsFoundAbove rows d
unfolding is_revocation_in_progress_in_lineage
in_progress_iff rows d h = (
  revoked_from_sound (suc (length rows)) rows (some d) h (omega arith),
  λ (a, s, m). revoked_from_complete (suc (length rows)) rows s m,
)
