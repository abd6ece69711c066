-- ===== src/Authority/Report.antt =====
-- `invariant` of hosted/a2a_economic_authority/core.py, as a check of the store on itself.
use inferrail.Common.{
  ℕ, ◌≡◌, ◌≢◌, subst, sym, refl, String, true, some, List, inl, inr, arith, ltb, Option-cases,
  if◌then◌else◌, same_text_iff,
}
use inferrail.Common.Int.{pos, ◌+ℤ◌, int_laws}
use inferrail.Authority.State.{DelegationState, active_reservation_usd, Ledger, empty, find, update}
use inferrail.Authority.Tables.{All-find, find-update}
use inferrail.Authority.Events.{ok}
use inferrail.Authority.Closing.{settle_fresh, close, free_slot, released_by, settle_parent}
use inferrail.Authority.Api.{violated, is_satisfied, invariant}
use inferrail.Authority.Calls.{Call, run}
use inferrail.Authority.Invariant.{RowSound, IsConserving}
use inferrail.Authority.Invariant.Forest.{parent_ne}
use inferrail.Authority.Invariant.Bound.{run-IsConserving, empty-IsConserving}

is_satisfied_of_sound : (r : DelegationState) → RowSound r → is_satisfied r ≡ true
unfolding is_satisfied
is_satisfied_of_sound r s =
    grind (int_laws, s.consumed_nonneg, s.released_nonneg, s.reserved_nonneg, s.conserved)

-- After any sequence of calls on an empty database, `invariant` reports no delegation as violated.
pub never_violated :
    (calls : List (ℕ × Call)) (d : String) → invariant d (run empty calls) ≢ violated
unfolding invariant
never_violated calls d h =
    let st = run empty calls in
    let v = run-IsConserving calls empty empty-IsConserving in
    elim (Option-cases (find d st.delegations)) [
      | inl gone ↦ ground (arith, gone)
      | inr (r, e) ↦
          let good =
            is_satisfied_of_sound r (All-find RowSound d r st.delegations v.table.sound e) in
          ground (arith, e, good)
    ]

-- What a settlement gives back.
module _ (now : ℕ) (event_id d p outcome : String) (r q : DelegationState) (st : Ledger)
    (v : IsConserving st) (found : find d st.delegations ≡ some r)
    (parent : r.parent_delegation_id ≡ some p) (holder : find p st.delegations ≡ some q)
    (settled : (settle_fresh now event_id d outcome r st).0 ≡ ok true) where
  found_after :
      find p (
        settle_parent now r.consumed_usd
          (released_by r)
          (some p)
          (update d (close now outcome (released_by r)) st.delegations))
      ≡ some (free_slot now r.consumed_usd (released_by r) q)
  unfolding settle_parent
  found_after =
      let other = parent_ne d p r st.delegations v.table.forest found parent in
      rw
        (
          find-update p (free_slot now r.consumed_usd (released_by r)) p
              (update d (close now outcome (released_by r)) st.delegations) (λ _. (refl, refl)),
          find-update d (close now outcome (released_by r)) p st.delegations (λ _. (refl, refl)),
          (same_text_iff p p).1 refl,
          holder,
        )
        (ground (arith, other, same_text_iff p d, same_text_iff d p))

  parent_after :
      find p (settle_fresh now event_id d outcome r st).1.delegations
      ≡ some (free_slot now r.consumed_usd (released_by r) q)
  unfolding settle_fresh
  parent_after =
      let after =
        subst
          (λ o.
            find p (
              settle_parent now r.consumed_usd (released_by r) o
                (update d (close now outcome (released_by r)) st.delegations))
            ≡ some (free_slot now r.consumed_usd (released_by r) q))
          (sym parent) found_after in
      ground (arith, after)

  -- Settling a child takes its known spending over into its parent, and raises what the parent has left
  -- by the child's unused rest, or by nothing at all if the child has an unknown cost.
  pub settle_returns :
      (q' : DelegationState) × (find p (settle_fresh now event_id d outcome r st).1.delegations
        ≡ some q')
      × (q'.consumed_usd ≡ q.consumed_usd +ℤ r.consumed_usd)
      × (active_reservation_usd q'
          ≡ active_reservation_usd q
            +ℤ (if ltb 0 r.unknown_cost_count then pos 0 else active_reservation_usd r))
  unfolding active_reservation_usd released_by
  settle_returns =
      (free_slot now r.consumed_usd (released_by r) q, parent_after, refl, grind int_laws)
