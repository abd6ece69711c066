-- ===== src/Authority/Invariant/Opening.antt =====
-- `create_root` and `reserve` keep the conservation laws.
use inferrail.Common.{
  ℕ, ◌≡◌, refl, ◌∙◌, String, true, false, inl, inr, Option, none, some, ◌∷◌, arith, same_text,
  same_text_iff, same_text?, Option-cases, if◌then◌else◌, sym,
}
use inferrail.Common.Int.{ℤ, pos, ◌+ℤ◌, ◌-ℤ◌, ◌≤ℤ◌, ltb_ℤ, +ℤ_zero, int_laws}
use inferrail.Common.Sums.{total}
use inferrail.Authority.State.{
  DelegationState, active_reservation_usd, root, reservation, Delegations, Ledger, find, update,
}
use inferrail.Authority.Tables.{Keeps, find_key, find-update, All-update, All-find}
use inferrail.Authority.Events.{created, check_event}
use inferrail.Authority.Opening.{
  new_row, create_root_txn, add_child_reserved, lacks_headroom, reserve_under, reserve_txn,
}
use inferrail.Authority.Invariant.{
  balance_at, balance_of_all, counted_spend, RowSound, TableConserving, IsConserving,
}
use inferrail.Authority.Invariant.Recording.{if-cases, conclude-IsConserving}
use inferrail.Authority.Invariant.Forest.{IsForest-update, find-update-none, known-update}
use inferrail.Authority.Invariant.Balance.{total-update_eq, IsAlive-update}

cancel_new :
    (whole whole' part part' new moved : ℤ)
    → whole' ≡ whole +ℤ part' -ℤ part
    → whole ≡ pos 0
    → part' ≡ part +ℤ moved
    → new ≡ pos 0 -ℤ moved
    → new +ℤ whole' ≡ pos 0
cancel_new whole whole' part part' new moved w z p n = rw (w, z, p, n) (omega int_laws)

pub balance_at-add_child_reserved :
    (now : ℕ) (x : ℤ) (p j : String) (q : DelegationState)
    → q.delegation_id ≡ p
    → balance_at j (add_child_reserved now x q)
      ≡ balance_at j q +ℤ (if same_text p j then x else pos 0)
balance_at-add_child_reserved now x p j q e = rw e (grind int_laws)

module _ (now : ℕ) (d agent : String) (x : ℤ) (nonneg : pos 0 ≤ℤ x) where
  new_row-RowSound : (parent : Option String) → RowSound (new_row now d parent agent x)
  unfolding new_row
  new_row-RowSound parent = grind int_laws

  open_table :
      (rows : Delegations)
      → find d rows ≡ none
      → TableConserving rows
      → TableConserving (new_row now d none agent x ∷ rows)
  unfolding new_row find total same_text?
  open_table rows fresh t = record {
    forest = (fresh, tt, t.forest);
    sound = (unfold new_row in new_row-RowSound none, t.sound);
    balanced = λ j. grind (int_laws, t.balanced j);
    balanced_over_all = grind (int_laws, t.balanced_over_all);
    alive = λ j q e off. grind (arith, t.alive j q);
  }

  balance_at-new_row :
      (p j : String)
      → balance_at j (new_row now d (some p) agent x)
        ≡ pos 0 -ℤ (if same_text p j then x else pos 0)
  unfolding new_row same_text?
  balance_at-new_row p j = grind int_laws

  module _ (p : String) (q : DelegationState) (rows : Delegations) (fresh : find d rows ≡ none)
      (found : find p rows ≡ some q) (on : q.active ≡ true) (fits : x ≤ℤ active_reservation_usd q)
      (t : TableConserving rows) where
    reserved_parent-RowSound : RowSound (add_child_reserved now x q)
    unfolding active_reservation_usd
    reserved_parent-RowSound =
        let s = All-find RowSound p q rows t.sound found in
        grind (
          int_laws, s.consumed_nonneg, s.released_nonneg, s.reserved_nonneg, s.conserved,
          s.unreleased,
        )

    reserve_balanced :
        (j : String)
        → total
            (balance_at j)
            (new_row now d (some p) agent x ∷ update p (add_child_reserved now x) rows)
          ≡ pos 0
    unfolding total
    reserve_balanced j =
        cancel_new _ _ _ _ _ (if same_text p j then x else pos 0)
          (total-update_eq p (add_child_reserved now x) (λ r. (refl, refl)) q rows found
            (balance_at j))
          (t.balanced j) (balance_at-add_child_reserved now x p j q (find_key p q rows found))
          (balance_at-new_row p j)

    reserve_balanced_over_all :
        total balance_of_all
          (new_row now d (some p) agent x ∷ update p (add_child_reserved now x) rows)
        ≡ pos 0
    unfolding new_row total
    reserve_balanced_over_all = grind (
      int_laws,
      total-update_eq p (add_child_reserved now x) (λ r. (refl, refl)) q rows found balance_of_all,
      t.balanced_over_all,
    )

    reserve_table :
        TableConserving (new_row now d (some p) agent x ∷ update p (add_child_reserved now x) rows)
    unfolding find total same_text? new_row
    reserve_table =
        let k : Keeps (add_child_reserved now x) = λ r. (refl, refl) in
        record {
          forest = (
            find-update-none p (add_child_reserved now x) k d rows fresh,
            rw (known-update p (add_child_reserved now x) k p rows, found) refl,
            IsForest-update p (add_child_reserved now x) k rows t.forest,
          );
          sound = (
            unfold new_row in new_row-RowSound (some p),
            All-update p (add_child_reserved now x) RowSound q rows found reserved_parent-RowSound
                t.sound,
          );
          balanced = reserve_balanced;
          balanced_over_all = reserve_balanced_over_all;
          alive = λ j r e off. grind (
            arith,
            same_text_iff p j,
            find-update p (add_child_reserved now x) j rows k,
            IsAlive-update p (add_child_reserved now x) k (λ _. refl) rows t.alive j r,
          );
        }

-- A reservation that is not rejected has an active parent with enough left.
headroom :
    (rows : Delegations) (p : String) (q : DelegationState) (x : ℤ)
    → lacks_headroom rows p q x ≡ false
    → (q.active ≡ true) × (x ≤ℤ active_reservation_usd q)
unfolding lacks_headroom
headroom rows p q x e = ground arith

-- What is counted as spent after a reservation: the new row has spent nothing.
module _ (now : ℕ) (d agent : String) (x : ℤ) (rows : Delegations) where
  counted-open :
      (parent : Option String)
      → total counted_spend (new_row now d parent agent x ∷ rows) ≡ total counted_spend rows
  unfolding new_row total
  counted-open parent = grind int_laws

  counted-reserve :
      (p : String) (q : DelegationState)
      → find p rows ≡ some q
      → total counted_spend (update p (add_child_reserved now x) rows) ≡ total counted_spend rows
  counted-reserve p q found =
      rw
        (total-update_eq p (add_child_reserved now x) (λ r. (refl, refl)) q rows found
          counted_spend)
        (omega int_laws)

pub create_root_txn-IsConserving :
    (now : ℕ) (event_id d agent : String) (x : ℤ) (st : Ledger)
    → IsConserving st
    → IsConserving (create_root_txn now event_id d agent x st).1
unfolding create_root_txn
create_root_txn-IsConserving now event_id d agent x st v =
    elim (Option-cases (find d st.delegations)) [
      | inr (row, e) ↦ rw (e, create_root_txn) (if-cases IsConserving _ _ _ (λ _. v) (λ _. v))
      | inl fresh ↦
          rw (fresh, create_root_txn)
            (if-cases IsConserving (ltb_ℤ x (pos 0)) _ _ (λ _. v)
              λ nonneg.
                conclude-IsConserving now event_id d "accepted" (root d agent x) (some x)
                  (new_row now d none agent x ∷ st.delegations) st v
                  (open_table now d agent x (ground arith) st.delegations fresh v.table)
                  (counted-open now d agent x st.delegations none ∙ sym (+ℤ_zero _))
                  (check_event d event_id (root d agent x) st.economic_events)
                  (new_row now d none agent x) refl)
    ]

reserve_under-IsConserving :
    (now : ℕ) (event_id p d agent : String) (x : ℤ) (q : DelegationState) (st : Ledger)
    → IsConserving st
    → find d st.delegations ≡ none
    → find p st.delegations ≡ some q
    → pos 0 ≤ℤ x
    → IsConserving (reserve_under now event_id p d agent x q st).1
unfolding reserve_under
reserve_under-IsConserving now event_id p d agent x q st v fresh found nonneg =
    if-cases IsConserving (lacks_headroom st.delegations p q x) _ _ (λ _. v)
      λ enough.
        let room = headroom st.delegations p q x enough in
        conclude-IsConserving now event_id d "accepted" (reservation p d agent x) (some x)
          (new_row now d (some p) agent x ∷ update p (add_child_reserved now x) st.delegations) st v
          (reserve_table now d agent x nonneg p q st.delegations fresh found room.0 room.1 v.table)
          (counted-open now d agent x (update p (add_child_reserved now x) st.delegations) (some p)
            ∙ counted-reserve now d agent x st.delegations p q found
            ∙ sym (+ℤ_zero _))
          (check_event d event_id (reservation p d agent x) st.economic_events) created refl

pub reserve_txn-IsConserving :
    (now : ℕ) (event_id p d agent : String) (x : ℤ) (st : Ledger)
    → IsConserving st
    → IsConserving (reserve_txn now event_id p d agent x st).1
unfolding reserve_txn
reserve_txn-IsConserving now event_id p d agent x st v =
    elim (Option-cases (find d st.delegations)) [
      | inr (row, e) ↦ rw (e, reserve_txn) (if-cases IsConserving _ _ _ (λ _. v) (λ _. v))
      | inl fresh ↦
          rw (fresh, reserve_txn)
            (if-cases IsConserving (ltb_ℤ x (pos 0)) _ _ (λ _. v)
              λ nonneg. elim (Option-cases (find p st.delegations)) [
                | inl unknown ↦ rw unknown v
                | inr (q, found) ↦ rw found (
                    reserve_under-IsConserving now event_id p d agent x q st v fresh found
                      (ground arith))
              ])
    ]
