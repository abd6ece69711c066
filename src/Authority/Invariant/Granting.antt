-- ===== src/Authority/Invariant/Granting.antt =====
-- `grant` keeps the conservation laws: a grant to a child is paid for by its parent.
use inferrail.Common.{
  ℕ, ◌≡◌, refl, ◌∙◌, String, Bool, true, ◌||◌, not, inl, inr, Option, none, some, arith, same_text,
  same_text?, Bool-cases, Option-cases, if◌then◌else◌, sym,
}
use inferrail.Common.Int.{ℤ, pos, ◌-ℤ◌, ◌≤ℤ◌, ltb_ℤ, +ℤ_zero, int_laws}
use inferrail.Common.Sums.{total}
use inferrail.Authority.State.{
  DelegationState, active_reservation_usd, authority_grant, Delegations, Ledger, find, update,
}
use inferrail.Authority.Tables.{find_key, find-update, All-update, All-find}
use inferrail.Authority.Events.{Result, record_event}
use inferrail.Authority.Walks.{is_revocation_in_progress_in_lineage}
use inferrail.Authority.Opening.{add_child_reserved}
use inferrail.Authority.Spending.{
  add_authority, cannot_fund, fund_grant, write_grant, grant_fresh, grant_txn,
}
use inferrail.Authority.Invariant.{
  balance_at, balance_of_all, RowSound, TableConserving, IsConserving,
}
use inferrail.Authority.Invariant.Recording.{if-cases, record_event-IsConserving}
use inferrail.Authority.Invariant.Forest.{IsForest-update, parent_ne}
use inferrail.Authority.Invariant.Balance.{
  cancel_moved, counted-update, total-update_eq, IsAlive-update,
}
use inferrail.Authority.Invariant.Opening.{balance_at-add_child_reserved}
use inferrail.Authority.Invariant.Spending.{unless_seen-cases, add_authority-RowSound, grant_root}

module _ (now : ℕ) (event_id d p : String) (r q : DelegationState) (st : Ledger)
    (v : IsConserving st) (found : find d st.delegations ≡ some r)
    (parent : r.parent_delegation_id ≡ some p) (funder : find p st.delegations ≡ some q) (x : ℤ)
    (nonneg : pos 0 ≤ℤ x) (on : r.active ≡ true) (paying : q.active ≡ true)
    (fits : x ≤ℤ active_reservation_usd q) where
  funded : Delegations
  funded = update p (add_child_reserved now x) st.delegations

  found_in_funded : find d funded ≡ some r
  unfolding funded
  found_in_funded =
      rw
        (
          find-update p (add_child_reserved now x) d st.delegations (λ _. (refl, refl)),
          parent_ne d p r st.delegations v.table.forest found parent,
        )
        found

  funder-RowSound : RowSound (add_child_reserved now x q)
  unfolding active_reservation_usd
  funder-RowSound =
      let s = All-find RowSound p q st.delegations v.table.sound funder in
      grind (
        int_laws, s.consumed_nonneg, s.released_nonneg, s.reserved_nonneg, s.conserved,
        s.unreleased,
      )

  balance_at-add_authority :
      (j : String)
      → balance_at j (add_authority now x r)
        ≡ balance_at j r -ℤ (if same_text p j then x else pos 0)
  unfolding same_text?
  balance_at-add_authority j = rw (on, parent) (grind int_laws)

  granted_balanced :
      (j : String) → total (balance_at j) (update d (add_authority now x) funded) ≡ pos 0
  unfolding funded
  granted_balanced j =
      cancel_moved _ _ _ _ _ _ _ (if same_text p j then x else pos 0)
        (total-update_eq p (add_child_reserved now x) (λ _. (refl, refl)) q st.delegations funder
          (balance_at j))
        (total-update_eq d (add_authority now x) (λ _. (refl, refl)) r funded found_in_funded
          (balance_at j))
        (v.table.balanced j)
        (balance_at-add_child_reserved now x p j q (find_key p q st.delegations funder))
        (balance_at-add_authority j)

  granted_balanced_over_all : total balance_of_all (update d (add_authority now x) funded) ≡ pos 0
  unfolding funded
  granted_balanced_over_all =
      cancel_moved _ _ _ _ _ _ _ x
        (total-update_eq p (add_child_reserved now x) (λ _. (refl, refl)) q st.delegations funder
          balance_of_all)
        (total-update_eq d (add_authority now x) (λ _. (refl, refl)) r funded found_in_funded
          balance_of_all)
        v.table.balanced_over_all (grind int_laws) (rw (on, parent) (grind int_laws))

  granted_table : TableConserving (update d (add_authority now x) funded)
  unfolding funded
  granted_table = record {
    forest =
        IsForest-update d (add_authority now x) (λ _. (refl, refl)) funded
          (IsForest-update p (add_child_reserved now x) (λ _. (refl, refl)) st.delegations
            v.table.forest);
    sound =
        All-update d (add_authority now x) RowSound r funded found_in_funded
          (add_authority-RowSound now event_id d r st v found x nonneg)
          (All-update p (add_child_reserved now x) RowSound q st.delegations funder funder-RowSound
            v.table.sound);
    balanced = granted_balanced;
    balanced_over_all = granted_balanced_over_all;
    alive =
        IsAlive-update d (add_authority now x) (λ _. (refl, refl)) (λ _. refl) funded
          (IsAlive-update p (add_child_reserved now x) (λ _. (refl, refl)) (λ _. refl)
            st.delegations v.table.alive);
  }

  pub grant_child : IsConserving (
      record_event now event_id d
        (authority_grant d x)
        (some x)
        "accepted"
        (update d (add_authority now x) (update p (add_child_reserved now x) st.delegations))
        st)
  unfolding funded
  grant_child =
      record_event-IsConserving now event_id d "accepted" (authority_grant d x) (some x)
        (update d (add_authority now x) funded) st v granted_table
        (counted-update d (add_authority now x) (λ _. (refl, refl)) r funded found_in_funded (pos 0)
            (sym (+ℤ_zero _))
          ∙ +ℤ_zero _
          ∙ counted-update p (add_child_reserved now x) (λ _. (refl, refl)) q st.delegations funder
              (pos 0) (sym (+ℤ_zero _)))

-- Whom a grant is funded by: nobody, for a root, or the parent, which has that much left.
module _ (now : ℕ) (event_id d : String) (x : ℤ) (r : DelegationState) (st : Ledger)
    (v : IsConserving st) (found : find d st.delegations ≡ some r) (nonneg : pos 0 ≤ℤ x)
    (on : r.active ≡ true) where
  write_grant-from_parent :
      (p : String) (q : DelegationState)
      → r.parent_delegation_id ≡ some p
      → find p st.delegations ≡ some q
      → IsConserving
          (write_grant now event_id d x st (
            if cannot_fund q x
            then none
            else some (update p (add_child_reserved now x) st.delegations))).1
  unfolding write_grant cannot_fund
  write_grant-from_parent p q e funder = elim (Bool-cases (cannot_fund q x)) [
    | inl short ↦ rw short v
    | inr enough ↦ rw enough (
        grant_child now event_id d p r q st v found e funder x nonneg on (ground arith)
          (ground arith))
  ]

  write_grant-IsConserving :
      (parent : Option String)
      → r.parent_delegation_id ≡ parent
      → IsConserving (write_grant now event_id d x st (fund_grant now x parent st.delegations)).1
  unfolding write_grant fund_grant
  write_grant-IsConserving none e = grant_root now event_id d r st v found x nonneg e
  write_grant-IsConserving (some p) e = elim (Option-cases (find p st.delegations)) [
    | inl unknown ↦ rw (unknown, write_grant, fund_grant) v
    | inr (q, funder) ↦ rw (funder, write_grant, fund_grant) (write_grant-from_parent p q e funder)
  ]

grant_fresh-IsConserving :
    (now : ℕ) (event_id d : String) (x : ℤ) (r : DelegationState) (st : Ledger)
    → IsConserving st
    → find d st.delegations ≡ some r
    → IsConserving (grant_fresh now event_id d x r st).1
unfolding grant_fresh
grant_fresh-IsConserving now event_id d x r st v found =
    let write = λ (nonneg : pos 0 ≤ℤ x) (on : r.active ≡ true).
      write_grant-IsConserving now event_id d x r st v found nonneg on r.parent_delegation_id
        refl in
    if-cases {A = Result Bool} IsConserving (ltb_ℤ x (pos 0) || not r.active) _ _ (λ _. v)
      λ fine.
        if-cases {A = Result Bool} IsConserving
          (is_revocation_in_progress_in_lineage st.delegations d) _ _ (λ _. v)
          λ _. write (ground arith) (ground arith)

pub grant_txn-IsConserving :
    (now : ℕ) (event_id d : String) (x : ℤ) (st : Ledger)
    → IsConserving st
    → IsConserving (grant_txn now event_id d x st).1
unfolding grant_txn
grant_txn-IsConserving now event_id d x st v = elim (Option-cases (find d st.delegations)) [
  | inl unknown ↦ rw (unknown, grant_txn) v
  | inr (r, found) ↦
      rw (found, grant_txn)
        (unless_seen-cases IsConserving _ st _ v
          (grant_fresh-IsConserving now event_id d x r st v found))
]
