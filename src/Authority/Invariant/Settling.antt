-- ===== src/Authority/Invariant/Settling.antt =====
-- `settle` and `mark_revocation_started`, with all their branches, keep the conservation laws.
use inferrail.Common.{
  ℕ, ◌≡◌, refl, ◌∙◌, String, Bool, true, false, not, inl, inr, Option, none, some, arith, is_some,
  Option-cases, sym,
}
use inferrail.Common.Int.{pos, +ℤ_zero, int_laws}
use inferrail.Authority.State.{DelegationState, settlement, Delegations, Ledger, find, update}
use inferrail.Authority.Tables.{All-find}
use inferrail.Authority.Events.{validate_identifier, Result, record_event}
use inferrail.Authority.Invariant.{RowSound, IsConserving, has_active_child}
use inferrail.Authority.Invariant.Recording.{if-cases, record_event-IsConserving}
use inferrail.Authority.Invariant.Balance.{TableConserving-update, counted-update}
use inferrail.Authority.Invariant.Forest.{find_parent, any-children}
use inferrail.Authority.Invariant.Closing.{closed_root, closed_child, counted-closed_child}
use inferrail.Authority.Walks.{has_active_descendant, active_below}
use inferrail.Authority.Closing.{
  close, settle_parent, released_by, settle_fresh, settle_txn, start_revocation,
  mark_revocation_started,
}
use inferrail.Authority.Invariant.Spending.{unless_seen-cases}

-- The first round of the loop looks at the children themselves.
no_active_child :
    (d : String) (rows : Delegations)
    → has_active_descendant rows d ≡ false
    → has_active_child d rows ≡ false
unfolding has_active_descendant active_below
no_active_child d rows h = ground (arith, any-children d rows)

module _ (now : ℕ) (event_id d outcome : String) (r : DelegationState) (st : Ledger)
    (v : IsConserving st) (found : find d st.delegations ≡ some r) (on : r.active ≡ true)
    (quiet : has_active_child d st.delegations ≡ false) where
  abbrev settled : Option String → Ledger
  settled parent =
      record_event now event_id d (settlement d outcome) none outcome
        (settle_parent now r.consumed_usd (released_by r) parent
          (update d (close now outcome (released_by r)) st.delegations))
        st

  settle_root : r.parent_delegation_id ≡ none → IsConserving (settled none)
  unfolding settle_parent
  settle_root e =
      record_event-IsConserving now event_id d outcome (settlement d outcome) none _ st v
        (closed_root now outcome d r st.delegations v.table found on quiet e)
        (counted-update d (close now outcome (released_by r)) (λ _. (refl, refl)) r st.delegations
          found (pos 0) (rw (on, e) (omega int_laws)))

  settle_child : (p : String) → r.parent_delegation_id ≡ some p → IsConserving (settled (some p))
  unfolding settle_parent
  settle_child p e =
      let (q, holder) = find_parent d p r st.delegations v.table.forest found e in
      record_event-IsConserving now event_id d outcome (settlement d outcome) none _ st v
        (closed_child now outcome d r st.delegations v.table found on quiet p q e holder)
        (counted-closed_child now outcome d r st.delegations v.table found on quiet p q e holder
          ∙ sym (+ℤ_zero _))

  settled-IsConserving :
      (parent : Option String) → r.parent_delegation_id ≡ parent → IsConserving (settled parent)
  settled-IsConserving none e = settle_root e
  settled-IsConserving (some p) e = settle_child p e

settle_fresh-IsConserving :
    (now : ℕ) (event_id d outcome : String) (r : DelegationState) (st : Ledger)
    → IsConserving st
    → find d st.delegations ≡ some r
    → IsConserving (settle_fresh now event_id d outcome r st).1
unfolding settle_fresh
settle_fresh-IsConserving now event_id d outcome r st v found =
    if-cases {A = Result Bool} IsConserving (not r.active) _ _ (λ _. v)
      λ on.
        if-cases {A = Result Bool} IsConserving (has_active_descendant st.delegations d) _ _
          (λ _. v)
          λ quiet.
            settled-IsConserving now event_id d outcome r st v found (ground arith)
              (no_active_child d st.delegations quiet) r.parent_delegation_id refl

pub settle_txn-IsConserving :
    (now : ℕ) (event_id d outcome : String) (st : Ledger)
    → IsConserving st
    → IsConserving (settle_txn now event_id d outcome st).1
unfolding settle_txn
settle_txn-IsConserving now event_id d outcome st v = elim (Option-cases (find d st.delegations)) [
  | inl unknown ↦ rw (unknown, settle_txn) v
  | inr (r, found) ↦
      rw (found, settle_txn)
        (unless_seen-cases IsConserving _ st _ v
          (settle_fresh-IsConserving now event_id d outcome r st v found))
]

marked-IsConserving :
    (now : ℕ) (d : String) (r : DelegationState) (st : Ledger)
    → IsConserving st
    → find d st.delegations ≡ some r
    → IsConserving (record st { delegations = update d (start_revocation now) st.delegations })
marked-IsConserving now d r st v found =
    let s = All-find RowSound d r st.delegations v.table.sound found in
    record {
      table =
          TableConserving-update d (start_revocation now) (λ _. (refl, refl)) r st.delegations found
            (λ _. refl)
            (record {
              consumed_nonneg = s.consumed_nonneg;
              released_nonneg = s.released_nonneg;
              reserved_nonneg = s.reserved_nonneg;
              conserved = s.conserved;
              unreleased = s.unreleased;
            })
            (λ j. refl) refl v.table;
      audited =
          v.audited
          ∙ sym (
              counted-update d (start_revocation now) (λ _. (refl, refl)) r st.delegations found
                (pos 0) (sym (+ℤ_zero _))
              ∙ +ℤ_zero _);
    }

pub mark_revocation_started-IsConserving :
    (now : ℕ) (d : String) (st : Ledger)
    → IsConserving st
    → IsConserving (mark_revocation_started now d st).1
unfolding mark_revocation_started
mark_revocation_started-IsConserving now d st v =
    if-cases {A = Result Bool} IsConserving (not (validate_identifier d)) _ _ (λ _. v)
      λ _. elim (Option-cases (find d st.delegations)) [
        | inl unknown ↦ rw unknown v
        | inr (r, found) ↦ rw found (
            if-cases {A = Result Bool} IsConserving (is_some r.revocation_started_at) _ _ (λ _. v)
              λ _. marked-IsConserving now d r st v found)
      ]
