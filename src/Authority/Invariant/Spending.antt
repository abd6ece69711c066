-- ===== src/Authority/Invariant/Spending.antt =====
-- `grant` and `consume` keep the conservation laws.
use inferrail.Common.{
  ℕ, ◌≡◌, refl, String, Bool, true, false, not, inl, inr, Option, none, some, arith, same_text?,
  Option-cases, sym,
}
use inferrail.Common.Int.{ℤ, pos, ◌+ℤ◌, ◌-ℤ◌, ◌≤ℤ◌, +ℤ_zero, int_laws}
use inferrail.Authority.State.{DelegationState, authority_grant, consumption, Ledger, find, update}
use inferrail.Authority.Tables.{All-find}
use inferrail.Authority.Events.{Result, ok, err, unless_seen, record_event}
use inferrail.Authority.Spending.{
  add_authority, add_unknown, add_consumed, consume_amount, consume_fresh, consume_txn,
}
use inferrail.Authority.Invariant.{RowSound, IsConserving}
use inferrail.Authority.Invariant.Recording.{if-cases, record_event-IsConserving}
use inferrail.Authority.Invariant.Balance.{TableConserving-update, counted-update}

pub unless_seen-cases {ℓ} :
    (P : Ledger → Type ℓ) (r : Result Bool) (st : Ledger) (fresh : Result Bool × Ledger)
    → P st
    → P fresh.1
    → P (unless_seen r st fresh).1
unfolding unless_seen
unless_seen-cases P (err e) st fresh h f = h
unless_seen-cases P (ok true) st fresh h f = h
unless_seen-cases P (ok false) st fresh h f = f

module _ (now : ℕ) (event_id d : String) (r : DelegationState) (st : Ledger) (v : IsConserving st)
    (found : find d st.delegations ≡ some r) where
  pub r_sound : RowSound r
  r_sound = All-find RowSound d r st.delegations v.table.sound found

  add_consumed-RowSound :
      (x : ℤ)
      → r.active ≡ true
      → pos 0 ≤ℤ x
      → r.consumed_usd +ℤ x ≤ℤ r.authority_usd -ℤ r.child_reserved_usd
      → RowSound (add_consumed now x r)
  add_consumed-RowSound x on nonneg fits =
      let s = r_sound in
      grind (int_laws, s.consumed_nonneg, s.released_nonneg, s.reserved_nonneg, s.unreleased on)

  -- A consumption within what is left is counted once, in its row and in its event.
  consume_known :
      (x : ℤ)
      → r.active ≡ true
      → pos 0 ≤ℤ x
      → r.consumed_usd +ℤ x ≤ℤ r.authority_usd -ℤ r.child_reserved_usd
      → IsConserving (
          record_event now event_id d
            (consumption d (some x))
            (some x)
            "accepted"
            (update d (add_consumed now x) st.delegations)
            st)
  consume_known x on nonneg fits =
      record_event-IsConserving now event_id d "accepted" (consumption d (some x)) (some x)
        (update d (add_consumed now x) st.delegations) st v
        (TableConserving-update d (add_consumed now x) (λ q. (refl, refl)) r st.delegations found
          (λ q. refl) (add_consumed-RowSound x on nonneg fits) (λ j. rw on) (rw on) v.table)
        (counted-update d (add_consumed now x) (λ q. (refl, refl)) r st.delegations found x (rw on))

  consume_unknown : IsConserving (
      record_event now event_id d
        (consumption d none)
        none
        "unknown"
        (update d (add_unknown now) st.delegations)
        st)
  consume_unknown =
      let s = r_sound in
      record_event-IsConserving now event_id d "unknown" (consumption d none) none
        (update d (add_unknown now) st.delegations) st v
        (TableConserving-update d (add_unknown now) (λ q. (refl, refl)) r st.delegations found
          (λ q. refl)
          (record {
            consumed_nonneg = s.consumed_nonneg;
            released_nonneg = s.released_nonneg;
            reserved_nonneg = s.reserved_nonneg;
            conserved = s.conserved;
            unreleased = s.unreleased;
          })
          (λ j. refl) refl v.table)
        (counted-update d (add_unknown now) (λ q. (refl, refl)) r st.delegations found (pos 0)
          (sym (+ℤ_zero _)))

  pub add_authority-RowSound : (x : ℤ) → pos 0 ≤ℤ x → RowSound (add_authority now x r)
  add_authority-RowSound x nonneg =
      let s = r_sound in
      grind (
        int_laws, s.consumed_nonneg, s.released_nonneg, s.reserved_nonneg, s.conserved,
        s.unreleased,
      )

  -- A grant to a root is a top-up: nothing else holds its authority.
  pub grant_root :
      (x : ℤ)
      → pos 0 ≤ℤ x
      → r.parent_delegation_id ≡ none
      → IsConserving (
          record_event now event_id d
            (authority_grant d x)
            (some x)
            "accepted"
            (update d (add_authority now x) st.delegations)
            st)
  unfolding same_text?
  grant_root x nonneg e =
      record_event-IsConserving now event_id d "accepted" (authority_grant d x) (some x)
        (update d (add_authority now x) st.delegations) st v
        (TableConserving-update d (add_authority now x) (λ q. (refl, refl)) r st.delegations found
          (λ q. refl) (add_authority-RowSound x nonneg) (λ j. rw e) (rw e) v.table)
        (counted-update d (add_authority now x) (λ q. (refl, refl)) r st.delegations found (pos 0)
          (sym (+ℤ_zero _)))

  consume_amount-IsConserving :
      (amount : Option ℤ)
      → r.active ≡ true
      → IsConserving (consume_amount now event_id d amount r st).1
  unfolding consume_amount
  consume_amount-IsConserving none on = consume_unknown
  consume_amount-IsConserving (some x) on =
      if-cases IsConserving _ _ _ (λ _. v) λ fits. consume_known x on (ground arith) (ground arith)

  consume_fresh-IsConserving :
      (amount : Option ℤ) → IsConserving (consume_fresh now event_id d amount r st).1
  unfolding consume_fresh
  consume_fresh-IsConserving amount =
      if-cases IsConserving (not r.active) _ _ (λ _. v)
        λ on.
          if-cases IsConserving _ _ _ (λ _. v)
            λ _. consume_amount-IsConserving amount (ground arith)

pub consume_txn-IsConserving :
    (now : ℕ) (event_id d : String) (amount : Option ℤ) (st : Ledger)
    → IsConserving st
    → IsConserving (consume_txn now event_id d amount st).1
unfolding consume_txn
consume_txn-IsConserving now event_id d amount st v = elim (Option-cases (find d st.delegations)) [
  | inl unknown ↦ rw (unknown, consume_txn) v
  | inr (r, found) ↦
      rw (found, consume_txn)
        (unless_seen-cases IsConserving _ st _ v
          (consume_fresh-IsConserving now event_id d r st v found amount))
]
