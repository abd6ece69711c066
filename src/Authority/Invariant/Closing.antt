-- ===== src/Authority/Invariant/Closing.antt =====
-- `settle` and `mark_revocation_started` keep the conservation laws.
use inferrail.Common.{
  ℕ, ◌≡◌, refl, String, true, false, inl, inr, none, some, arith, same_text, same_text_iff,
  same_text?, Bool-cases, if◌then◌else◌, subst,
}
use inferrail.Common.Int.{pos, ◌+ℤ◌, ◌-ℤ◌, ◌≤ℤ◌, int_laws}
use inferrail.Common.Sums.{total}
use inferrail.Authority.State.{DelegationState, Delegations, find, update}
use inferrail.Authority.Tables.{find_key, find-update, All-update, All-find}
use inferrail.Authority.Invariant.{
  balance_at, balance_of_all, counted_spend, RowSound, IsAlive, TableConserving, has_active_child,
}
use inferrail.Authority.Invariant.Forest.{
  IsForest-update, has_active_child-update, parent_ne, active_child_found,
}
use inferrail.Authority.Invariant.Balance.{cancel_moved, total-update_eq, IsAlive-update}
use inferrail.Authority.Invariant.Reserved.{slot-le-reserved}
use inferrail.Authority.Closing.{close, free_slot, released_by}

module _ (now : ℕ) (outcome d : String) (r : DelegationState) (rows : Delegations)
    (t : TableConserving rows) (found : find d rows ≡ some r) (on : r.active ≡ true)
    (quiet : has_active_child d rows ≡ false) where
  abbrev pub closed : Delegations
  closed = update d (close now outcome (released_by r)) rows

  r_sound : RowSound r
  r_sound = All-find RowSound d r rows t.sound found

  released_bounds :
      (pos 0 ≤ℤ released_by r)
      × (r.consumed_usd +ℤ r.child_reserved_usd +ℤ released_by r ≤ℤ r.authority_usd)
      × (r.consumed_usd +ℤ released_by r ≤ℤ r.authority_usd)
  unfolding released_by
  released_bounds =
      let s = r_sound in
      grind (
        int_laws,
        s.consumed_nonneg,
        s.released_nonneg,
        s.reserved_nonneg,
        s.conserved,
        s.unreleased on,
      )

  close-RowSound : RowSound (close now outcome (released_by r) r)
  close-RowSound = record {
    consumed_nonneg = r_sound.consumed_nonneg;
    released_nonneg = released_bounds.0;
    reserved_nonneg = r_sound.reserved_nonneg;
    conserved = released_bounds.1;
    unreleased = λ e. cc;
  }

  closed-IsAlive : IsAlive closed
  closed-IsAlive j q e off =
      let shuts = close now outcome (released_by r) in
      has_active_child-update d shuts (λ _. (refl, refl)) (λ x h. cc) j rows
        (elim (Bool-cases (same_text d j)) [
          | inl hit ↦ subst (λ k. has_active_child k rows ≡ false) ((same_text_iff d j).0 hit) quiet
          | inr miss ↦
              t.alive j q (ground (arith, find-update d shuts j rows (λ _. (refl, refl)))) off
        ])

  pub closed_root : r.parent_delegation_id ≡ none → TableConserving closed
  unfolding same_text?
  closed_root e = record {
    forest =
        IsForest-update d (close now outcome (released_by r)) (λ _. (refl, refl)) rows t.forest;
    sound =
        All-update d (close now outcome (released_by r)) RowSound r rows found close-RowSound
          t.sound;
    balanced = λ j.
        rw
          (
            total-update_eq d (close now outcome (released_by r)) (λ _. (refl, refl)) r rows found
                (balance_at j),
            t.balanced j,
            e,
          )
          (omega int_laws);
    balanced_over_all =
        rw
          (
            total-update_eq d (close now outcome (released_by r)) (λ _. (refl, refl)) r rows found
                balance_of_all,
            t.balanced_over_all,
            e,
          )
          (omega int_laws);
    alive = closed-IsAlive;
  }

  module _ (p : String) (q : DelegationState) (parent : r.parent_delegation_id ≡ some p)
      (holder : find p rows ≡ some q) where
    holder_active : q.active ≡ true
    holder_active = elim (Bool-cases q.active) [
      | inl yes_active ↦ yes_active
      | inr off ↦
          let still = active_child_found d p r rows found parent on in
          ground (arith, still, t.alive p q holder off)
    ]

    abbrev frees : DelegationState → DelegationState
    frees = free_slot now r.consumed_usd (released_by r)

    holder_found : find p closed ≡ some q
    holder_found =
        let other = parent_ne d p r rows t.forest found parent in
        rw (find-update d (close now outcome (released_by r)) p rows (λ _. (refl, refl)))
          (ground (arith, other, same_text_iff p d, same_text_iff d p, holder))

    holder-RowSound : RowSound (frees q)
    holder-RowSound =
        let s = All-find RowSound p q rows t.sound holder in
        let b = released_bounds in
        let enough = slot-le-reserved d p r q rows t found holder parent in
        grind (
          int_laws, s.consumed_nonneg, s.released_nonneg, s.conserved, s.unreleased,
          r_sound.consumed_nonneg,
        )

    balance_at-close :
        (j : String)
        → balance_at j (close now outcome (released_by r) r)
          ≡ balance_at j r +ℤ (if same_text p j then r.consumed_usd +ℤ released_by r else pos 0)
    unfolding same_text?
    balance_at-close j = rw (on, parent) (grind int_laws)

    balance_at-frees :
        (j : String)
        → balance_at j (frees q)
          ≡ balance_at j q -ℤ (if same_text p j then r.consumed_usd +ℤ released_by r else pos 0)
    balance_at-frees j = rw (holder_active, find_key p q rows holder) (grind int_laws)

    closed_child_balanced : (j : String) → total (balance_at j) (update p frees closed) ≡ pos 0
    closed_child_balanced j =
        cancel_moved _ _ _ _ _ _ _
          (if same_text p j then r.consumed_usd +ℤ released_by r else pos 0)
          (total-update_eq d (close now outcome (released_by r)) (λ _. (refl, refl)) r rows found
            (balance_at j))
          (total-update_eq p frees (λ _. (refl, refl)) q closed holder_found (balance_at j))
          (t.balanced j) (balance_at-close j) (balance_at-frees j)

    closed_child_balanced_over_all : total balance_of_all (update p frees closed) ≡ pos 0
    closed_child_balanced_over_all =
        cancel_moved _ _ _ _ _ _ _ (r.consumed_usd +ℤ released_by r)
          (total-update_eq d (close now outcome (released_by r)) (λ _. (refl, refl)) r rows found
            balance_of_all)
          (total-update_eq p frees (λ _. (refl, refl)) q closed holder_found balance_of_all)
          t.balanced_over_all (rw (on, parent) (omega int_laws)) (rw holder_active (omega int_laws))

    pub closed_child : TableConserving (update p frees closed)
    closed_child = record {
      forest =
          IsForest-update p frees (λ _. (refl, refl)) closed
            (IsForest-update d (close now outcome (released_by r)) (λ _. (refl, refl)) rows
              t.forest);
      sound = All-update p frees RowSound q closed holder_found holder-RowSound (
          All-update d (close now outcome (released_by r)) RowSound r rows found close-RowSound
            t.sound);
      balanced = closed_child_balanced;
      balanced_over_all = closed_child_balanced_over_all;
      alive = IsAlive-update p frees (λ _. (refl, refl)) (λ _. refl) closed closed-IsAlive;
    }

    pub counted-closed_child :
        total counted_spend (update p frees closed) ≡ total counted_spend rows
    counted-closed_child =
        rw
          (
            total-update_eq p frees (λ _. (refl, refl)) q closed holder_found counted_spend,
            total-update_eq d (close now outcome (released_by r)) (λ _. (refl, refl)) r rows found
                counted_spend,
            holder_active,
            on,
            parent,
          )
          (omega int_laws)
