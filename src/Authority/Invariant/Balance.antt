-- ===== src/Authority/Invariant/Balance.antt =====
-- Statements that leave every balance as it was, and what a balanced table says of one row.
use inferrail.Common.{◌≡◌, String, ◌⊎◌, inl, inr, some, arith, Option-cases}
use inferrail.Common.Int.{ℤ, pos, ◌+ℤ◌, ◌-ℤ◌, int_laws}
use inferrail.Common.Sums.{total}
use inferrail.Authority.State.{DelegationState, Delegations, find, update}
use inferrail.Authority.Tables.{Keeps, find-update, total-update, All-update}
use inferrail.Authority.Invariant.{
  balance_at, balance_of_all, counted_spend, RowSound, IsAlive, TableConserving,
}
use inferrail.Authority.Invariant.Forest.{IsForest-update, has_active_child-update}

-- Two statements that move an amount from one balance to another.
pub cancel_moved :
    (whole one two before before' child child' moved : ℤ)
    → one ≡ whole +ℤ before' -ℤ before
    → two ≡ one +ℤ child' -ℤ child
    → whole ≡ pos 0
    → before' ≡ before +ℤ moved
    → child' ≡ child -ℤ moved
    → two ≡ pos 0
cancel_moved whole one two before before' child child' moved f s z p n =
    rw (s, f, z, p, n) (omega int_laws)

module _ (d : String) (f : DelegationState → DelegationState) (k : Keeps f) where
  -- The row behind a row that is found after the statement.
  find-update-some :
      (j : String) (q : DelegationState) (rows : Delegations)
      → find j (update d f rows) ≡ some q
      → (r : DelegationState) × (find j rows ≡ some r) × ((q ≡ f r) ⊎ (q ≡ r))
  find-update-some j q rows e = elim (Option-cases (find j rows)) [
    | inl none_there ↦ absurd (ground (arith, find-update d f j rows k))
    | inr (r, there) ↦ (r, there, ground (arith, find-update d f j rows k))
  ]

  pub IsAlive-update :
      ((r : DelegationState) → (f r).active ≡ r.active)
      → (rows : Delegations) → IsAlive rows
      → IsAlive (update d f rows)
  IsAlive-update same rows h j q e off =
      let (r, there, was) = find-update-some j q rows e in
      has_active_child-update d f k (λ r p. ground (arith, same r)) j rows
        (h j r there (ground (arith, same r)))

  module _ (r : DelegationState) (rows : Delegations) (found : find d rows ≡ some r)
      (h : DelegationState → ℤ) where
    pub total-update_eq : total h (update d f rows) ≡ total h rows +ℤ h (f r) -ℤ h r
    total-update_eq = grind (int_laws, total-update d f h r rows found)

  -- What is counted as spent after a statement that adds `x` to the spending of its row.
  pub counted-update :
      (r : DelegationState) (rows : Delegations)
      → find d rows ≡ some r
      → (x : ℤ) → counted_spend (f r) ≡ counted_spend r +ℤ x
      → total counted_spend (update d f rows) ≡ total counted_spend rows +ℤ x
  counted-update r rows found x e =
      rw (total-update_eq r rows found counted_spend, e) (omega int_laws)

  pub TableConserving-update :
      (r : DelegationState) (rows : Delegations)
      → find d rows ≡ some r
      → ((q : DelegationState) → (f q).active ≡ q.active)
      → RowSound (f r)
      → ((j : String) → balance_at j (f r) ≡ balance_at j r)
      → balance_of_all (f r) ≡ balance_of_all r
      → TableConserving rows
      → TableConserving (update d f rows)
  TableConserving-update r rows found same sound neutral neutral_over_all t = record {
    forest = IsForest-update d f k rows t.forest;
    sound = All-update d f RowSound r rows found sound t.sound;
    balanced =
        λ j. grind (int_laws, total-update_eq r rows found (balance_at j), neutral j, t.balanced j);
    balanced_over_all = grind (int_laws, total-update_eq r rows found balance_of_all);
    alive = IsAlive-update same rows t.alive;
  }
