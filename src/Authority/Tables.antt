-- ===== src/Authority/Tables.antt =====
-- Lookups, sums and predicates under the statements of the delegations table.
use inferrail.Common.{
  String, ◌≡◌, inl, inr, some, [], ◌∷◌, arith, same_text, same_text_iff, subst, Bool-cases,
  if◌then◌else◌,
}
use inferrail.Common.Int.{ℤ, ◌+ℤ◌, int_laws}
use inferrail.Common.Sums.{total, All}
use inferrail.Authority.State.{DelegationState, Delegations, find, update}
use mathlib.Core.Option

-- A statement that sets columns other than the key and the parent.
abbrev pub Keeps : (DelegationState → DelegationState) → Type 0
Keeps f =
    (r : DelegationState)
    → ((f r).delegation_id ≡ r.delegation_id)
      × ((f r).parent_delegation_id ≡ r.parent_delegation_id)

module _ (d : String) (f : DelegationState → DelegationState) where
  pub find-update :
      (j : String) (rows : Delegations)
      → Keeps f
      → find j (update d f rows)
        ≡ (if same_text d j then Option.map f (find j rows) else find j rows)
  unfolding find update
  find-update j [] k = ground arith
  find-update j (r ∷ rows) k = ground (
    arith,
    k r,
    find-update j rows k,
    same_text_iff r.delegation_id d,
    same_text_iff r.delegation_id j,
    same_text_iff (f r).delegation_id j,
    same_text_iff d j,
  )

  -- One row changes, so a sum over the table changes by what that row adds.
  pub total-update :
      (h : DelegationState → ℤ) (r : DelegationState) (rows : Delegations)
      → find d rows ≡ some r
      → total h (update d f rows) +ℤ h r ≡ total h rows +ℤ h (f r)
  unfolding find update total
  total-update h r [] e = cc
  total-update h r (q ∷ rows) e = grind (int_laws, total-update h r rows)

  pub All-update {κ} :
      (P : DelegationState → Type κ) (r : DelegationState) (rows : Delegations)
      → find d rows ≡ some r
      → P (f r)
      → All P rows
      → All P (update d f rows)
  unfolding find update
  All-update P r [] e p a = tt
  All-update P r (q ∷ rows) e p a = elim (Bool-cases (same_text q.delegation_id d)) [
    | inl hit ↦ rw hit (subst (λ x. P (f x)) (ground arith) p, a.1)
    | inr miss ↦ rw miss (a.0, All-update P r rows (ground arith) p a.1)
  ]

pub All-find {κ} :
    (P : DelegationState → Type κ) (d : String) (r : DelegationState) (rows : Delegations)
    → All P rows
    → find d rows ≡ some r
    → P r
unfolding find
All-find P d r [] a e = cc
All-find P d r (q ∷ rows) a e = elim (Bool-cases (same_text q.delegation_id d)) [
  | inl hit ↦ subst P (ground arith) a.0
  | inr miss ↦ All-find P d r rows a.1 (ground arith)
]

-- The row that is found has the key that was asked for.
pub find_key :
    (d : String) (r : DelegationState) (rows : Delegations)
    → find d rows ≡ some r
    → r.delegation_id ≡ d
unfolding find
find_key d r [] e = cc
find_key d r (q ∷ rows) e = ground (arith, find_key d r rows, same_text_iff q.delegation_id d)
