-- ===== src/Authority/Invariant/Reserved.antt =====
-- In a balanced table a parent has reserved at least the slot of each of its children.
use inferrail.Common.{
  ◌≡◌, refl, String, inl, inr, none, some, [], ◌∷◌, same_text, same_text_iff, same_text?_iff,
  Bool-cases, if◌then◌else◌,
}
use inferrail.Common.Int.{ℤ, pos, ◌+ℤ◌, ◌≤ℤ◌, int_laws}
use inferrail.Common.Sums.{total, All, total_nonneg, All-map}
use inferrail.Authority.State.{DelegationState, Delegations, is_child_of, find}
use inferrail.Authority.Invariant.{slot, balance_at, RowSound, IsForest, TableConserving}

abbrev own : String → DelegationState → ℤ
own j r = if same_text r.delegation_id j then r.child_reserved_usd else pos 0

abbrev slot_under : String → DelegationState → ℤ
slot_under j r = if is_child_of j r then slot r else pos 0

total-own-none : (j : String) (rows : Delegations) → find j rows ≡ none → total (own j) rows ≡ pos 0
unfolding find total
total-own-none j [] e = refl
total-own-none j (r ∷ rows) e = grind (int_laws, total-own-none j rows)

total-own :
    (j : String) (q : DelegationState) (rows : Delegations)
    → IsForest rows
    → find j rows ≡ some q
    → total (own j) rows ≡ q.child_reserved_usd
unfolding find total
total-own j q [] h e = cc
total-own j q (r ∷ rows) h e = elim (Bool-cases (same_text r.delegation_id j)) [
  | inl hit ↦ grind (int_laws, total-own-none j rows, (same_text_iff r.delegation_id j).0 hit, h.0)
  | inr miss ↦ grind (int_laws, total-own j q rows h.2)
]

le-total :
    (h : DelegationState → ℤ) (d : String) (c : DelegationState) (rows : Delegations)
    → All (λ r. pos 0 ≤ℤ h r) rows
    → find d rows ≡ some c
    → h c ≤ℤ total h rows
unfolding find total
le-total h d c [] a e = cc
le-total h d c (r ∷ rows) a e = elim (Bool-cases (same_text r.delegation_id d)) [
  | inl hit ↦ grind (int_laws, total_nonneg h rows a.1, a.0)
  | inr miss ↦ grind (int_laws, le-total h d c rows a.1, a.0)
]

balance_split :
    (j : String) (rows : Delegations)
    → total (balance_at j) rows +ℤ total (slot_under j) rows ≡ total (own j) rows
unfolding total
balance_split j [] = omega int_laws
balance_split j (r ∷ rows) = grind (int_laws, balance_split j rows)

slot_nonneg : (r : DelegationState) → RowSound r → pos 0 ≤ℤ slot r
slot_nonneg r s =
    grind (int_laws, s.consumed_nonneg, s.released_nonneg, s.reserved_nonneg, s.conserved)

slot_under_nonneg : (j : String) (r : DelegationState) → RowSound r → pos 0 ≤ℤ slot_under j r
slot_under_nonneg j r s = grind (int_laws, slot_nonneg r s)

pub slot-le-reserved :
    (d p : String) (c q : DelegationState) (rows : Delegations)
    → TableConserving rows
    → find d rows ≡ some c
    → find p rows ≡ some q
    → c.parent_delegation_id ≡ some p
    → slot c ≤ℤ q.child_reserved_usd
slot-le-reserved d p c q rows t fc fq e =
    let below = le-total (slot_under p) d c rows (All-map rows (slot_under_nonneg p) t.sound) fc in
    let split = balance_split p rows in
    let mine = total-own p q rows t.forest fq in
    let child = (same_text?_iff c.parent_delegation_id (some p)).1 e in
    grind (int_laws, t.balanced p)
