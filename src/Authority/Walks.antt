-- ===== src/Authority/Walks.antt =====
-- The two loops over the tree of delegations: up to the root, and down over a stack.
pub mod Lineage
use inferrail.Common.{
  ℕ, zero, suc, String, Bool, true, false, Option, none, some, List, [], ◌∷◌, ltb, length, any,
  is_some, if◌then◌else◌,
}
use inferrail.Authority.State.{Delegations, find, children}

-- The `while` of `_is_revocation_in_progress_in_lineage`, on fuel.
unfoldable pub revoked_from : ℕ → Delegations → Option String → Bool
revoked_from zero rows current = true
revoked_from (suc fuel) rows none = false
revoked_from (suc fuel) rows (some d) = elim (find d rows) [
  | none ↦ false
  | some row ↦
      let above = revoked_from fuel rows row.parent_delegation_id in
      if is_some row.revocation_started_at then true else above
]

unfoldable pub is_revocation_in_progress_in_lineage : Delegations → String → Bool
is_revocation_in_progress_in_lineage rows d = revoked_from (suc (length rows)) rows (some d)

-- `stack.append` of each row in turn; the head of the list is the top of the stack
unfoldable pub push_all : Delegations → List String → List String
push_all [] stack = stack
push_all (r ∷ rs) stack = push_all rs (r.delegation_id ∷ stack)

-- The `while` of `_has_active_descendant`, on fuel.
unfoldable pub active_below : ℕ → Delegations → List String → Bool
unfolding push_all
active_below zero rows stack = true
active_below (suc fuel) rows [] = false
active_below (suc fuel) rows (current ∷ stack) =
    let rest = active_below fuel rows (push_all (children current rows) stack) in
    if any (λ r. r.active) (children current rows) then true else rest

unfoldable pub has_active_descendant : Delegations → String → Bool
has_active_descendant rows d = active_below (suc (suc (length rows))) rows (d ∷ [])

-- The `while` of `has_unknown_cost`, on fuel.
unfoldable pub unknown_below : ℕ → Delegations → List String → Bool
unfolding push_all
unknown_below zero rows stack = true
unknown_below (suc fuel) rows [] = false
unknown_below (suc fuel) rows (current ∷ stack) =
    let rest = unknown_below fuel rows (push_all (children current rows) stack) in
    if elim (find current rows) [ none ↦ false | some r ↦ ltb 0 r.unknown_cost_count ]
    then true
    else rest

unfoldable pub has_unknown_cost : Delegations → String → Bool
has_unknown_cost rows d = unknown_below (suc (suc (length rows))) rows (d ∷ [])
