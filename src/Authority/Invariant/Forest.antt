-- ===== src/Authority/Invariant/Forest.antt =====
-- The tree structure and the activity of parents under the statements of the table.
use inferrail.Common.{
  ◌≡◌, refl, ◌∙◌, ap, Option-cases, String, true, false, inl, inr, Option, none, some, [], ◌∷◌,
  arith, same_text, same_text_iff, same_text?, same_text?_iff, is_some, Bool-cases, any, subst,
}
use inferrail.Authority.State.{DelegationState, Delegations, find, update, children}
use inferrail.Authority.Tables.{Keeps, find-update}
use inferrail.Authority.Invariant.{Known, IsForest, has_active_child}

module _ (d : String) (f : DelegationState → DelegationState) (k : Keeps f) where
  pub known-update :
      (j : String) (rows : Delegations) → is_some (find j (update d f rows)) ≡ is_some (find j rows)
  known-update j rows = rw (find-update d f j rows k) (ground arith)

  Known-update : (p : Option String) (rows : Delegations) → Known p rows → Known p (update d f rows)
  Known-update none rows h = tt
  Known-update (some p) rows h = rw (known-update p rows) h

  pub find-update-none :
      (j : String) (rows : Delegations) → find j rows ≡ none → find j (update d f rows) ≡ none
  find-update-none j rows h = rw (find-update d f j rows k) (ground arith)

  pub IsForest-update : (rows : Delegations) → IsForest rows → IsForest (update d f rows)
  unfolding update
  IsForest-update [] h = tt
  IsForest-update (r ∷ rows) h = elim (Bool-cases (same_text r.delegation_id d)) [
    | inl hit ↦ rw (hit, (k r).0, (k r).1) h
    | inr miss ↦ rw miss (
      find-update-none r.delegation_id rows h.0,
      Known-update r.parent_delegation_id rows h.1,
      IsForest-update rows h.2,
    )
  ]

  -- No statement makes a row active again.
  pub has_active_child-update :
      ((r : DelegationState) → (f r).active ≡ true → r.active ≡ true)
      → (j : String) (rows : Delegations) → has_active_child j rows ≡ false
      → has_active_child j (update d f rows) ≡ false
  unfolding update
  has_active_child-update quiet j [] h = refl
  has_active_child-update quiet j (r ∷ rows) h =
      ground (arith, quiet r, (k r).1, has_active_child-update quiet j rows)

-- The query that `_has_active_descendant` makes for one delegation.
pub any-children :
    (j : String) (rows : Delegations)
    → any (λ r. r.active) (children j rows) ≡ has_active_child j rows
unfolding children
any-children j [] = refl
any-children j (r ∷ rows) = ground (arith, any-children j rows)

Known-ne :
    (j : String) (p : Option String) (rows : Delegations)
    → Known p rows
    → find j rows ≡ none
    → same_text? p (some j) ≡ false
unfolding same_text?
Known-ne j none rows h e = refl
Known-ne j (some p) rows h e = ground (arith, same_text_iff p j)

-- A key that is not in the table has no children there.
pub childless :
    (j : String) (rows : Delegations) → IsForest rows → find j rows ≡ none → children j rows ≡ []
unfolding children find
childless j [] h e = refl
childless j (r ∷ rows) h e =
    ground (arith, Known-ne j r.parent_delegation_id rows h.1, childless j rows h.2)

-- No delegation is its own parent.
pub parent_ne :
    (d p : String) (r : DelegationState) (rows : Delegations)
    → IsForest rows
    → find d rows ≡ some r
    → r.parent_delegation_id ≡ some p
    → same_text p d ≡ false
unfolding find
parent_ne d p r [] h e q = cc
parent_ne d p r (x ∷ rows) h e q = elim (Bool-cases (same_text x.delegation_id d)) [
  | inl hit ↦
      let a = Known-ne x.delegation_id x.parent_delegation_id rows h.1 h.0 in
      ground (
        arith,
        a,
        same_text_iff x.delegation_id d,
        same_text?_iff x.parent_delegation_id (some x.delegation_id),
        same_text_iff p d,
      )
  | inr miss ↦ parent_ne d p r rows h.2 (ground arith) q
]

-- The parent of a row is in the table.
known_parent :
    (d p : String) (r : DelegationState) (rows : Delegations)
    → IsForest rows
    → find d rows ≡ some r
    → r.parent_delegation_id ≡ some p
    → is_some (find p rows) ≡ true
unfolding find
known_parent d p r [] h e q = cc
known_parent d p r (x ∷ rows) h e q = elim (Bool-cases (same_text x.delegation_id d)) [
  | inl hit ↦
      let known =
        subst (λ o. Known o rows)
          (ap (λ (y : DelegationState). y.parent_delegation_id) (the_head hit) ∙ q) h.1 in
      ground (arith, known)
  | inr miss ↦ ground (arith, known_parent d p r rows h.2 (ground arith) q)
]
  where
    the_head : same_text x.delegation_id d ≡ true → x ≡ r
    the_head hit = ground arith

pub Known-find :
    (d : String) (r : DelegationState) (rows : Delegations)
    → IsForest rows
    → find d rows ≡ some r
    → Known r.parent_delegation_id rows
Known-find d r rows h e = known_option r.parent_delegation_id refl
  where
    known_option : (o : Option String) → r.parent_delegation_id ≡ o → Known o rows
    known_option none q = tt
    known_option (some p) q = known_parent d p r rows h e q

pub find_parent :
    (d p : String) (r : DelegationState) (rows : Delegations)
    → IsForest rows
    → find d rows ≡ some r
    → r.parent_delegation_id ≡ some p
    → (q : DelegationState) × (find p rows ≡ some q)
find_parent d p r rows h e q = elim (Option-cases (find p rows)) [
  | inl missing ↦ absurd (ground (arith, known_parent d p r rows h e q))
  | inr there ↦ there
]

-- An active row is an active child of its parent.
pub active_child_found :
    (d p : String) (r : DelegationState) (rows : Delegations)
    → find d rows ≡ some r
    → r.parent_delegation_id ≡ some p
    → r.active ≡ true
    → has_active_child p rows ≡ true
unfolding find
active_child_found d p r [] e q on = cc
active_child_found d p r (x ∷ rows) e q on =
    ground (arith, active_child_found d p r rows, same_text?_iff r.parent_delegation_id (some p))
