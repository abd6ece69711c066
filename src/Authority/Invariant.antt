-- ===== src/Authority/Invariant.antt =====
-- What holds of the tables of hosted/a2a_economic_authority/core.py between transactions.
pub mod Forest
pub mod Balance
pub mod Reserved
pub mod Recording
pub mod Opening
pub mod Spending
pub mod Granting
pub mod Closing
pub mod Settling
pub mod Bound
use inferrail.Common.{
  ℕ, ◌+◌, ◌≤◌, ◌≡◌, String, Bool, true, false, ◌&&◌, ◌||◌, not, Option, none, some, List, [], ◌∷◌,
  same_text, same_text?, is_some, if◌then◌else◌,
}
use inferrail.Common.Int.{ℤ, pos, ◌+ℤ◌, ◌-ℤ◌, ◌≤ℤ◌, pos_part, neg_part}
use inferrail.Common.Sums.{total, All}
use inferrail.Authority.State.{
  DelegationState, Delegations, Event, Payload, consumption, Events, Ledger, is_child_of, find,
}

-- What a delegation still takes up in its parent's `child_reserved_usd`: all of its authority while
-- it is active, and once it is settled the part that was neither spent nor released.
abbrev pub slot : DelegationState → ℤ
slot r = if r.active then r.authority_usd else r.authority_usd -ℤ r.consumed_usd -ℤ r.released_usd

-- The part of a row in the balance of delegation `j`: what `j` has reserved for its children, less
-- the slots of those children.
abbrev pub balance_at : String → DelegationState → ℤ
balance_at j r =
    (if same_text r.delegation_id j then r.child_reserved_usd else pos 0)
    -ℤ (if is_child_of j r then slot r else pos 0)

-- The same over all parents at once.
abbrev pub balance_of_all : DelegationState → ℤ
balance_of_all r =
    r.child_reserved_usd -ℤ (if is_some r.parent_delegation_id then slot r else pos 0)

-- Known spending that is counted in this row and in no ancestor's.
abbrev pub counted_spend : DelegationState → ℤ
counted_spend r = if r.active || not (is_some r.parent_delegation_id) then r.consumed_usd else pos 0

abbrev pub root_authority : DelegationState → ℤ
root_authority r = if is_some r.parent_delegation_id then pos 0 else r.authority_usd

abbrev pub spend_of : Payload → ℤ
spend_of (consumption d (some x)) = x
spend_of _ = pos 0

abbrev pub event_spend : Event → ℤ
event_spend e = spend_of e.payload

pub record RowSound (r : DelegationState) : Type 0 where
  pub consumed_nonneg : pos 0 ≤ℤ r.consumed_usd
  pub released_nonneg : pos 0 ≤ℤ r.released_usd
  pub reserved_nonneg : pos 0 ≤ℤ r.child_reserved_usd
  pub conserved : r.consumed_usd +ℤ r.child_reserved_usd +ℤ r.released_usd ≤ℤ r.authority_usd
  pub unreleased : r.active ≡ true → r.released_usd ≡ pos 0

-- Keys are unique, and a parent was inserted before its children.
abbrev pub Known : Option String → Delegations → Type 0
Known none rows = Unit {0}
Known (some p) rows = is_some (find p rows) ≡ true

abbrev pub IsForest : Delegations → Type 0
IsForest [] = Unit {0}
IsForest (r ∷ rows) =
    (find r.delegation_id rows ≡ none) × Known r.parent_delegation_id rows × IsForest rows

abbrev pub has_active_child : String → Delegations → Bool
has_active_child j [] = false
has_active_child j (r ∷ rows) = (is_child_of j r && r.active) || has_active_child j rows

-- The children of a closed delegation are closed.
abbrev pub IsAlive : Delegations → Type 0
IsAlive rows =
    (j : String) (q : DelegationState)
    → find j rows ≡ some q
    → q.active ≡ false
    → has_active_child j rows ≡ false

pub record TableConserving (rows : Delegations) : Type 0 where
  pub forest : IsForest rows
  pub sound : All RowSound rows
  pub balanced : (j : String) → total (balance_at j) rows ≡ pos 0
  pub balanced_over_all : total balance_of_all rows ≡ pos 0
  pub alive : IsAlive rows

-- The conservation laws of the whole store; the last says that the spending in the rows is the
-- spending in the recorded events.
pub record IsConserving (st : Ledger) : Type 0 where
  pub table : TableConserving st.delegations
  pub audited : total event_spend st.economic_events ≡ total counted_spend st.delegations
