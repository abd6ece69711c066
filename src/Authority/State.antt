-- ===== src/Authority/State.antt =====
-- The tables of hosted/a2a_economic_authority/core.py: delegations and economic events, each with
-- the SQL statements that the store runs on it.
use inferrail.Common.{
  ℕ, String, Bool, true, false, ◌&&◌, Option, none, some, List, [], ◌∷◌, same_text, same_text?,
  if◌then◌else◌,
}
use inferrail.Common.Int.{ℤ, ◌-ℤ◌, eqb_ℤ}

pub record DelegationState : Type 0 where
  pub delegation_id : String
  pub parent_delegation_id : Option String
  pub agent_id : String
  pub authority_usd : ℤ
  pub consumed_usd : ℤ
  pub child_reserved_usd : ℤ
  pub released_usd : ℤ
  pub unknown_cost_count : ℕ
  pub active : Bool
  pub outcome : Option String
  pub revocation_started_at : Option ℕ
  pub created_at : ℕ
  pub updated_at : ℕ

unfoldable pub active_reservation_usd : DelegationState → ℤ
active_reservation_usd d = d.authority_usd -ℤ d.consumed_usd -ℤ d.child_reserved_usd

-- The canonical payloads, one shape for each kind of event. The source compares them as sorted JSON
-- with normalised decimals, which are equal exactly when these are.
pub data Payload : Type 0 where
  root : String → String → ℤ → Payload
  reservation : String → String → String → ℤ → Payload
  authority_grant : String → ℤ → Payload
  consumption : String → Option ℤ → Payload
  settlement : String → String → Payload

unfoldable pub same_amount? : Option ℤ → Option ℤ → Bool
same_amount? none none = true
same_amount? (some a) (some b) = eqb_ℤ a b
same_amount? _ _ = false

-- Equality of canonical texts. Amounts are compared as numbers; the source's text of a negative zero
-- differs from that of zero.
unfoldable pub same_payload : Payload → Payload → Bool
unfolding same_amount?
same_payload (root d a x) (root d' a' x') = same_text d d' && same_text a a' && eqb_ℤ x x'
same_payload (reservation p d a x) (reservation p' d' a' x') =
    same_text p p' && same_text d d' && same_text a a' && eqb_ℤ x x'
same_payload (authority_grant d x) (authority_grant d' x') = same_text d d' && eqb_ℤ x x'
same_payload (consumption d x) (consumption d' x') = same_text d d' && same_amount? x x'
same_payload (settlement d o) (settlement d' o') = same_text d d' && same_text o o'
same_payload _ _ = false

pub record Event : Type 0 where
  pub delegation_id : String
  pub event_id : String
  pub payload : Payload
  pub amount_usd : Option ℤ
  pub status : String
  pub created_at : ℕ

-- Newest first. `delegation_id` is the primary key, so a statement touches one row at most.
abbrev pub Delegations : Type 0
Delegations = List DelegationState

abbrev pub Events : Type 0
Events = List Event

pub record Ledger : Type 0 where
  pub delegations : Delegations
  pub economic_events : Events

abbrev pub empty : Ledger
empty = record { delegations = []; economic_events = [] }

-- `_get`: SELECT * FROM delegations WHERE delegation_id = ?
unfoldable pub find : String → Delegations → Option DelegationState
find d [] = none
find d (r ∷ rs) = if same_text r.delegation_id d then some r else find d rs

-- UPDATE delegations SET … WHERE delegation_id = ?
unfoldable pub update : String → (DelegationState → DelegationState) → Delegations → Delegations
update d f [] = []
update d f (r ∷ rs) = if same_text r.delegation_id d then f r ∷ rs else r ∷ update d f rs

abbrev pub is_child_of : String → DelegationState → Bool
is_child_of d r = same_text? r.parent_delegation_id (some d)

-- SELECT … FROM delegations WHERE parent_delegation_id = ?
unfoldable pub children : String → Delegations → Delegations
children d [] = []
children d (r ∷ rs) = let rest = children d rs in if is_child_of d r then r ∷ rest else rest

-- SELECT canonical_payload FROM economic_events WHERE delegation_id = ? AND event_id = ?
unfoldable pub find_event : String → String → Events → Option Payload
find_event d e [] = none
find_event d e (x ∷ xs) =
    if same_text x.delegation_id d && same_text x.event_id e
    then some x.payload
    else find_event d e xs
