-- ===== src/Authority/Opening.antt =====
-- `create_root` and `reserve` of hosted/a2a_economic_authority/core.py, inside their transactions.
use inferrail.Common.{
  ℕ, String, Bool, true, not, ◌||◌, Option, none, some, ◌∷◌, ltb, same_text, same_text?,
  if◌then◌else◌,
}
use inferrail.Common.Int.{ℤ, pos, ◌+ℤ◌, ltb_ℤ, eqb_ℤ}
use inferrail.Authority.State.{
  DelegationState, active_reservation_usd, root, reservation, Delegations, Ledger, find, update,
}
use inferrail.Authority.Walks.{is_revocation_in_progress_in_lineage}
use inferrail.Authority.Events.{
  Result, ok, err, invalid, conflict, ReserveOutcome, created, already_exists, rejected,
  check_event, record_event, conclude,
}

unfoldable pub new_row : ℕ → String → Option String → String → ℤ → DelegationState
new_row now d parent agent authority = record {
  delegation_id = d;
  parent_delegation_id = parent;
  agent_id = agent;
  authority_usd = authority;
  consumed_usd = pos 0;
  child_reserved_usd = pos 0;
  released_usd = pos 0;
  unknown_cost_count = 0;
  active = true;
  outcome = none;
  revocation_started_at = none;
  created_at = now;
  updated_at = now;
}

unfoldable pub create_root_txn :
    ℕ → String → String → String → ℤ → Ledger → Result DelegationState × Ledger
unfolding new_row record_event conclude
create_root_txn now event_id d agent envelope st = elim (find d st.delegations) [
  | some existing ↦
      if not (same_text existing.agent_id agent) || not (eqb_ℤ existing.authority_usd envelope)
      then (err conflict, st)
      else (ok existing, st)
  | none ↦
      if ltb_ℤ envelope (pos 0)
      then (err invalid, st)
      else let row = new_row now d none agent envelope in
        let rows : Delegations = row ∷ st.delegations in
        let payload = root d agent envelope in
        conclude (check_event d event_id payload st.economic_events) row
          (record_event now event_id d payload (some envelope) "accepted" rows st)
          (record st { delegations = rows }) st
]

-- What holds the parent back: inactive, or an unknown cost, or a revocation above it, or too little.
unfoldable pub lacks_headroom : Delegations → String → DelegationState → ℤ → Bool
unfolding active_reservation_usd
lacks_headroom rows parent_id parent maximum =
    (not parent.active || ltb 0 parent.unknown_cost_count)
    || is_revocation_in_progress_in_lineage rows parent_id
    || ltb_ℤ (active_reservation_usd parent) maximum

abbrev pub add_child_reserved : ℕ → ℤ → DelegationState → DelegationState
add_child_reserved now x r = record r {
  child_reserved_usd = r.child_reserved_usd +ℤ x;
  updated_at = now;
}

unfoldable pub reserve_under :
    ℕ
    → String
    → String
    → String
    → String
    → ℤ
    → DelegationState
    → Ledger
    → Result ReserveOutcome × Ledger
unfolding new_row record_event conclude lacks_headroom
reserve_under now event_id parent_id d agent maximum parent st =
    if lacks_headroom st.delegations parent_id parent maximum
    then (ok rejected, st)
    else let row = new_row now d (some parent_id) agent maximum in
      let rows : Delegations =
        row ∷ update parent_id (add_child_reserved now maximum) st.delegations in
      let payload = reservation parent_id d agent maximum in
      conclude (check_event d event_id payload st.economic_events) created
        (record_event now event_id d payload (some maximum) "accepted" rows st)
        (record st { delegations = rows }) st

unfoldable pub reserve_txn :
    ℕ → String → String → String → String → ℤ → Ledger → Result ReserveOutcome × Ledger
unfolding reserve_under
reserve_txn now event_id parent_id d agent maximum st = elim (find d st.delegations) [
  | some existing ↦
      if not (same_text? existing.parent_delegation_id (some parent_id))
        || not (same_text existing.agent_id agent)
        || not (eqb_ℤ existing.authority_usd maximum)
      then (err conflict, st)
      else (ok already_exists, st)
  | none ↦
      if ltb_ℤ maximum (pos 0) then (ok rejected, st) else elim (find parent_id st.delegations) [
        | none ↦ (ok rejected, st)
        | some parent ↦ reserve_under now event_id parent_id d agent maximum parent st
      ]
]
