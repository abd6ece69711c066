-- ===== src/Authority/Closing.antt =====
-- `settle` and `mark_revocation_started` of hosted/a2a_economic_authority/core.py.
use inferrail.Common.{
  ℕ, String, Bool, true, false, not, Option, none, some, ltb, is_some, if◌then◌else◌,
}
use inferrail.Common.Int.{ℤ, pos, ◌+ℤ◌, ◌-ℤ◌}
use inferrail.Authority.State.{
  DelegationState, active_reservation_usd, settlement, Delegations, Ledger, find, update,
}
use inferrail.Authority.Walks.{has_active_descendant}
use inferrail.Authority.Events.{
  Result, ok, err, invalid, validate_identifier, check_event, record_event, unless_seen,
}

abbrev pub close : ℕ → String → ℤ → DelegationState → DelegationState
close now outcome released r = record r {
  released_usd = released;
  active = false;
  outcome = some outcome;
  updated_at = now;
}

abbrev pub free_slot : ℕ → ℤ → ℤ → DelegationState → DelegationState
free_slot now consumed released p = record p {
  child_reserved_usd = p.child_reserved_usd -ℤ (consumed +ℤ released);
  consumed_usd = p.consumed_usd +ℤ consumed;
  updated_at = now;
}

-- A parent that is not in the table is left out.
unfoldable pub settle_parent : ℕ → ℤ → ℤ → Option String → Delegations → Delegations
settle_parent now consumed released none rows = rows
settle_parent now consumed released (some p) rows = update p (free_slot now consumed released) rows

unfoldable pub released_by : DelegationState → ℤ
unfolding active_reservation_usd
released_by row = if ltb 0 row.unknown_cost_count then pos 0 else active_reservation_usd row

unfoldable pub settle_fresh :
    ℕ → String → String → String → DelegationState → Ledger → Result Bool × Ledger
unfolding settle_parent released_by record_event
settle_fresh now event_id d outcome row st =
    if not row.active
    then (ok false, st)
    else if has_active_descendant st.delegations d
    then (ok false, st)
    else let released = released_by row in
      (
        ok true,
        record_event now event_id d (settlement d outcome) none outcome
            (settle_parent now row.consumed_usd released row.parent_delegation_id
              (update d (close now outcome released) st.delegations))
            st,
      )

unfoldable pub settle_txn : ℕ → String → String → String → Ledger → Result Bool × Ledger
unfolding unless_seen settle_fresh
settle_txn now event_id d outcome st = elim (find d st.delegations) [
  | none ↦ (ok false, st)
  | some row ↦
      unless_seen (check_event d event_id (settlement d outcome) st.economic_events) st
        (settle_fresh now event_id d outcome row st)
]

abbrev pub start_revocation : ℕ → DelegationState → DelegationState
start_revocation now r = record r { revocation_started_at = some now; updated_at = now }

unfoldable pub mark_revocation_started : ℕ → String → Ledger → Result Bool × Ledger
unfolding validate_identifier
mark_revocation_started now d st =
    if not (validate_identifier d) then (err invalid, st) else elim (find d st.delegations) [
      | none ↦ (ok false, st)
      | some row ↦
          if is_some row.revocation_started_at
          then (ok true, st)
          else (ok true, record st { delegations = update d (start_revocation now) st.delegations })
    ]
