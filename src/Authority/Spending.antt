-- ===== src/Authority/Spending.antt =====
-- `grant` and `consume` of hosted/a2a_economic_authority/core.py, inside their transactions.
use inferrail.Common.{
  ℕ, ◌+◌, String, Bool, true, false, not, ◌||◌, Option, none, some, ltb, if◌then◌else◌,
}
use inferrail.Common.Int.{ℤ, pos, ◌+ℤ◌, ◌-ℤ◌, ltb_ℤ}
use inferrail.Authority.State.{
  DelegationState, active_reservation_usd, authority_grant, consumption, Delegations, Ledger, find,
  update,
}
use inferrail.Authority.Walks.{is_revocation_in_progress_in_lineage}
use inferrail.Authority.Events.{Result, ok, check_event, record_event, unless_seen}
use inferrail.Authority.Opening.{add_child_reserved}

abbrev pub add_authority : ℕ → ℤ → DelegationState → DelegationState
add_authority now x r = record r { authority_usd = r.authority_usd +ℤ x; updated_at = now }

-- The parent that funds a grant has the same checks as in `reserve`, but for the revocation, which
-- was looked for along the whole lineage.
unfoldable pub cannot_fund : DelegationState → ℤ → Bool
unfolding active_reservation_usd
cannot_fund parent amount =
    (not parent.active || ltb 0 parent.unknown_cost_count)
    || ltb_ℤ (active_reservation_usd parent) amount

unfoldable pub fund_grant : ℕ → ℤ → Option String → Delegations → Option Delegations
unfolding cannot_fund
fund_grant now amount none rows = some rows
fund_grant now amount (some parent_id) rows = elim (find parent_id rows) [
  | none ↦ none
  | some parent ↦
      if cannot_fund parent amount
      then none
      else some (update parent_id (add_child_reserved now amount) rows)
]

-- The writes of a grant, once it is known who pays for it.
unfoldable pub write_grant :
    ℕ → String → String → ℤ → Ledger → Option Delegations → Result Bool × Ledger
unfolding record_event
write_grant now event_id d amount st none = (ok false, st)
write_grant now event_id d amount st (some funded) = (
  ok true,
  record_event now event_id d (authority_grant d amount) (some amount) "accepted"
      (update d (add_authority now amount) funded) st,
)

unfoldable pub grant_fresh :
    ℕ → String → String → ℤ → DelegationState → Ledger → Result Bool × Ledger
unfolding fund_grant write_grant
grant_fresh now event_id d amount row st =
    if ltb_ℤ amount (pos 0) || not row.active
    then (ok false, st)
    else if is_revocation_in_progress_in_lineage st.delegations d
    then (ok false, st)
    else write_grant now event_id d amount st
        (fund_grant now amount row.parent_delegation_id st.delegations)

unfoldable pub grant_txn : ℕ → String → String → ℤ → Ledger → Result Bool × Ledger
unfolding unless_seen grant_fresh
grant_txn now event_id d amount st = elim (find d st.delegations) [
  | none ↦ (ok false, st)
  | some row ↦
      unless_seen (check_event d event_id (authority_grant d amount) st.economic_events) st
        (grant_fresh now event_id d amount row st)
]

abbrev pub add_unknown : ℕ → DelegationState → DelegationState
add_unknown now r = record r { unknown_cost_count = r.unknown_cost_count + 1; updated_at = now }

abbrev pub add_consumed : ℕ → ℤ → DelegationState → DelegationState
add_consumed now x r = record r { consumed_usd = r.consumed_usd +ℤ x; updated_at = now }

unfoldable pub consume_amount :
    ℕ → String → String → Option ℤ → DelegationState → Ledger → Result Bool × Ledger
unfolding record_event
consume_amount now event_id d none row st = (
  ok true,
  record_event now event_id d (consumption d none) none "unknown"
      (update d (add_unknown now) st.delegations) st,
)
consume_amount now event_id d (some x) row st =
    if ltb_ℤ x (pos 0)
      || ltb_ℤ (row.authority_usd -ℤ row.child_reserved_usd) (row.consumed_usd +ℤ x)
    then (ok false, st)
    else (
      ok true,
      record_event now event_id d (consumption d (some x)) (some x) "accepted"
          (update d (add_consumed now x) st.delegations) st,
    )

unfoldable pub consume_fresh :
    ℕ → String → String → Option ℤ → DelegationState → Ledger → Result Bool × Ledger
unfolding consume_amount
consume_fresh now event_id d amount row st =
    if not row.active
    then (ok false, st)
    else if is_revocation_in_progress_in_lineage st.delegations d
    then (ok false, st)
    else consume_amount now event_id d amount row st

unfoldable pub consume_txn : ℕ → String → String → Option ℤ → Ledger → Result Bool × Ledger
unfolding unless_seen consume_fresh
consume_txn now event_id d amount st = elim (find d st.delegations) [
  | none ↦ (ok false, st)
  | some row ↦
      unless_seen (check_event d event_id (consumption d amount) st.economic_events) st
        (consume_fresh now event_id d amount row st)
]
