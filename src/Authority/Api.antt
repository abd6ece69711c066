-- ===== src/Authority/Api.antt =====
-- The public methods of `EconomicAuthorityStore`: validation, then one transaction. `invariant` reports.
use inferrail.Common.{ℕ, String, Bool, true, false, not, ◌&&◌, Option, none, some, if◌then◌else◌}
use inferrail.Common.Int.{ℤ, pos, ◌+ℤ◌, leb_ℤ}
use inferrail.Common.Money.{Amount}
use inferrail.Authority.State.{DelegationState, active_reservation_usd, Ledger, find}
use inferrail.Authority.Walks.{has_unknown_cost}
use inferrail.Authority.Events.{
  Result, ok, err, invalid, ReserveOutcome, validate_identifier, validate_amount,
}
use inferrail.Authority.Opening.{create_root_txn, reserve_txn}
use inferrail.Authority.Spending.{grant_txn, consume_txn}
use inferrail.Authority.Closing.{settle_txn}

-- Python raises at the first argument that is refused; every such error is a `ValueError`.
unfoldable pub with_valid :
    {A B : Type 0} → Bool → Result A → (A → Ledger → Result B × Ledger) → Ledger → Result B × Ledger
with_valid false amount body st = (err invalid, st)
with_valid true (err e) body st = (err e, st)
with_valid true (ok x) body st = body x st

unfoldable pub create_root :
    ℕ → String → String → String → Amount → Ledger → Result DelegationState × Ledger
create_root now event_id d agent envelope =
    with_valid (validate_identifier d && validate_identifier agent && validate_identifier event_id)
      (validate_amount envelope) (create_root_txn now event_id d agent)

unfoldable pub reserve :
    ℕ → String → String → String → String → Amount → Ledger → Result ReserveOutcome × Ledger
reserve now event_id parent_id d agent maximum =
    with_valid
      (validate_identifier parent_id
        && validate_identifier d
        && validate_identifier agent
        && validate_identifier event_id)
      (validate_amount maximum) (reserve_txn now event_id parent_id d agent)

unfoldable pub grant : ℕ → String → String → Amount → Ledger → Result Bool × Ledger
grant now event_id d amount =
    with_valid (validate_identifier d && validate_identifier event_id) (validate_amount amount)
      (grant_txn now event_id d)

abbrev validate_amount? : Option Amount → Result (Option ℤ)
validate_amount? none = ok none
validate_amount? (some a) = elim (validate_amount a) [ ok x ↦ ok (some x) | err e ↦ err e ]

unfoldable pub consume : ℕ → String → String → Option Amount → Ledger → Result Bool × Ledger
consume now event_id d amount =
    with_valid (validate_identifier d && validate_identifier event_id) (validate_amount? amount)
      (consume_txn now event_id d)

unfoldable pub settle : ℕ → String → String → String → Ledger → Result Bool × Ledger
settle now event_id d outcome =
    with_valid
      (validate_identifier d && validate_identifier event_id && validate_identifier outcome)
      (ok outcome) (settle_txn now event_id d)

-- The label that `invariant` reports.
pub data Label : Type 0 where
  missing violated satisfied not_violated_on_known_values : Label

unfoldable pub is_satisfied : DelegationState → Bool
unfolding active_reservation_usd
is_satisfied r =
    leb_ℤ (pos 0) r.consumed_usd
    && leb_ℤ (pos 0) r.released_usd
    && leb_ℤ (pos 0) r.child_reserved_usd
    && leb_ℤ (pos 0) (active_reservation_usd r)
    && leb_ℤ (r.consumed_usd +ℤ r.child_reserved_usd) r.authority_usd

unfoldable pub invariant : String → Ledger → Label
unfolding is_satisfied
invariant d st = elim (find d st.delegations) [
  | none ↦ missing
  | some r ↦
      if not (is_satisfied r)
      then violated
      else if has_unknown_cost st.delegations d
      then not_violated_on_known_values
      else satisfied
]
