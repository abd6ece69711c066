-- ===== src/Authority/Events.antt =====
-- Errors, validation and the idempotency check of hosted/a2a_economic_authority/core.py. An exception
-- is a value, and the ledger comes back as it was, since the transaction is rolled back.
use inferrail.Common.{
  ℕ, ◌+◌, ◌*◌, ◌^◌, String, Bool, true, false, ◌&&◌, Option, none, some, ◌∷◌, ltb, leb, count_chars,
  non_empty, if◌then◌else◌,
}
use inferrail.Common.Int.{ℤ, pos_part, neg_part}
use inferrail.Common.Money.{usd, Amount, finite, not_finite}
use inferrail.Authority.State.{Payload, same_payload, Delegations, Events, Ledger, find_event}

-- `ValueError`, and its subclass `EventConflict`
pub data Error : Type 0 where
  invalid conflict : Error

pub data Result {ℓ} (A : Type ℓ) : Type ℓ where
  ok : A → Result A
  err : Error → Result A

pub data ReserveOutcome : Type 0 where
  created already_exists rejected : ReserveOutcome

-- `MAX_IDENTIFIER_LENGTH` is 256.
unfoldable pub validate_identifier : String → Bool
unfolding non_empty count_chars
validate_identifier value = non_empty value && leb (count_chars value) 256

-- `MAX_REASONABLE_AMOUNT_USD` is 10¹² dollars.
unfoldable pub validate_amount : Amount → Result ℤ
validate_amount not_finite = err invalid
validate_amount (finite x) =
    if ltb (10 ^ 12 * usd) (pos_part x + neg_part x) then err invalid else ok x

unfoldable pub check_event : String → String → Payload → Events → Result Bool
check_event d event_id payload events = elim (find_event d event_id events) [
  | none ↦ ok false
  | some existing ↦ if same_payload existing payload then ok true else err conflict
]

unfoldable pub record_event :
    ℕ → String → String → Payload → Option ℤ → String → Delegations → Ledger → Ledger
record_event now event_id d payload amount status rows st = record {
  delegations = rows;
  economic_events =
      record {
        delegation_id = d;
        event_id = event_id;
        payload = payload;
        amount_usd = amount;
        status = status;
        created_at = now;
      }
      ∷ st.economic_events;
}

-- The end of `create_root` and `reserve`: `_check_event`, then `_record_event` unless it was seen.
unfoldable pub conclude {ℓ} :
    {A : Type ℓ} → Result Bool → A → Ledger → Ledger → Ledger → Result A × Ledger
conclude (err e) answer unseen seen st = (err e, st)
conclude (ok true) answer unseen seen st = (ok answer, seen)
conclude (ok false) answer unseen seen st = (ok answer, unseen)

-- The body of `grant`, `consume` and `settle` once the event is new.
unfoldable pub unless_seen : Result Bool → Ledger → Result Bool × Ledger → Result Bool × Ledger
unless_seen (err e) st fresh = (err e, st)
unless_seen (ok true) st fresh = (ok true, st)
unless_seen (ok false) st fresh = fresh
