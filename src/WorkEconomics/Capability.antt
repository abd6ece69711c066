-- ===== src/WorkEconomics/Capability.antt =====
-- hosted/work_economics/capability.py. Reading a decimal text is an argument, for finite decimals; the
-- texts of NaN and the infinities, which `Decimal` reads too, are left out. Costs are in units of
-- 10⁻¹² dollar.
use Prim.Native.Nat.{ℕ, ◌+◌}
use inferrail.Common.{
  Bool, true, false, String, List, [], ◌∷◌, Option, none, some, if◌then◌else◌, same_text, non_empty,
  ◌==◌, length,
}
use inferrail.Common.Int.{ℤ, pos, negsuc}
use inferrail.Common.Dict.{Dict, lookup, put}
use inferrail.Common.Json.{Json, null, text, array, object, Fields, get_field}
use inferrail.Receipts.Schema.{Status, success, error, partial}

pub data PriceBasis : Type 0 where
  list_price_published : PriceBasis
  provider_reported_estimate : PriceBasis
  unknown_basis : PriceBasis

abbrev pub basis_value : PriceBasis → String
basis_value list_price_published = "LIST_PRICE_PUBLISHED"
basis_value provider_reported_estimate = "PROVIDER_REPORTED_ESTIMATE"
basis_value unknown_basis = "UNKNOWN"

pub record EconomicEvent : Type 0 where
  pub resource_class : String
  pub supplier : String
  pub price_basis : PriceBasis
  pub status : Status
  pub known_cost_usd : Option ℕ

-- `invalid` is InvalidEconomicEvent; a list or an object looked up in a set is a TypeError.
pub data Checked (A : Type 0) : Type 0 where
  accepted : A → Checked A
  invalid : Checked A
  type_error : Checked A

abbrev pub checked_then : {A B : Type 0} → Checked A → (A → Checked B) → Checked B
checked_then (accepted a) f = f a
checked_then invalid f = invalid
checked_then type_error f = type_error

unfoldable pub required_text : Option Json → Checked String
unfolding non_empty
required_text (some (text s)) = if non_empty s then accepted s else invalid
required_text _ = invalid

abbrev pub basis_of : String → Checked PriceBasis
basis_of s =
    if same_text s "LIST_PRICE_PUBLISHED"
    then accepted list_price_published
    else if same_text s "PROVIDER_REPORTED_ESTIMATE"
    then accepted provider_reported_estimate
    else if same_text s "UNKNOWN"
    then accepted unknown_basis
    else invalid

abbrev pub status_of : String → Checked Status
status_of s =
    if same_text s "success"
    then accepted success
    else if same_text s "error"
    then accepted error
    else if same_text s "partial"
    then accepted partial
    else invalid

-- `x not in {…}` for a set of texts
abbrev pub in_set : {A : Type 0} → (String → Checked A) → Option Json → Checked A
in_set f (some (text s)) = f s
in_set f (some (array _)) = type_error
in_set f (some (object _)) = type_error
in_set f _ = invalid

abbrev pub is_usd : Option Json → Checked Unit
is_usd none = accepted tt
is_usd (some (text s)) = if same_text s "USD" then accepted tt else invalid
is_usd (some _) = invalid

abbrev pub not_negative : Option ℤ → Checked (Option ℕ)
not_negative (some (pos n)) = accepted (some n)
not_negative (some (negsuc n)) = invalid
not_negative none = invalid

unfoldable pub cost_of : (String → Option ℤ) → Option Json → Checked (Option ℕ)
cost_of decimal none = accepted none
cost_of decimal (some null) = accepted none
cost_of decimal (some (text s)) = not_negative (decimal s)
cost_of decimal (some _) = invalid

-- The last two tests: a cost is known exactly for a priced basis.
unfoldable pub consistent_cost : PriceBasis → Option ℕ → Checked (Option ℕ)
consistent_cost unknown_basis none = accepted none
consistent_cost unknown_basis (some cost) = invalid
consistent_cost _ none = invalid
consistent_cost _ (some cost) = accepted (some cost)

unfoldable pub from_fields : (String → Option ℤ) → Fields → Checked EconomicEvent
unfolding required_text get_field same_text cost_of consistent_cost
from_fields decimal raw =
    checked_then (required_text (get_field "resource_class" raw)) λ resource_class.
      checked_then (required_text (get_field "supplier" raw)) λ supplier.
        checked_then (in_set basis_of (get_field "price_basis" raw)) λ price_basis.
          checked_then (in_set status_of (get_field "status" raw)) λ status.
            checked_then (is_usd (get_field "currency" raw)) λ usd.
              checked_then (cost_of decimal (get_field "known_cost_usd" raw)) λ cost.
                checked_then (consistent_cost price_basis cost) λ known_cost_usd. accepted record {
                  resource_class = resource_class;
                  supplier = supplier;
                  price_basis = price_basis;
                  status = status;
                  known_cost_usd = known_cost_usd;
                }

unfoldable pub from_dict : (String → Option ℤ) → Json → Checked EconomicEvent
unfolding from_fields
from_dict decimal (object raw) = from_fields decimal raw
from_dict decimal _ = invalid

-- `[EconomicEvent.from_dict(e) for e in events]`
unfoldable pub events_of : (String → Option ℤ) → List Json → Checked (List EconomicEvent)
unfolding from_dict
events_of decimal [] = accepted []
events_of decimal (e ∷ es) =
    let rest = events_of decimal es in
    checked_then (from_dict decimal e)
      λ event. checked_then rest λ events. accepted (event ∷ events)

pub record WorkEconomicsResult : Type 0 where
  pub work_id : String
  pub known_total_cost_usd : Option ℕ
  pub exact_total_known : Bool
  pub event_count : ℕ
  pub unknown_event_count : ℕ
  pub breakdown_by_resource_class : Dict ℕ
  pub breakdown_by_supplier : Dict ℕ
  pub price_provenance : Dict ℕ
  pub outcome_status : Json

-- what the loop accumulates
pub record Tally : Type 0 where
  pub known_total : ℕ
  pub have_any_known : Bool
  pub unknown_count : ℕ
  pub by_resource : Dict ℕ
  pub by_supplier : Dict ℕ
  pub provenance : Dict ℕ

abbrev pub no_tally : Tally
no_tally = record {
  known_total = 0;
  have_any_known = false;
  unknown_count = 0;
  by_resource = [];
  by_supplier = [];
  provenance = [];
}

abbrev pub or_nothing : Option ℕ → ℕ
or_nothing none = 0
or_nothing (some n) = n

-- `d[k] = d.get(k, 0) + n`
unfoldable pub add_at : String → ℕ → Dict ℕ → Dict ℕ
unfolding lookup put
add_at k n d = put k (or_nothing (lookup k d) + n) d

unfoldable pub tally_cost : EconomicEvent → Tally → Option ℕ → Tally
unfolding add_at
tally_cost v t none = record t { unknown_count = t.unknown_count + 1 }
tally_cost v t (some cost) = record t {
  have_any_known = true;
  known_total = t.known_total + cost;
  by_resource = add_at v.resource_class cost t.by_resource;
  by_supplier = add_at v.supplier cost t.by_supplier;
}

unfoldable pub tally_event : Tally → EconomicEvent → Tally
unfolding tally_cost
tally_event t v =
    tally_cost v (record t { provenance = add_at (basis_value v.price_basis) 1 t.provenance })
      v.known_cost_usd

unfoldable pub tally_all : Tally → List EconomicEvent → Tally
unfolding tally_event
tally_all t [] = t
tally_all t (v ∷ vs) = tally_all (tally_event t v) vs

unfoldable pub result_of : String → List EconomicEvent → Json → WorkEconomicsResult
unfolding tally_all
result_of work_id events outcome_status =
    let t = tally_all no_tally events in
    record {
      work_id = work_id;
      known_total_cost_usd = if t.have_any_known then some t.known_total else none;
      exact_total_known = t.unknown_count == 0;
      event_count = length events;
      unknown_event_count = t.unknown_count;
      breakdown_by_resource_class = t.by_resource;
      breakdown_by_supplier = t.by_supplier;
      price_provenance = t.provenance;
      outcome_status = outcome_status;
    }

abbrev has_events : List EconomicEvent → Bool
has_events [] = false
has_events (_ ∷ _) = true

unfoldable pub compute_work_economics :
    Json → List EconomicEvent → Json → Checked WorkEconomicsResult
unfolding required_text result_of
compute_work_economics work_id events outcome_status =
    checked_then (required_text (some work_id))
      λ id. if has_events events then accepted (result_of id events outcome_status) else invalid
