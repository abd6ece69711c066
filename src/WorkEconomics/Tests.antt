-- ===== src/WorkEconomics/Tests.antt =====
-- Runs of the work economics capability, and each theorem at a run.
use Prim.Native.String.{◌++◌}
use inferrail.Common.{
  ℕ, ◌+◌, ◌≤◌, ◌≡◌, refl, true, false, List, [], ◌∷◌, none, some, any, length, same_text, non_empty,
  if◌then◌else◌, ◌==◌,
}
use inferrail.Common.Int.{pos}
use inferrail.Common.Dict.{lookup, put}
use inferrail.Common.Json.{
  Json, null, text, array, object, item, no_items, field, no_fields, get_field,
}
use inferrail.Common.Sorting.{sum_of}
use inferrail.Receipts.Schema.{success}
use inferrail.WorkEconomics.Capability.{
  EconomicEvent, list_price_published, unknown_basis, required_text, cost_of, consistent_cost,
  from_fields, from_dict, events_of, add_at, tally_cost, tally_event, tally_all, result_of,
  compute_work_economics,
}
use inferrail.WorkEconomics.Breakdown.{spread, cost_known, cost_missing, is_known, result_adds_up}
use inferrail.WorkEconomics.Store.{
  Purchase, fetch, update_purchase, create_quote, record_payment, execute_once,
}
use inferrail.WorkEconomics.Lifecycle.{
  view, at_only, quote_spec, pay_spec, deliver_spec, store_refines,
}
use inferrail.WorkEconomics.Service.{
  Outside, Invocation, Delivery, Response, replied, build_receipt, delivered_status, iterate,
  compute, execute_paid, invoke_quoted, invoke_for, invoke, quote_for,
}
use inferrail.WorkEconomics.Counting.{is_charged, is_executed}
use inferrail.WorkEconomics.Sales.{serve, times_charged, times_executed, sold_once}
use inferrail.WorkEconomics.Repeats.{invoke_repeats}

abbrev outside : Outside
outside = record {
  decimal = λ s. if same_text s "0.02" then some (pos 20) else none;
  bind_text = λ v. some "work";
  uuid5 = λ s. "uuid-" ++ s;
}

abbrev event : EconomicEvent
event = record {
  resource_class = "inference";
  supplier = "supplier";
  price_basis = list_price_published;
  status = success;
  known_cost_usd = some 20;
}

abbrev events : List EconomicEvent
events = event ∷ record event { price_basis = unknown_basis; known_cost_usd = none } ∷ event ∷ []

computing : Unit {0}
unfolding same_text non_empty get_field lookup put required_text cost_of consistent_cost from_fields
    from_dict events_of add_at tally_cost tally_event tally_all result_of compute_work_economics
    fetch update_purchase create_quote record_payment execute_once build_receipt iterate compute
    execute_paid invoke_quoted invoke_for invoke serve times_charged times_executed view sum_of
computing = tt

result_adds_up_example :
    let r = result_of "work" events null in
    (r.known_total_cost_usd
      ≡ (if any is_known events then some (sum_of cost_known events) else none))
    × (spread r.breakdown_by_resource_class ≡ sum_of cost_known events)
    × (spread r.breakdown_by_supplier ≡ sum_of cost_known events)
    × (spread r.price_provenance ≡ length events)
    × (r.unknown_event_count ≡ sum_of cost_missing events)
    × (r.exact_total_known ≡ (sum_of cost_missing events == 0))
result_adds_up_example = result_adds_up "work" events null

total_of_events : (result_of "work" events null).known_total_cost_usd ≡ some 40
unfolding computing
total_of_events = refl

abbrev priced : Json
priced = object (
    field "resource_class" (text "inference") (
      field "supplier" (text "supplier") (
        field "price_basis" (text "LIST_PRICE_PUBLISHED")
          (field "status" (text "success") (field "known_cost_usd" (text "0.02") no_fields)))))

abbrev request : Invocation
request = record {
  purchase_id = some "purchase";
  body = field "work_id" (text "work") (field "events" (array (item priced no_items)) no_fields);
  payment_ref = some "nonce";
  at = 1;
}

-- A request whose events are no list breaks in the delivery: the payment stays on record.
abbrev broken : Invocation
broken = record request { purchase_id = some "other"; body = field "events" null no_fields }

abbrev code_in : Response → ℕ
code_in (replied c _ _ _) = c
code_in _ = 500

first_reply : code_in (invoke outside request []).0 ≡ 200
unfolding computing
first_reply = refl

broken_reply : code_in (invoke outside broken []).0 ≡ 500
unfolding computing
broken_reply = refl

abbrev requests : List Invocation
requests = broken ∷ request ∷ request ∷ broken ∷ []

charged_once : times_charged outside "purchase" requests [] ≡ 1
unfolding computing
charged_once = refl

sold_once_example :
    (times_charged outside "purchase" requests [] + is_charged (view [] "purchase") ≤ 1)
    × (times_executed outside "purchase" requests [] + is_executed (view [] "purchase") ≤ 1)
sold_once_example = sold_once outside "purchase" requests []

abbrev nothing_sold : List (Purchase Delivery)
nothing_sold = []

store_refines_example :
    (view (create_quote "purchase" (quote_for "work") 1 nothing_sold) "purchase"
      ≡ at_only "purchase" (quote_spec (quote_for "work")) (view nothing_sold) "purchase")
    × (view (record_payment "purchase" "nonce" 1 nothing_sold).1 "purchase"
        ≡ at_only "purchase" (pay_spec "nonce") (view nothing_sold) "purchase")
    × (view (execute_once "purchase" none 1 nothing_sold).1 "purchase"
        ≡ at_only "purchase" (deliver_spec none) (view nothing_sold) "purchase")
store_refines_example =
    store_refines "purchase" (quote_for "work") "nonce" none 1 nothing_sold "purchase"

abbrev sold : Delivery
sold = record {
  result = some (result_of "work" (event ∷ []) null);
  receipt = build_receipt outside "purchase" (text "work") delivered_status;
}

invoke_repeats_example :
    let qs = serve outside (request ∷ []) (invoke_for outside "purchase" request []).1 in
    invoke_for outside "purchase" broken qs ≡ (replied 200 sold false false, qs)
unfolding computing
invoke_repeats_example =
    invoke_repeats outside "purchase" request [] 200 sold true true refl (request ∷ []) broken
