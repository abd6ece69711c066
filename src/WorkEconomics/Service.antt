-- ===== src/WorkEconomics/Service.antt =====
-- The `/invoke` handler of hosted/work_economics/service.py, once the payment middleware has let the
-- request through.
use inferrail.Common.{
  ℕ, ◌/◌, Bool, String, List, [], ◌∷◌, Option, none, some, if◌then◌else◌, non_empty, is_some,
}
use inferrail.Common.Int.{ℤ}
use inferrail.Common.Money.{usd}
use inferrail.Common.Json.{
  Json, null, text, array, object, Items, no_items, item, Fields, no_fields, field, get_field,
}
use inferrail.WorkEconomics.Capability.{
  Checked, accepted, invalid, type_error, checked_then, WorkEconomicsResult, events_of,
  compute_work_economics,
}
use inferrail.WorkEconomics.Store.{
  Quote, Purchase, Answer, answers, fetch, create_quote, record_payment, execute_once,
}

-- What the handler calls and the repository does not hold: reading a decimal, storing a JSON value in
-- a TEXT column (`none` where SQLite raises), and the UUID of a text.
pub record Outside : Type 0 where
  pub decimal : String → Option ℤ
  pub bind_text : Json → Option String
  pub uuid5 : String → String

pub data ReceiptStatus : Type 0 where
  delivered_status : ReceiptStatus
  input_rejected : ReceiptStatus

-- The fields of a receipt that differ; the others are constants of the service.
pub record CommercialReceipt : Type 0 where
  pub purchase_id : String
  pub invocation_id : String
  pub quoted_amount_usd : ℕ
  pub work_id : Json
  pub status : ReceiptStatus

-- what `execute_once` stores; a result `none` is the one that holds an error
pub record Delivery : Type 0 where
  pub result : Option WorkEconomicsResult
  pub receipt : CommercialReceipt

abbrev pub price_usd : ℕ
price_usd = usd / 20

unfoldable pub build_receipt : Outside → String → Json → ReceiptStatus → CommercialReceipt
build_receipt o purchase_id work_id status = record {
  purchase_id = purchase_id;
  invocation_id = o.uuid5 purchase_id;
  quoted_amount_usd = price_usd;
  work_id = work_id;
  status = status;
}

abbrev pub or_json : Json → Option Json → Json
or_json d none = d
or_json d (some v) = v

abbrev items : Items → List Json
items no_items = []
items (item v vs) = v ∷ items vs

abbrev keys : Fields → List Json
keys no_fields = []
keys (field k v rest) = text k ∷ keys rest

-- What `for e in events` goes through: `none` is a TypeError. A text goes by its characters, each of
-- which is refused as the text itself is.
unfoldable pub iterate : Option Json → Option (List Json)
unfolding non_empty
iterate none = some []
iterate (some (array vs)) = some (items vs)
iterate (some (object fs)) = some (keys fs)
iterate (some (text s)) = some (if non_empty s then text s ∷ [] else [])
iterate (some _) = none

abbrev pub delivery_of : Outside → String → Json → Checked WorkEconomicsResult → Option Delivery
delivery_of o id work_id (accepted r) =
    some record { result = some r; receipt = build_receipt o id work_id delivered_status }
delivery_of o id work_id invalid =
    some record { result = none; receipt = build_receipt o id work_id input_rejected }
delivery_of o id work_id type_error = none

abbrev pub compute_from : Outside → String → Json → Json → Option (List Json) → Option Delivery
compute_from o id work_id outcome none = none
compute_from o id work_id outcome (some es) =
    delivery_of o id work_id (
      checked_then (events_of o.decimal es) λ events. compute_work_economics work_id events outcome)

-- `compute` of the handler
unfoldable pub compute : Outside → String → Fields → Option Delivery
unfolding iterate get_field build_receipt
compute o id body =
    compute_from o id (or_json (text "unknown") (get_field "work_id" body))
      (or_json null (get_field "outcome_status" body)) (iterate (get_field "events" body))

pub record Invocation : Type 0 where
  pub purchase_id : Option String
  pub body : Fields
  pub payment_ref : Option String
  pub at : ℕ

-- `failed` is an exception that nothing in the handler catches.
pub data Response : Type 0 where
  bad_request : Response
  replied : ℕ → Delivery → Bool → Bool → Response
  failed : Response

abbrev pub code_of : Delivery → ℕ
code_of d = if is_some d.result then 200 else 422

abbrev pub reply : Bool → Answer Delivery → Response
reply charged (answers p delivers) = elim p.delivery [
  | none ↦ failed
  | some d ↦ replied (code_of d) d charged delivers
]
reply charged _ = failed

unfoldable pub execute_paid :
    Option Delivery
    → String
    → ℕ
    → Answer Delivery × List (Purchase Delivery)
    → Response × List (Purchase Delivery)
unfolding execute_once
execute_paid computed id at (answers p charged, ps) =
    let (answer, ps') = execute_once id computed at ps in (reply charged answer, ps')
execute_paid computed id at (_, ps) = (failed, ps)

abbrev pub or_unknown : Option String → String
or_unknown none = "unknown"
or_unknown (some s) = if non_empty s then s else "unknown"

abbrev pub quote_for : String → Quote
quote_for work_id = record {
  work_id = work_id;
  quoted_amount_usd = price_usd;
  quoted_currency = "USD";
  rail = "X402_BASE_SEPOLIA_TESTNET";
}

-- The work id is stored only with a new quote; SQLite raises on one that is no text.
abbrev pub quoted_table :
    Option String
    → String
    → ℕ
    → List (Purchase Delivery)
    → Option (Purchase Delivery)
    → Option (List (Purchase Delivery))
quoted_table work_id id at ps (some existing) = some ps
quoted_table none id at ps none = none
quoted_table (some w) id at ps none = some (create_quote id (quote_for w) at ps)

unfoldable pub invoke_quoted :
    Outside
    → String
    → Invocation
    → List (Purchase Delivery)
    → Option (List (Purchase Delivery))
    → Response × List (Purchase Delivery)
unfolding execute_paid record_payment compute
invoke_quoted o id v ps none = (failed, ps)
invoke_quoted o id v ps (some quoted) =
    execute_paid (compute o id v.body) id v.at
      (record_payment id (or_unknown v.payment_ref) v.at quoted)

unfoldable pub invoke_for :
    Outside → String → Invocation → List (Purchase Delivery) → Response × List (Purchase Delivery)
unfolding invoke_quoted get_field fetch
invoke_for o id v ps = invoke_quoted o id v ps (
    quoted_table (o.bind_text (or_json (text "unknown") (get_field "work_id" v.body))) id v.at ps
      (fetch id ps))

abbrev pub invoke_with :
    Outside
    → Invocation
    → List (Purchase Delivery)
    → Option String
    → Response × List (Purchase Delivery)
invoke_with o v ps none = (bad_request, ps)
invoke_with o v ps (some id) = if non_empty id then invoke_for o id v ps else (bad_request, ps)

unfoldable pub invoke :
    Outside → Invocation → List (Purchase Delivery) → Response × List (Purchase Delivery)
unfolding invoke_for non_empty
invoke o v ps = invoke_with o v ps v.purchase_id
