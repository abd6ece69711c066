-- ===== src/Transactions/Total.antt =====
-- A transaction's totals are those of the events that it lists.
use inferrail.Common.{
  ℕ, ◌≡◌, refl, sym, ap, ◌∙◌, String, List, [], ◌∷◌, map, filter, Option, none, some, if◌then◌else◌,
  arith,
}
use inferrail.Common.Sorting.{sort_by, sum_of}
use inferrail.Pricing.Cost.{or_zero}
use inferrail.Receipts.Schema.{InferenceReceipt}
use inferrail.Receipts.Store.{by_time}
use inferrail.Receipts.Economics.{ReceiptEconomics, Outcome, known, unknown, summarize_receipts}
use inferrail.Receipts.Totals.{summarize_totals}
use inferrail.Transactions.{
  EconomicEventRef, TaskTransaction, event_of, transaction_of, transaction_from, is_of_task,
  build_transaction, new_transaction_id,
}

abbrev pub real_cost : EconomicEventRef → ℕ
real_cost v = if v.simulated then 0 else or_zero v.cost_usd

abbrev pub simulated_cost : EconomicEventRef → ℕ
simulated_cost v = if v.simulated then or_zero v.cost_usd else 0

-- the totals of a transaction by its own events
abbrev pub AddsUp : TaskTransaction → Type 0
AddsUp t =
    (t.known_total_cost_usd ≡ sum_of real_cost t.events)
    × (t.simulated_total_cost_usd ≡ sum_of simulated_cost t.events)

sum_of-events :
    (f : EconomicEventRef → ℕ) (rs : List InferenceReceipt)
    → sum_of f (map event_of rs) ≡ sum_of (λ r. f (event_of r)) rs
unfolding sum_of
sum_of-events f [] = refl
sum_of-events f (r ∷ rs) = omega (arith, sum_of-events f rs)

abbrev or_field {ℓ} : {A : Type ℓ} → (TaskTransaction → A) → A → Option TaskTransaction → A
or_field f d none = d
or_field f d (some x) = f x

of_economics :
    (id task : String) (events : List EconomicEventRef) (e : ReceiptEconomics) (o : Outcome)
    (started ended : Option ℕ) (t : TaskTransaction)
    → transaction_of id task events e o started ended ≡ some t
    → (t.known_total_cost_usd ≡ e.known_cost_usd)
      × (t.simulated_total_cost_usd ≡ e.simulated_cost_usd)
      × (t.events ≡ events)
unfolding transaction_of
of_economics id task events e unknown started ended t h = absurd (ground (arith, h))
of_economics id task events e (known s) none ended t h = absurd (ground (arith, h))
of_economics id task events e (known s) (some a) none t h = absurd (ground (arith, h))
of_economics id task events e (known s) (some a) (some b) t h = (
  ap (λ o. or_field (λ x. x.known_total_cost_usd) e.known_cost_usd o) (sym h),
  ap (λ o. or_field (λ x. x.simulated_total_cost_usd) e.simulated_cost_usd o) (sym h),
  ap (λ o. or_field (λ x. x.events) events o) (sym h),
)

from-AddsUp :
    (sha : String → String) (task : String) (rs : List InferenceReceipt) (t : TaskTransaction)
    → transaction_from sha task rs ≡ some t
    → AddsUp t
unfolding transaction_from event_of
from-AddsUp sha task [] t h = absurd (ground (arith, h))
from-AddsUp sha task (r ∷ rs) t h =
    let events = map event_of (r ∷ rs) in
    let e = summarize_receipts (r ∷ rs) in
    let (cost, simulated, listed) =
      of_economics (new_transaction_id sha task (map (λ v. v.event_id) events)) task events e
        e.status e.started_at e.ended_at t h in
    let totals = summarize_totals (r ∷ rs) in
    (
      cost
          ∙ totals.0
          ∙ sym (sum_of-events real_cost (r ∷ rs))
          ∙ ap (λ v. sum_of real_cost v) (sym listed),
      simulated
          ∙ totals.1
          ∙ sym (sum_of-events simulated_cost (r ∷ rs))
          ∙ ap (λ v. sum_of simulated_cost v) (sym listed),
    )

-- The known total of the transaction that is built for a task is the sum of the costs of its real
-- events, and its simulated total the sum of those of its simulated events.
pub build_transaction-AddsUp :
    (sha : String → String) (attribute_name task : String) (receipts : List InferenceReceipt)
    (t : TaskTransaction)
    → build_transaction sha attribute_name task receipts ≡ some t
    → AddsUp t
unfolding build_transaction
build_transaction-AddsUp sha attribute_name task receipts t h =
    from-AddsUp sha task (sort_by by_time (filter (is_of_task attribute_name task) receipts)) t h
