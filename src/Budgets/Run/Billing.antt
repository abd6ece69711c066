-- ===== src/Budgets/Run/Billing.antt =====
-- What a blocking per-run budget is billed for, receipt by receipt.
use inferrail.Common.{
  ℕ, ◌≤◌, String, true, false, ◌≡◌, ap, ◌∙◌, subst, inl, inr, Option, none, some, arith, Bool-cases,
  same_text?,
}
use inferrail.Common.Dict.{lookup, Attributes}
use inferrail.Common.Sorting.{sum_of}
use inferrail.Pricing.Cost.{or_zero}
use inferrail.Receipts.Schema.{InferenceReceipt, error}
use inferrail.Receipts.Store.{ReceiptsStore, satisfies, column_is, query}
use inferrail.Budgets.Schema.{
  Budget, work, block, per_work, is_truthy, shape_is_valid, budget_is_valid,
}
use inferrail.Budgets.Store.{Reservation, covers, counted_amount, column_equals}
use inferrail.Budgets.Clock.{window_start}
use inferrail.Budgets.Spending.{
  applies_to, counts_in, counted_cost, scope_filters, spent_so_far_usd,
}
use inferrail.Budgets.Run.Measures.{billed_to, queried_sum}

-- a blocking budget of one unit of work
abbrev pub IsRunBudget : Budget → Type 0
IsRunBudget b =
    (b.scope ≡ work) × (b.window ≡ per_work) × (b.mode ≡ block) × (budget_is_valid b ≡ true)

pub no_window : (now : ℕ) (b : Budget) → b.window ≡ per_work → window_start now b.window ≡ none
unfolding window_start
no_window now b h = ap (λ x. window_start now x) h

pub spent_is_billed :
    (now : ℕ) (b : Budget) (receipts : ReceiptsStore)
    → b.window ≡ per_work
    → (spent_so_far_usd now receipts b).spent_usd ≡ sum_of (billed_to b) receipts
unfolding spent_so_far_usd
spent_is_billed now b receipts h =
    ap (λ x. sum_of (counted_cost x) (query (scope_filters b) receipts)) (no_window now b h)
    ∙ queried_sum b receipts

equal_columns :
    (value wanted : Option String)
    → column_equals value wanted ≡ true
    → same_text? value wanted ≡ true
unfolding column_equals same_text?
equal_columns none wanted h = absurd (ground (arith, h))
equal_columns (some v) none h = absurd (ground (arith, h))
equal_columns (some v) (some w) h = h

pub covered_applies :
    (b : Budget) (r : Reservation) (attributes : Attributes)
    → b.scope ≡ work
    → r.work_id ≡ lookup "work_id" attributes
    → covers b none r ≡ true
    → applies_to attributes b ≡ true
unfolding covers applies_to
covered_applies b r attributes scope attributed h =
    let counted : column_equals r.work_id b.scope_value ≡ true = ground (arith, scope, h) in
    let named : same_text? (lookup "work_id" attributes) b.scope_value ≡ true =
      equal_columns (lookup "work_id" attributes) b.scope_value
        (subst (λ v. column_equals v b.scope_value ≡ true) attributed counted) in
    ground (arith, scope, named)

-- a receipt of the work that the budget is for is one of a reservation that the budget counts
billed_columns :
    (value wanted : Option String)
    → is_truthy wanted ≡ true
    → column_is value wanted ≡ true
    → column_equals value wanted ≡ true
unfolding column_is column_equals is_truthy
billed_columns value none truthy h = absurd (ground (arith, truthy))
billed_columns none (some w) truthy h = absurd (ground (arith, h))
billed_columns (some v) (some w) truthy h = h

named_value : (b : Budget) → IsRunBudget b → is_truthy b.scope_value ≡ true
unfolding budget_is_valid shape_is_valid
named_value b run = ground (arith, run.0, run.3)

pub billed_le_counted :
    (b : Budget) (receipt : InferenceReceipt) (r : Reservation)
    → IsRunBudget b
    → lookup "work_id" receipt.attributes ≡ r.work_id
    → or_zero receipt.estimated_cost_usd ≤ r.amount_usd
    → billed_to b receipt ≤ counted_amount b none r
unfolding covers satisfies scope_filters
billed_le_counted b receipt r run attributed cheap =
    elim (Bool-cases (column_is (lookup "work_id" receipt.attributes) b.scope_value)) [
      | inr other ↦ ground (arith, run.0, other)
      | inl mine ↦
          let counted : column_equals r.work_id b.scope_value ≡ true =
            subst (λ v. column_equals v b.scope_value ≡ true) attributed
              (billed_columns (lookup "work_id" receipt.attributes) b.scope_value
                (named_value b run) mine) in
          ground (arith, run.0, mine, counted, cheap)
    ]

-- a receipt of a request that the budget does not apply to
pub unapplied_bills_nothing :
    (b : Budget) (receipt : InferenceReceipt) (attributes : Attributes)
    → IsRunBudget b
    → lookup "work_id" receipt.attributes ≡ lookup "work_id" attributes
    → applies_to attributes b ≡ false
    → billed_to b receipt ≡ 0
unfolding satisfies scope_filters applies_to
unapplied_bills_nothing b receipt attributes run attributed h =
    elim (Bool-cases (column_is (lookup "work_id" receipt.attributes) b.scope_value)) [
      | inr other ↦ ground (arith, run.0, other)
      | inl mine ↦
          let named : same_text? (lookup "work_id" attributes) b.scope_value ≡ true =
            subst (λ v. same_text? v b.scope_value ≡ true) attributed
              (equal_columns (lookup "work_id" receipt.attributes) b.scope_value (
                billed_columns (lookup "work_id" receipt.attributes) b.scope_value
                  (named_value b run) mine)) in
          absurd (ground (arith, run.0, named, h))
    ]

pub error_bills_nothing :
    (b : Budget) (receipt : InferenceReceipt) → receipt.status ≡ error → billed_to b receipt ≡ 0
unfolding counts_in
error_bills_nothing b receipt h = ground (arith, h)
