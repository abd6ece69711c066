-- ===== src/Budgets/Spending.antt =====
-- Which budgets apply to a request, and what was spent under one: src/inferrail/budgets/enforcement.py.
use inferrail.Common.{
  ℕ, Bool, true, false, not, ◌&&◌, any, filter, Option, is_some, List, if◌then◌else◌, same_text?,
  String,
}
use inferrail.Common.Dict.{Attributes, lookup}
use inferrail.Common.Sorting.{sort_by, sum_of}
use inferrail.Pricing.Cost.{or_zero}
use inferrail.Receipts.Schema.{InferenceReceipt, Status, error, is_simulated}
use inferrail.Receipts.Store.{ReceiptsStore, Filters, no_filters, query}
use inferrail.Budgets.Schema.{Scope, Budget, global, project, work}
use inferrail.Budgets.Store.{by_id, is_since}
use inferrail.Budgets.Clock.{window_start}

unfoldable pub applies_to : Attributes → Budget → Bool
unfolding same_text? lookup
applies_to attributes b = elim b.scope [
  | global ↦ true
  | project ↦ same_text? (lookup "project" attributes) b.scope_value
  | work ↦ same_text? (lookup "work_id" attributes) b.scope_value
]

unfoldable pub matching_budgets : List Budget → Attributes → List Budget
unfolding applies_to sort_by
matching_budgets budgets attributes = sort_by by_id (filter (applies_to attributes) budgets)

-- the arguments of the query that selects a budget's receipts
unfoldable pub filters_for : Scope → Option String → Filters
filters_for global value = no_filters
filters_for project value = record no_filters { project = value }
filters_for work value = record no_filters { work_id = value }

unfoldable pub scope_filters : Budget → Filters
unfolding filters_for
scope_filters b = filters_for b.scope b.scope_value

abbrev pub is_billed : Status → Bool
is_billed error = false
is_billed _ = true

unfoldable pub counts_in : Option ℕ → InferenceReceipt → Bool
counts_in since r = is_billed r.status && not (is_simulated r) && is_since since r.timestamp

abbrev pub counted_cost : Option ℕ → InferenceReceipt → ℕ
counted_cost since r = if counts_in since r then or_zero r.estimated_cost_usd else 0

abbrev pub is_unpriced : Option ℕ → InferenceReceipt → Bool
is_unpriced since r =
    counts_in since r
    && not (is_some r.estimated_cost_usd)
    && is_some r.prompt_tokens
    && is_some r.completion_tokens

pub record SpentSoFar : Type 0 where
  pub spent_usd : ℕ
  pub has_unpriced_usage : Bool

unfoldable pub spent_in : Option ℕ → List InferenceReceipt → SpentSoFar
unfolding counts_in sum_of
spent_in since rows = record {
  spent_usd = sum_of (counted_cost since) rows;
  has_unpriced_usage = any (is_unpriced since) rows;
}

unfoldable pub spent_so_far_usd : ℕ → ReceiptsStore → Budget → SpentSoFar
unfolding spent_in scope_filters query window_start
spent_so_far_usd now receipts b =
    spent_in (window_start now b.window) (query (scope_filters b) receipts)
