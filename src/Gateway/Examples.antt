-- ===== src/Gateway/Examples.antt =====
-- Each theorem on receipts, prices and tables, at concrete data.
use inferrail.Common.{
  ◌+◌, ◌*◌, ◌≤◌, ◌≡◌, ◌⊎◌, ◌^◌, refl, false, none, some, [], ◌∷◌, same_text, same_text?, non_empty,
  starts_with, remove_prefix, String,
}
use inferrail.Common.Dict.{lookup, put}
use inferrail.Common.Sorting.{sort_by, insert_sorted, sum_of}
use inferrail.Pricing.Price.{for_input_tokens}
use inferrail.Pricing.Cost.{quantize, calculate_cost_with_cache_usd, or_zero}
use inferrail.Pricing.Resolver.{
  resolve, lookup_override, resolve_configured, catalog_of, in_catalog, or_configured,
  model_for_vendor, provider_is_valid,
}
use inferrail.Budgets.Schema.{Budget, new_budget_id, budget_is_valid}
use inferrail.Budgets.Clock.{window_start}
use inferrail.Budgets.Estimate.{estimate_upper_bound_usd}
use inferrail.Budgets.Enforcer.{reserve, reservation_for}
use inferrail.Receipts.Build.{build_receipt}
use inferrail.Receipts.Schema.{is_simulated, success}
use inferrail.Receipts.Store.{emit, satisfies, query, import_all}
use inferrail.Budgets.Store.{
  reserved_usd, get_budget, release_reservation, hold_reservation, set_budget, remove_budget,
}
use inferrail.Budgets.Spending.{spent_so_far_usd, applies_to, counts_in}
use inferrail.Errors.{is_retryable}
use inferrail.Budgets.Overrun.{
  with_held, attempt_may_have_billed, settle_as_hold, augment_overrun, overrun_of,
}
use inferrail.Gateway.Execution.{priced_cache, execute_with_retries, success_receipt}
use inferrail.Budgets.Worst.{total_of, IsOverrunOf, overrun_is_worst}
use inferrail.Common.Sums.{All}
use inferrail.Common.Membership.{◌∈◌}
use inferrail.Receipts.Audit.{IsAudited, build_receipt-IsAudited}
use inferrail.Receipts.Economics.{summarize_receipts}
use inferrail.Receipts.Totals.{real_part, simulated_part, cost_of, unknown_of, summarize_totals}
use inferrail.Pricing.Honesty.{IsVendorPrice, IsAssertedPrice, resolve_is_honest}
use inferrail.Gateway.Samples.{
  catalogs, proxy, resolver, job_budget, reserved, measured, receipt, asserted, engine, moments,
  answered_second, job, state, stores,
}
use inferrail.Transactions.{TaskTransaction, build_transaction}
use inferrail.Transactions.Total.{AddsUp, build_transaction-AddsUp}
use inferrail.Receipts.Reimport.{import_twice}
use inferrail.Budgets.Crud.{set_and_remove}
use inferrail.Gateway.Attributed.{receipt_keeps_scope}
use inferrail.Gateway.Admission.{request_of}

-- Names what a run computes through.
reading : Unit {0}
unfolding provider_is_valid execute_with_retries with_held is_retryable attempt_may_have_billed
    settle_as_hold release_reservation hold_reservation priced_cache augment_overrun reserve emit
    is_simulated counts_in satisfies query spent_so_far_usd reserved_usd get_budget applies_to
    build_receipt resolve model_for_vendor starts_with remove_prefix same_text same_text? non_empty
    lookup put sort_by insert_sorted sum_of for_input_tokens quantize calculate_cost_with_cache_usd
    new_budget_id budget_is_valid window_start lookup_override resolve_configured catalog_of
    in_catalog or_configured estimate_upper_bound_usd
reading = tt

overrun_is_worst_example :
    All
      (λ b. total_of 200 (receipt ∷ []) (1500 * 10 ^ 6) b ≤ b.limit_usd + 115 * 10 ^ 6)
      (job_budget ∷ [])
    × ((some (115 * 10 ^ 6) ≡ none)
        ⊎ ((b : Budget) × (b ∈ (job_budget ∷ []))
            × IsOverrunOf 200 (receipt ∷ []) (1500 * 10 ^ 6) b (some (115 * 10 ^ 6))))
unfolding reading overrun_of
overrun_is_worst_example = overrun_is_worst 200 (receipt ∷ []) (1500 * 10 ^ 6) (job_budget ∷ [])

build_receipt-IsAudited_example :
    IsAudited receipt.prompt_tokens receipt.completion_tokens none receipt.pricing
      receipt.estimated_cost_usd
build_receipt-IsAudited_example = build_receipt-IsAudited 105 catalogs resolver measured

summarize_totals_example :
    let e = summarize_receipts (receipt ∷ []) in
    (e.known_cost_usd ≡ sum_of (real_part cost_of) (receipt ∷ []))
    × (e.simulated_cost_usd ≡ sum_of (simulated_part cost_of) (receipt ∷ []))
    × (e.unknown_cost_count ≡ sum_of (real_part unknown_of) (receipt ∷ []))
    × (or_zero e.prompt_tokens ≡ sum_of (real_part (λ r. or_zero r.prompt_tokens)) (receipt ∷ []))
    × (or_zero e.completion_tokens
        ≡ sum_of (real_part (λ r. or_zero r.completion_tokens)) (receipt ∷ []))
    × (e.real_receipt_count + e.simulated_receipt_count ≡ 1)
summarize_totals_example = summarize_totals (receipt ∷ [])

resolve_is_honest_example :
    IsVendorPrice catalogs proxy "openai/mini" asserted
    ⊎ IsAssertedPrice catalogs "proxy" proxy "openai/mini" asserted
unfolding reading
resolve_is_honest_example =
    resolve_is_honest catalogs resolver "proxy" "openai/mini" proxy asserted refl refl refl refl

import_twice_example :
    import_all (receipt ∷ []) (import_all (receipt ∷ []) []) ≡ import_all (receipt ∷ []) []
import_twice_example = import_twice (receipt ∷ []) []

abbrev raised_budget : Budget
raised_budget = record job_budget { limit_usd = 9000 * 10 ^ 6 }

set_and_remove_example :
    (get_budget "work_id:job:per_work" (set_budget raised_budget reserved) ≡ some raised_budget)
    × (get_budget "work_id:job:per_work" (remove_budget "global:_:daily" reserved).1
        ≡ some job_budget)
    × ((remove_budget "global:_:daily" reserved).0 ≡ false)
unfolding reading
set_and_remove_example =
    set_and_remove raised_budget "global:_:daily" "work_id:job:per_work" reserved

receipt_keeps_scope_example :
    let attributes =
      with_held engine.usd_text
        (success_receipt engine (moments 1) job 1 answered_second stores).attributes
        5 in
    let r = reservation_for 110 "r2" (request_of job state) 1050 in
    (lookup "work_id" attributes ≡ r.work_id) × (lookup "project" attributes ≡ r.project)
receipt_keeps_scope_example =
    receipt_keeps_scope engine (moments 1) job 1 5 answered_second stores state 1050

abbrev sample_digest : String → String
sample_digest s = "0123456789abcdef0123456789abcdef"

abbrev transaction : TaskTransaction
transaction = record {
  transaction_id = "tx_0123456789abcdef0123";
  task_id = "job";
  events =
      record {
        event_type = "inference";
        event_id = "ir1";
        simulated = false;
        cost_usd = some (615 * 10 ^ 6);
        status = success;
      }
      ∷ [];
  known_total_cost_usd = 615 * 10 ^ 6;
  unknown_cost_event_count = 0;
  simulated_event_count = 0;
  simulated_total_cost_usd = 0;
  status = success;
  started_at = 105;
  ended_at = 105;
}

built : build_transaction sample_digest "work_id" "job" (receipt ∷ []) ≡ some transaction
unfolding reading build_transaction summarize_receipts is_simulated
built = refl

build_transaction-AddsUp_example : AddsUp transaction
build_transaction-AddsUp_example =
    build_transaction-AddsUp sample_digest "work_id" "job" (receipt ∷ []) transaction built
