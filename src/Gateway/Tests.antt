-- ===== src/Gateway/Tests.antt =====
-- Runs of the gateway, and each theorem at one of them.
use inferrail.Common.{
  ◌+◌, ◌*◌, ◌≤◌, ◌≡◌, ◌^◌, refl, String, false, none, some, [], ◌∷◌, arith, same_text, same_text?,
  non_empty, starts_with, remove_prefix,
}
use inferrail.Common.Dict.{lookup, put}
use inferrail.Common.Sorting.{sort_by, insert_sorted, sum_of}
use inferrail.Pricing.Price.{for_input_tokens}
use inferrail.Pricing.Cost.{quantize, calculate_cost_with_cache_usd}
use inferrail.Pricing.Resolver.{
  resolve, lookup_override, resolve_configured, catalog_of, in_catalog, or_configured,
  model_for_vendor, provider_is_valid,
}
use inferrail.Budgets.Schema.{Budget, work, per_work, new_budget_id, budget_is_valid}
use inferrail.Budgets.Clock.{window_start, day_start, month_start}
use inferrail.Budgets.Estimate.{estimate_upper_bound_usd}
use inferrail.Budgets.Enforcer.{admitted, refused, reserve}
use inferrail.Receipts.Build.{build_receipt}
use inferrail.Receipts.Schema.{is_simulated}
use inferrail.Receipts.Store.{emit, satisfies, query}
use inferrail.Budgets.Store.{reserved_usd, get_budget, release_reservation, hold_reservation}
use inferrail.Budgets.Spending.{spent_so_far_usd, applies_to, counts_in}
use inferrail.Budgets.Limits.{admitted_within}
use inferrail.Budgets.Outcome.{refused_keeps}
use inferrail.Budgets.Declaration.{declared_in_force, first_budget_wins}
use inferrail.Budgets.Cover.{estimate_covers}
use inferrail.Budgets.Run.{Reach, start, next, admits, emits}
use inferrail.Budgets.Run.Unmetered.{never_unmetered}
use inferrail.Budgets.Run.Bound.{never_overspent}
use inferrail.Common.Membership.{here}
use inferrail.Errors.{is_retryable}
use inferrail.Budgets.Overrun.{with_held, attempt_may_have_billed, settle_as_hold, augment_overrun}
use inferrail.Gateway.Execution.{responded, priced_cache, execute_with_retries}
use inferrail.Gateway.Settlement.{active_sum, execute_settles}
use inferrail.Gateway.Samples.{
  mini, catalogs, resolver, enforcer, call, no_budgets, asserted_price, job_budget, first, opened,
  reserved, second_refusal, other_call, receipt, before_call, after_receipt, engine, moments,
  answered_second, answers, job, state, stores,
}

-- Names what a run computes through.
computing : Unit {0}
unfolding provider_is_valid execute_with_retries with_held is_retryable attempt_may_have_billed
    settle_as_hold release_reservation hold_reservation priced_cache augment_overrun reserve emit
    is_simulated counts_in satisfies query spent_so_far_usd reserved_usd get_budget applies_to
    build_receipt resolve model_for_vendor starts_with remove_prefix same_text same_text? non_empty
    lookup put sort_by insert_sorted sum_of for_input_tokens quantize calculate_cost_with_cache_usd
    new_budget_id budget_is_valid window_start lookup_override resolve_configured catalog_of
    in_catalog or_configured estimate_upper_bound_usd
computing = tt

cost_of_mini : calculate_cost_with_cache_usd 3000 1000 mini none ≡ some (1050 * 10 ^ 6)
unfolding computing
cost_of_mini = refl

-- 2000 of the 3000 tokens read from the cache, at half the rate
cost_of_cached_mini :
    calculate_cost_with_cache_usd 3000 1000 mini
      (some record { creation = 0; creation_5m = none; creation_1h = none; read = 2000 })
    ≡ some (900 * 10 ^ 6)
unfolding computing
cost_of_cached_mini = refl

-- July 4, 2026, 12:00
start_of_month : month_start 1783166400000000 ≡ 1782864000000000
unfolding month_start
start_of_month = refl

start_of_day : day_start 1783166400000000 ≡ 1783123200000000
unfolding day_start
start_of_day = refl

-- February 29, 2024
leap_month : month_start 1709164800000000 ≡ 1706745600000000
unfolding month_start
leap_month = refl

marked : asserted_price ≡ some "openai.com (price_as=openai on provider 'proxy', operator-asserted)"
unfolding computing
marked = refl

-- the first request declares its budget and is admitted; a second one would exceed it
admits_first : reserve enforcer 100 "r1" [] call no_budgets ≡ (admitted (some first), reserved)
unfolding computing
admits_first = refl

refuses_second : reserve enforcer 101 "r2" [] call reserved ≡ (refused second_refusal, reserved)
unfolding computing
refuses_second = refl

passes_other : reserve enforcer 102 "r3" [] other_call reserved ≡ (admitted none, reserved)
unfolding computing
passes_other = refl

cost_of_call : receipt.estimated_cost_usd ≡ some (615 * 10 ^ 6)
unfolding computing
cost_of_call = refl

admitted_within_example :
    (spent_so_far_usd 100 [] job_budget).spent_usd
      + reserved_usd job_budget (window_start 100 per_work) reserved
    ≤ 2000 * 10 ^ 6
unfolding computing
admitted_within_example =
    admitted_within enforcer 100 "r1" [] call no_budgets reserved first job_budget admits_first
      (here job_budget []) refl refl refl

refused_keeps_example : reserved ≡ reserved
refused_keeps_example =
    refused_keeps enforcer 101 "r2" [] call reserved reserved second_refusal refuses_second

never_unmetered_example : applies_to other_call.attributes job_budget ≡ false
unfolding computing
never_unmetered_example =
    never_unmetered enforcer 102 "r3" [] other_call reserved reserved job_budget passes_other
      (here job_budget []) refl refl

first_budget_wins_example : get_budget "work_id:job:per_work" reserved ≡ some job_budget
unfolding computing
first_budget_wins_example =
    first_budget_wins enforcer 102 "r3" [] other_call reserved reserved none "work_id:job:per_work"
      job_budget refl passes_other

declared_in_force_example :
    (w : String) × (lookup "work_id" call.attributes ≡ some w)
    × (b : Budget) × (get_budget (new_budget_id work (some w) per_work) reserved ≡ some b)
    × (b.limit_usd ≡ 2000 * 10 ^ 6)
declared_in_force_example =
    declared_in_force enforcer 100 "r1" [] call no_budgets reserved (some first) (2000 * 10 ^ 6)
      refl admits_first

estimate_covers_example : 615 * 10 ^ 6 ≤ 1050 * 10 ^ 6
unfolding computing
estimate_covers_example =
    estimate_covers catalogs resolver "vendor" "mini" mini 9000 1000 2500 400 none (1050 * 10 ^ 6)
      (615 * 10 ^ 6) refl tt (tt, tt, omega arith) (omega arith) (omega arith) refl refl

admits_again : reserve enforcer 100 "r1" [] call opened ≡ (admitted (some first), reserved)
unfolding computing
admits_again = refl

call_runs : Reach job_budget before_call after_receipt
unfolding computing
call_runs =
    next (record before_call { store = reserved }) after_receipt
      (next before_call (record before_call { store = reserved }) start
        (admits enforcer 100 "r1" call (some first) reserved admits_again))
      (emits first receipt (here first []) refl refl (omega arith))

never_overspent_example : (spent_so_far_usd 200 (receipt ∷ []) job_budget).spent_usd ≤ 2000 * 10 ^ 6
unfolding computing
never_overspent_example =
    never_overspent job_budget before_call after_receipt 200 (refl, refl, refl, refl)
      (here job_budget []) refl refl call_runs

-- the first attempt times out, the second is answered
execute_settles_example :
    active_sum
      (λ r. r.amount_usd)
      ((execute_with_retries engine moments answers job state stores).1).budgets
    ≤ active_sum (λ r. r.amount_usd) stores.budgets
execute_settles_example =
    execute_settles (λ r. r.amount_usd) engine moments answers job state stores

retried_once :
    (execute_with_retries engine moments answers job state stores).0 ≡ responded answered_second 1
unfolding computing
retried_once = refl
