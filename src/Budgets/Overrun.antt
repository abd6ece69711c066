-- ===== src/Budgets/Overrun.antt =====
-- What is recorded after a call: the overrun, the block and the held amount on a receipt's attributes,
-- and the rule of settlement. src/inferrail/budgets/enforcement.py. The text that `str` gives for a
-- decimal depends on its exponent, which an amount here does not keep, and is a parameter.
use inferrail.Common.{
  ℕ, zero, suc, ◌+◌, ◌-◌, ltb, String, Bool, true, false, not, ◌&&◌, Option, none, some, List, [],
  ◌∷◌, if◌then◌else◌,
}
use inferrail.Common.Dict.{Attributes, put}
use inferrail.Pricing.Price.{PriceEntry}
use inferrail.Pricing.Cost.{CacheTokens, calculate_cost_with_cache_usd}
use inferrail.Pricing.Resolver.{resolve}
use inferrail.Receipts.Store.{ReceiptsStore}
use inferrail.Budgets.Schema.{Budget}
use inferrail.Budgets.Store.{BudgetStore, list_budgets}
use inferrail.Budgets.Spending.{matching_budgets, spent_so_far_usd}
use inferrail.Budgets.Enforcer.{Enforcer}
use inferrail.Errors.{
  Exception, outside, local_error, provider_error, provider_timeout, authentication,
}

-- the larger of the worst overrun so far and another
abbrev pub worse : Option ℕ → ℕ → Option ℕ
worse none overrun = some overrun
worse (some worst) overrun = if ltb worst overrun then some overrun else some worst

unfoldable pub add_overrun : ℕ → ReceiptsStore → ℕ → Option ℕ → Budget → Option ℕ
unfolding spent_so_far_usd
add_overrun now receipts actual worst b =
    let projected = (spent_so_far_usd now receipts b).spent_usd + actual in
    if ltb b.limit_usd projected then worse worst (projected - b.limit_usd) else worst

unfoldable pub worst_overrun : ℕ → ReceiptsStore → ℕ → Option ℕ → List Budget → Option ℕ
unfolding add_overrun
worst_overrun now receipts actual worst [] = worst
worst_overrun now receipts actual worst (b ∷ bs) =
    worst_overrun now receipts actual (add_overrun now receipts actual worst b) bs

unfoldable pub actual_cost : Option ℕ → Option ℕ → Option CacheTokens → Option PriceEntry → Option ℕ
actual_cost (some prompt) (some completion) cache (some price) =
    calculate_cost_with_cache_usd prompt completion price cache
actual_cost _ _ cache _ = none

unfoldable pub overrun_of : ℕ → ReceiptsStore → List Budget → Option ℕ → Option ℕ
unfolding worst_overrun
overrun_of now receipts matching none = none
overrun_of now receipts matching (some actual) = worst_overrun now receipts actual none matching

module _ (usd_text : ℕ → String) where
  abbrev pub with_amount : String → Option ℕ → Attributes → Attributes
  with_amount key none attributes = attributes
  with_amount key (some x) attributes = put key (usd_text x) attributes

  -- BudgetEnforcer.augment_overrun with augment_attributes_with_overrun. Without a matching budget
  -- there is no overrun.
  unfoldable pub augment_overrun :
      Enforcer
      → ℕ
      → ReceiptsStore
      → BudgetStore
      → Attributes
      → String
      → String
      → Option ℕ
      → Option ℕ
      → Option CacheTokens
      → Attributes
  unfolding overrun_of actual_cost put matching_budgets list_budgets resolve
  augment_overrun e now receipts s attributes provider model prompt completion cache =
      with_amount "budget_overrun_usd"
        (overrun_of now receipts (matching_budgets (list_budgets s) attributes)
          (actual_cost prompt completion cache (resolve e.catalogs e.resolver provider model)))
        attributes

  -- augment_attributes_with_held
  unfoldable pub with_held : Attributes → ℕ → Attributes
  unfolding put
  with_held attributes zero = attributes
  with_held attributes (suc n) = put "budget_held_usd" (usd_text (suc n)) attributes

-- augment_attributes_with_block
unfoldable pub with_block : Attributes → String → Attributes
unfolding put
with_block attributes budget_id = put "budget_id" budget_id attributes

unfoldable pub attempt_may_have_billed : Exception → Bool
attempt_may_have_billed outside = true
attempt_may_have_billed (local_error kind) = false
attempt_may_have_billed (provider_error provider_timeout status retryable) = true
attempt_may_have_billed (provider_error failure (some status) retryable) = ltb status 400
attempt_may_have_billed (provider_error authentication none retryable) = false
attempt_may_have_billed (provider_error failure none retryable) = true

unfoldable pub settle_as_hold : Bool → Bool → Bool
settle_as_hold cost_known may_have_billed = may_have_billed && not cost_known
