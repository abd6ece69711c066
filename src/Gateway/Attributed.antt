-- ===== src/Gateway/Attributed.antt =====
-- The receipts of a request are attributed to the work that its reservations are for.
use inferrail.Common.{ℕ, zero, suc, String, false, ◌≡◌, refl, ◌∙◌, Option, none, some, same_text}
use inferrail.Common.Dict.{Attributes, lookup, lookup-put}
use inferrail.Pricing.Cost.{CacheTokens}
use inferrail.Budgets.Enforcer.{Enforcer, reservation_for}
use inferrail.Budgets.Overrun.{with_amount, with_held, augment_overrun, overrun_of, actual_cost}
use inferrail.Budgets.Spending.{matching_budgets}
use inferrail.Budgets.Store.{list_budgets}
use inferrail.Pricing.Resolver.{resolve}
use inferrail.Receipts.Build.{build_receipt}
use inferrail.Gateway.Admission.{Engine, Stores, BudgetState, Moment, Job, request_of}
use inferrail.Gateway.Execution.{Reply, augment_if_enabled, success_receipt, priced_cache}

module _ (key : String) (no_overrun : same_text "budget_overrun_usd" key ≡ false)
    (no_held : same_text "budget_held_usd" key ≡ false) where
  with_amount_keeps :
      (text : ℕ → String) (o : Option ℕ) (attributes : Attributes)
      → lookup key (with_amount text "budget_overrun_usd" o attributes) ≡ lookup key attributes
  with_amount_keeps text none attributes = refl
  with_amount_keeps text (some x) attributes =
      rw (lookup-put "budget_overrun_usd" key (text x) attributes, no_overrun) refl

  with_held_keeps :
      (text : ℕ → String) (attributes : Attributes) (held : ℕ)
      → lookup key (with_held text attributes held) ≡ lookup key attributes
  unfolding with_held
  with_held_keeps text attributes zero = refl
  with_held_keeps text attributes (suc n) =
      rw (lookup-put "budget_held_usd" key (text (suc n)) attributes, no_held) refl

  augmented_keeps :
      (e : Engine) (o : Option Enforcer) (m : Moment) (job : Job) (reply : Reply)
      (cache : Option CacheTokens) (g : Stores)
      → lookup key (augment_if_enabled e o m job reply cache g) ≡ lookup key job.attributes
  unfolding augment_overrun
  augmented_keeps e none m job reply cache g = refl
  augmented_keeps e (some f) m job reply cache g =
      with_amount_keeps e.usd_text
        (overrun_of m.ended_at g.receipts (matching_budgets (list_budgets g.budgets) job.attributes)
          (actual_cost reply.prompt_tokens reply.completion_tokens cache
            (resolve f.catalogs f.resolver job.decision.provider_name job.decision.model)))
        job.attributes

  receipt_keeps :
      (e : Engine) (m : Moment) (job : Job) (attempt held : ℕ) (reply : Reply) (g : Stores)
      → lookup key (with_held e.usd_text (success_receipt e m job attempt reply g).attributes held)
        ≡ lookup key job.attributes
  unfolding success_receipt build_receipt
  receipt_keeps e m job attempt held reply g =
      let cache =
        priced_cache (resolve e.catalogs e.resolver job.decision.provider_name job.decision.model)
          reply.cached_prompt_tokens reply.cache_write_prompt_tokens in
      with_held_keeps e.usd_text (augment_if_enabled e e.budgets m job reply cache g) held
      ∙ augmented_keeps e e.budgets m job reply cache g

-- The receipt of an answered attempt, with whatever held amount it is marked with, has the work_id and
-- the project of the request, which are those of its reservation.
pub receipt_keeps_scope :
    (e : Engine) (m : Moment) (job : Job) (attempt held : ℕ) (reply : Reply) (g : Stores)
    (b : BudgetState) (estimate : ℕ)
    → let attributes =
        with_held e.usd_text (success_receipt e m job attempt reply g).attributes held in
      let r = reservation_for m.admitted_at m.reservation_id (request_of job b) estimate in
      (lookup "work_id" attributes ≡ r.work_id) × (lookup "project" attributes ≡ r.project)
unfolding same_text
receipt_keeps_scope e m job attempt held reply g b estimate = (
  receipt_keeps "work_id" refl refl e m job attempt held reply g,
  receipt_keeps "project" refl refl e m job attempt held reply g,
)
