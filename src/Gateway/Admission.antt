-- ===== src/Gateway/Admission.antt =====
-- Admission and settlement of one provider attempt: src/inferrail/gateway/budget_admission.py, with
-- the failure receipt of gateway/execution.py. Telemetry, which only writes, is left out.
use inferrail.Common.{ℕ, ◌+◌, String, Bool, true, false, Option, none, some, is_some, if◌then◌else◌}
use inferrail.Common.Dict.{Attributes}
use inferrail.Pricing.Resolver.{Catalogs, PricingResolver}
use inferrail.Routing.{RoutingDecision}
use inferrail.Errors.{Exception}
use inferrail.Receipts.Schema.{InferenceReceipt, error}
use inferrail.Receipts.Build.{build_receipt}
use inferrail.Receipts.Store.{ReceiptsStore, emit}
use inferrail.Budgets.Store.{BudgetStore, Reservation}
use inferrail.Budgets.Enforcer.{
  Enforcer, Request, Refusal, declaration, invalid_budget, unpriced, exceeded, disabled, Admission,
  admitted, refused, reserve, release, hold,
}
use inferrail.Budgets.Overrun.{with_held, with_block, attempt_may_have_billed, settle_as_hold}

pub record Engine : Type 0 where
  pub budgets : Option Enforcer
  pub catalogs : Catalogs
  pub resolver : PricingResolver
  -- `str` of a decimal
  pub usd_text : ℕ → String

-- The two stores that an engine writes.
pub record Stores : Type 0 where
  pub budgets : BudgetStore
  pub receipts : ReceiptsStore

pub record BudgetState : Type 0 where
  pub prompt_chars : ℕ
  pub max_completion_tokens : ℕ
  pub held_usd : ℕ
  pub declared_budget_usd : Option ℕ

-- What an attempt takes from outside: times and fresh ids.
pub record Moment : Type 0 where
  pub admitted_at : ℕ
  pub reservation_id : String
  pub ended_at : ℕ
  pub receipt_id : String
  pub latency_us : ℕ

-- A request on its way, after routing.
pub record Job : Type 0 where
  pub request_id : String
  pub decision : RoutingDecision
  pub attributes : Attributes

unfoldable pub emit_failure : Engine → Moment → Job → ℕ → Attributes → Stores → Stores
unfolding emit build_receipt
emit_failure e m job attempt attributes g = record g {
  receipts =
      emit
        (build_receipt m.ended_at e.catalogs e.resolver record {
          receipt_id = m.receipt_id;
          request_id = job.request_id;
          route = job.decision.route_name;
          provider = job.decision.provider_name;
          model = job.decision.model;
          status = error;
          prompt_tokens = none;
          completion_tokens = none;
          attributes = attributes;
          total_latency_us = m.latency_us;
          retry_count = attempt;
          cache = none;
        })
        g.receipts;
}

abbrev pub request_of : Job → BudgetState → Request
request_of job b = record {
  request_id = job.request_id;
  provider = job.decision.provider_name;
  model = job.decision.model;
  attributes = job.attributes;
  prompt_chars = b.prompt_chars;
  max_completion_tokens = b.max_completion_tokens;
  declared_limit_usd = b.declared_budget_usd;
}

-- The attributes of a refusal's receipt; an error that is no refusal is not recorded.
unfoldable pub refusal_attributes : Engine → Attributes → ℕ → Refusal → Option Attributes
unfolding with_held with_block
refusal_attributes e attributes held (declaration reason) =
    some (with_held e.usd_text attributes held)
refusal_attributes e attributes held (unpriced id) =
    some (with_held e.usd_text (with_block attributes id) held)
refusal_attributes e attributes held (exceeded b spent estimate projected reserved) =
    some (with_held e.usd_text (with_block attributes b.budget_id) held)
refusal_attributes e attributes held invalid_budget = none

unfoldable pub record_refusal : Engine → Moment → Job → ℕ → Option Attributes → Stores → Stores
unfolding emit_failure
record_refusal e m job attempt none g = g
record_refusal e m job attempt (some attributes) g = emit_failure e m job attempt attributes g

unfoldable pub after_reserve :
    Engine
    → Moment
    → Job
    → ℕ
    → BudgetState
    → ReceiptsStore
    → Admission × BudgetStore
    → Admission × Stores
unfolding record_refusal refusal_attributes
after_reserve e m job attempt b receipts (admitted r, s) =
    (admitted r, record { budgets = s; receipts = receipts })
after_reserve e m job attempt b receipts (refused why, s) = (
  refused why,
  record_refusal e m job attempt (refusal_attributes e job.attributes b.held_usd why)
      record { budgets = s; receipts = receipts },
)

unfoldable pub admit_by :
    Engine → Moment → Job → ℕ → BudgetState → Option Enforcer → Stores → Admission × Stores
unfolding after_reserve reserve emit_failure
admit_by e m job attempt b (some f) g =
    after_reserve e m job attempt b g.receipts
      (reserve f m.admitted_at m.reservation_id g.receipts (request_of job b) g.budgets)
admit_by e m job attempt b none g =
    if is_some b.declared_budget_usd
    then (refused (declaration disabled), emit_failure e m job attempt job.attributes g)
    else (admitted none, g)

unfoldable pub admit : Engine → Moment → Job → ℕ → BudgetState → Stores → Admission × Stores
unfolding admit_by
admit e m job attempt b g = admit_by e m job attempt b e.budgets g

-- `hold` or `release`, with the request's held total
unfoldable pub settle_by : Bool → Reservation → BudgetState → Stores → BudgetState × Stores
unfolding hold release
settle_by true r b g =
    (record b { held_usd = b.held_usd + r.amount_usd }, record g { budgets = hold r g.budgets })
settle_by false r b g = (b, record g { budgets = release r g.budgets })

-- A reservation is only there when budgets are enabled.
unfoldable pub settle_failed_attempt :
    Option Reservation → Exception → BudgetState → Stores → BudgetState × Stores
unfolding settle_by attempt_may_have_billed
settle_failed_attempt none exc b g = (b, g)
settle_failed_attempt (some r) exc b g = settle_by (attempt_may_have_billed exc) r b g

unfoldable pub emit_with_held : Engine → InferenceReceipt → BudgetState → Stores → Stores
unfolding emit with_held
emit_with_held e receipt b g = record g {
  receipts =
      emit (record receipt { attributes = with_held e.usd_text receipt.attributes b.held_usd })
        g.receipts;
}

-- The steps in their order: a hold comes before the receipt, a release after it.
unfoldable pub settle_and_emit_receipt :
    Engine → InferenceReceipt → Option Reservation → BudgetState → Stores → BudgetState × Stores
unfolding settle_as_hold settle_by emit_with_held
settle_and_emit_receipt e receipt none b g = (b, emit_with_held e receipt b g)
settle_and_emit_receipt e receipt (some r) b g =
    if settle_as_hold (is_some receipt.estimated_cost_usd) true
    then (let (held_state, held) = settle_by true r b g in
        (held_state, emit_with_held e receipt held_state held))
    else settle_by false r b (emit_with_held e receipt b g)
