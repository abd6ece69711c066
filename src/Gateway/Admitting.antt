-- ===== src/Gateway/Admitting.antt =====
-- What the admission of an attempt does to the stores.
use inferrail.Common.{
  ℕ, true, false, ◌≡◌, refl, ◌∙◌, ◌⊎◌, inl, inr, Option, none, some, is_some, if◌then◌else◌,
}
use inferrail.Common.Dict.{Attributes}
use inferrail.Budgets.Store.{BudgetStore, Reservation}
use inferrail.Budgets.Enforcer.{
  Enforcer, Refusal, declaration, disabled, Admission, admitted, refused, reserve,
}
use inferrail.Budgets.Outcome.{refused_keeps}
use inferrail.Budgets.Run.Admitting.{with_row, admitted_adds}
use inferrail.Gateway.Admission.{
  Engine, Stores, BudgetState, Moment, Job, request_of, admit_by, after_reserve, record_refusal,
  refusal_attributes, emit_failure,
}

-- what an admission leaves, by its answer
abbrev pub Admits : Stores → Admission × Stores → Type 0
Admits g out =
    ((why : Refusal) × (g2 : Stores) × (out ≡ (refused why, g2)) × (g2.budgets ≡ g.budgets))
    ⊎ ((o : Option Reservation) × (g2 : Stores) × (out ≡ (admitted o, g2))
        × (g2.budgets.reservations ≡ with_row o g.budgets.reservations))

recorded :
    (e : Engine) (m : Moment) (job : Job) (attempt : ℕ) (o : Option Attributes) (g : Stores)
    → (record_refusal e m job attempt o g).budgets ≡ g.budgets
unfolding record_refusal emit_failure
recorded e m job attempt none g = refl
recorded e m job attempt (some attributes) g = refl

reserved-Admits :
    (e : Engine) (m : Moment) (job : Job) (attempt : ℕ) (b : BudgetState) (g : Stores)
    (x : Enforcer) (out : Admission × BudgetStore)
    → reserve x m.admitted_at m.reservation_id g.receipts (request_of job b) g.budgets ≡ out
    → Admits g (after_reserve e m job attempt b g.receipts out)
unfolding after_reserve
reserved-Admits e m job attempt b g x (admitted o, s) h = inr (
  o,
  record { budgets = s; receipts = g.receipts },
  refl,
  admitted_adds x m.admitted_at m.reservation_id g.receipts (request_of job b) g.budgets s o h,
)
reserved-Admits e m job attempt b g x (refused why, s) h =
    let start : Stores = record { budgets = s; receipts = g.receipts } in
    let attributes = refusal_attributes e job.attributes b.held_usd why in
    inl (
      why,
      record_refusal e m job attempt attributes start,
      refl,
      recorded e m job attempt attributes start
          ∙ refused_keeps x m.admitted_at m.reservation_id g.receipts (request_of job b) g.budgets s
              why h,
    )

pub admit_by-Admits :
    (e : Engine) (m : Moment) (job : Job) (attempt : ℕ) (b : BudgetState) (o : Option Enforcer)
    (g : Stores)
    → Admits g (admit_by e m job attempt b o g)
unfolding admit_by emit_failure
admit_by-Admits e m job attempt b none g =
    elim (is_some b.declared_budget_usd)
      as (λ t. Admits g (
        if t
        then (refused (declaration disabled), emit_failure e m job attempt job.attributes g)
        else (admitted none, g))) [
          | true ↦
              inl (declaration disabled, emit_failure e m job attempt job.attributes g, refl, refl)
          | false ↦ inr (none, g, refl, refl)
        ]
admit_by-Admits e m job attempt b (some x) g =
    reserved-Admits e m job attempt b g x
      (reserve x m.admitted_at m.reservation_id g.receipts (request_of job b) g.budgets) refl
