-- ===== src/Budgets/Enforcer.antt =====
-- Admission of a provider attempt: BudgetEnforcer of src/inferrail/budgets/enforcement.py. The time
-- and the fresh reservation id are arguments. An admission is one transaction, so the receipts that it
-- reads are one snapshot: a receipt that is written meanwhile counts from then on, and its
-- reservation cannot be released before the admission ends.
use inferrail.Common.{
  ℕ, ◌+◌, leb, ltb, ◌==◌, String, Bool, true, false, not, Option, none, some, List, [], ◌∷◌,
  if◌then◌else◌,
}
use inferrail.Common.Dict.{Attributes, lookup}
use inferrail.Pricing.Resolver.{Catalogs, PricingResolver}
use inferrail.Receipts.Store.{ReceiptsStore}
use inferrail.Budgets.Schema.{Budget, Mode, work, warn, block, per_work, is_truthy, new_budget_id}
use inferrail.Budgets.Store.{
  BudgetStore, Reservation, active, candidate_budgets, get_budget, insert_budget,
  insert_reservation, reserved_usd, release_reservation, hold_reservation,
}
use inferrail.Budgets.Clock.{window_start}
use inferrail.Budgets.Estimate.{estimate_upper_bound_usd}
use inferrail.Budgets.Spending.{matching_budgets, spent_so_far_usd}

pub record Enforcer : Type 0 where
  pub catalogs : Catalogs
  pub resolver : PricingResolver
  pub per_work_default_usd : Option ℕ
  pub per_work_max_usd : Option ℕ
  pub allow_declared_budgets : Bool

pub record Request : Type 0 where
  pub request_id : String
  pub provider : String
  pub model : String
  pub attributes : Attributes
  pub prompt_chars : ℕ
  pub max_completion_tokens : ℕ
  pub declared_limit_usd : Option ℕ

pub data Reason : Type 0 where
  disabled : Reason
  missing_work_id : Reason
  above_max : Reason
  conflict : Reason
  malformed : Reason

-- What an admission raises. `invalid_budget` is pydantic's error for a limit that is not positive.
pub data Refusal : Type 0 where
  declaration : Reason → Refusal
  invalid_budget : Refusal
  unpriced : String → Refusal
  exceeded : Budget → (spent estimate projected reserved : ℕ) → Refusal

pub data Admission : Type 0 where
  admitted : Option Reservation → Admission
  refused : Refusal → Admission

-- A step within the transaction: the tables, or what is raised.
pub data Txn : Type 0 where
  goes_on : BudgetStore → Txn
  raises : Refusal → Txn

abbrev pub work_budget : ℕ → String → ℕ → Budget
work_budget now work_id limit = record {
  budget_id = new_budget_id work (some work_id) per_work;
  scope = work;
  scope_value = some work_id;
  window = per_work;
  mode = block;
  limit_usd = limit;
  created_at = now;
}

abbrev pub exceeds_max : ℕ → Option ℕ → Bool
exceeds_max declared none = false
exceeds_max declared (some max) = ltb max declared

-- the checks of a declared limit, whatever budgets there are
unfoldable pub check_declaration : Enforcer → Option String → Option ℕ → Option Reason
unfolding is_truthy
check_declaration e work_id none = none
check_declaration e work_id (some declared) =
    if not e.allow_declared_budgets
    then some disabled
    else if not (is_truthy work_id)
    then some missing_work_id
    else if exceeds_max declared e.per_work_max_usd
    then some above_max
    else none

-- `declared_limit_usd is not None and existing.limit_usd != declared_limit_usd`
abbrev pub conflicts : Option ℕ → Budget → Bool
conflicts none existing = false
conflicts (some declared) existing = not (existing.limit_usd == declared)

abbrev pub first_of : Option ℕ → Option ℕ → Option ℕ
first_of (some a) other = some a
first_of none other = other

unfoldable pub create_work_budget : ℕ → String → Option ℕ → BudgetStore → Txn
unfolding insert_budget
create_work_budget now work_id none s = goes_on s
create_work_budget now work_id (some limit) s =
    if ltb 0 limit
    then goes_on (insert_budget (work_budget now work_id limit) s)
    else raises invalid_budget

unfoldable pub keep_or_create : Enforcer → ℕ → String → Option ℕ → Option Budget → BudgetStore → Txn
unfolding create_work_budget
keep_or_create e now work_id declared none s =
    create_work_budget now work_id (first_of declared e.per_work_default_usd) s
keep_or_create e now work_id declared (some existing) s =
    if conflicts declared existing then raises (declaration conflict) else goes_on s

unfoldable pub apply_for_work : Enforcer → ℕ → Option String → Option ℕ → BudgetStore → Txn
unfolding keep_or_create get_budget is_truthy
apply_for_work e now none declared s = goes_on s
apply_for_work e now (some work_id) declared s =
    if is_truthy (some work_id)
    then keep_or_create e now work_id declared
        (get_budget (new_budget_id work (some work_id) per_work) s) s
    else goes_on s

abbrev pub unless_bad : Option Reason → Txn → Txn
unless_bad none otherwise = otherwise
unless_bad (some reason) otherwise = raises (declaration reason)

unfoldable pub apply_per_work_declaration : Enforcer → ℕ → Attributes → Option ℕ → BudgetStore → Txn
unfolding check_declaration apply_for_work lookup
apply_per_work_declaration e now attributes declared s =
    let work_id = lookup "work_id" attributes in
    unless_bad (check_declaration e work_id declared) (apply_for_work e now work_id declared s)

abbrev pub is_block : Mode → Bool
is_block block = true
is_block warn = false

unfoldable pub projected_usd : ℕ → ReceiptsStore → BudgetStore → ℕ → Budget → ℕ
unfolding spent_so_far_usd reserved_usd window_start
projected_usd now receipts s estimate b =
    (spent_so_far_usd now receipts b).spent_usd
    + reserved_usd b (window_start now b.window) s
    + estimate

-- The first blocking budget that the estimate would exceed; a warning is only logged.
unfoldable pub first_exceeded : ℕ → ReceiptsStore → BudgetStore → ℕ → List Budget → Option Refusal
unfolding projected_usd
first_exceeded now receipts s estimate [] = none
first_exceeded now receipts s estimate (b ∷ bs) =
    let rest = first_exceeded now receipts s estimate bs in
    let projected = projected_usd now receipts s estimate b in
    if leb projected b.limit_usd
    then rest
    else if is_block b.mode
    then some (
        exceeded b (spent_so_far_usd now receipts b).spent_usd estimate projected
          (reserved_usd b (window_start now b.window) s))
    else rest

-- The first blocking budget, for a model without a price.
unfoldable pub first_unpriced : List Budget → Option Refusal
first_unpriced [] = none
first_unpriced (b ∷ bs) =
    let rest = first_unpriced bs in if is_block b.mode then some (unpriced b.budget_id) else rest

abbrev pub reservation_for : ℕ → String → Request → ℕ → Reservation
reservation_for now reservation_id q estimate = record {
  reservation_id = reservation_id;
  request_id = q.request_id;
  project = lookup "project" q.attributes;
  work_id = lookup "work_id" q.attributes;
  amount_usd = estimate;
  state = active;
  created_at = now;
}

abbrev pub no_reservation : Option Refusal → BudgetStore → BudgetStore → Admission × BudgetStore
no_reservation (some refusal) before s = (refused refusal, before)
no_reservation none before s = (admitted none, s)

unfoldable pub take_reservation :
    Option Refusal → Reservation → BudgetStore → BudgetStore → Admission × BudgetStore
unfolding insert_reservation
take_reservation (some refusal) r before s = (refused refusal, before)
take_reservation none r before s = (admitted (some r), insert_reservation r s)

-- The transaction after the declaration, on the tables `s`. A refusal rolls back to `before`.
unfoldable pub reserve_against :
    ℕ
    → String
    → ReceiptsStore
    → Request
    → Option ℕ
    → List Budget
    → BudgetStore
    → BudgetStore
    → Admission × BudgetStore
unfolding take_reservation first_unpriced first_exceeded
reserve_against now id receipts q estimate [] before s = (admitted none, s)
reserve_against now id receipts q none (b ∷ bs) before s =
    no_reservation (first_unpriced (b ∷ bs)) before s
reserve_against now id receipts q (some estimate) (b ∷ bs) before s =
    take_reservation (first_exceeded now receipts s estimate (b ∷ bs))
      (reservation_for now id q estimate) before s

unfoldable pub budgets_for : Request → BudgetStore → List Budget
unfolding matching_budgets candidate_budgets
budgets_for q s = matching_budgets (candidate_budgets q.attributes s) q.attributes

unfoldable pub reserve_after :
    ℕ → String → ReceiptsStore → Request → Option ℕ → BudgetStore → Txn → Admission × BudgetStore
unfolding reserve_against budgets_for
reserve_after now id receipts q estimate before (raises refusal) = (refused refusal, before)
reserve_after now id receipts q estimate before (goes_on s) =
    reserve_against now id receipts q estimate (budgets_for q s) before s

unfoldable pub reserve :
    Enforcer → ℕ → String → ReceiptsStore → Request → BudgetStore → Admission × BudgetStore
unfolding reserve_after apply_per_work_declaration estimate_upper_bound_usd
reserve e now id receipts q s =
    reserve_after now id receipts q
      (estimate_upper_bound_usd e.catalogs e.resolver q.provider q.model q.prompt_chars
        q.max_completion_tokens)
      s (apply_per_work_declaration e now q.attributes q.declared_limit_usd s)

unfoldable pub release : Reservation → BudgetStore → BudgetStore
unfolding release_reservation
release r s = release_reservation r.reservation_id s

unfoldable pub hold : Reservation → BudgetStore → BudgetStore
unfolding hold_reservation
hold r s = hold_reservation r.reservation_id s
