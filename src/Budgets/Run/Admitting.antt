-- ===== src/Budgets/Run/Admitting.antt =====
-- How an admission changes the two tables, and that a blocking budget lets nothing pass unmetered.
use inferrail.Common.{
  ℕ, ltb, String, true, false, ◌≡◌, refl, sym, ap, ◌∙◌, subst, ◌⊎◌, inl, inr, Option, none, some,
  List, ◌∷◌, if◌then◌else◌, arith, Bool-cases,
}
use inferrail.Common.Dict.{lookup, Attributes}
use inferrail.Common.Membership.{◌∈◌, there}
use inferrail.Receipts.Store.{ReceiptsStore}
use inferrail.Budgets.Schema.{Budget, work, per_work, new_budget_id, is_truthy}
use inferrail.Budgets.Store.{
  BudgetStore, Reservation, get_budget, insert_budget, insert_reservation,
}
use inferrail.Budgets.Estimate.{estimate_upper_bound_usd}
use inferrail.Budgets.Enforcer.{
  Enforcer, Request, Reason, Refusal, admitted, Txn, goes_on, raises, work_budget, conflicts,
  first_of, check_declaration, create_work_budget, keep_or_create, apply_for_work, unless_bad,
  apply_per_work_declaration, reservation_for, reserve,
}
use inferrail.Budgets.Outcome.{goes_on_inj}
use inferrail.Budgets.Limits.{Took-after}
use inferrail.Budgets.Run.Unmetered.{passed_after}

-- the declaration step inserts one budget at most
abbrev Inserts : BudgetStore → Txn → Type 0
Inserts s t =
    ((why : Refusal) × (t ≡ raises why))
    ⊎ ((t ≡ goes_on s) ⊎ ((x : Budget) × (t ≡ goes_on (insert_budget x s))))

create-Inserts :
    (now : ℕ) (w : String) (o : Option ℕ) (s : BudgetStore)
    → Inserts s (create_work_budget now w o s)
unfolding create_work_budget
create-Inserts now w none s = inr (inl refl)
create-Inserts now w (some d) s = elim (Bool-cases (ltb 0 d)) [
  | inl positive ↦ inr (inr (work_budget now w d, ground (arith, positive)))
  | inr zero_limit ↦ inl (Refusal.invalid_budget, ground (arith, zero_limit))
]

keep_or_create-Inserts :
    (e : Enforcer) (now : ℕ) (w : String) (declared : Option ℕ) (o : Option Budget)
    (s : BudgetStore)
    → Inserts s (keep_or_create e now w declared o s)
unfolding keep_or_create
keep_or_create-Inserts e now w declared none s =
    create-Inserts now w (first_of declared e.per_work_default_usd) s
keep_or_create-Inserts e now w declared (some x) s = elim (Bool-cases (conflicts declared x)) [
  | inl differs ↦ inl (Refusal.declaration Reason.conflict, ground (arith, differs))
  | inr agrees ↦ inr (inl (ground (arith, agrees)))
]

apply_for_work-Inserts :
    (e : Enforcer) (now : ℕ) (work_id : Option String) (declared : Option ℕ) (s : BudgetStore)
    → Inserts s (apply_for_work e now work_id declared s)
unfolding apply_for_work
apply_for_work-Inserts e now none declared s = inr (inl refl)
apply_for_work-Inserts e now (some w) declared s =
    elim (is_truthy (some w))
      as (λ t. Inserts s (
        if t
        then keep_or_create e now w declared (get_budget (new_budget_id work (some w) per_work) s) s
        else goes_on s)) [
          | true ↦
              keep_or_create-Inserts e now w declared
                (get_budget (new_budget_id work (some w) per_work) s) s
          | false ↦ inr (inl refl)
        ]

unless_bad-Inserts :
    (o : Option Reason) (s : BudgetStore) (t : Txn) → Inserts s t → Inserts s (unless_bad o t)
unless_bad-Inserts none s t h = h
unless_bad-Inserts (some why) s t h = inl (Refusal.declaration why, refl)

declaration-Inserts :
    (e : Enforcer) (now : ℕ) (attributes : Attributes) (declared : Option ℕ) (s : BudgetStore)
    → Inserts s (apply_per_work_declaration e now attributes declared s)
unfolding apply_per_work_declaration
declaration-Inserts e now attributes declared s =
    let work_id = lookup "work_id" attributes in
    unless_bad-Inserts (check_declaration e work_id declared) s
      (apply_for_work e now work_id declared s) (apply_for_work-Inserts e now work_id declared s)

-- what stays, from one state of the tables to another
abbrev pub Extends : BudgetStore → BudgetStore → Type 0
Extends s s2 = (s2.reservations ≡ s.reservations) × ((b : Budget) → b ∈ s.budgets → b ∈ s2.budgets)

inserted-Extends : (s s1 : BudgetStore) (t : Txn) → Inserts s t → t ≡ goes_on s1 → Extends s s1
unfolding insert_budget
inserted-Extends s s1 t (inl (why, e)) h = absurd (ground (arith, e, h))
inserted-Extends s s1 t (inr (inl e)) h =
    subst (λ u. Extends s u) (goes_on_inj s s1 (sym e ∙ h)) (refl, λ b m. m)
inserted-Extends s s1 t (inr (inr (x, e))) h =
    subst (λ u. Extends s u) (goes_on_inj (insert_budget x s) s1 (sym e ∙ h))
      (refl, λ b m. there b x s.budgets m)

-- Rows stay, and a reservation that is taken is the new row.
pub admitted_rows :
    (e : Enforcer) (now : ℕ) (id : String) (receipts : ReceiptsStore) (q : Request)
    (s s2 : BudgetStore) (o : Option Reservation)
    → reserve e now id receipts q s ≡ (admitted o, s2)
    → ((b : Budget) → b ∈ s.budgets → b ∈ s2.budgets)
      × ((s2.reservations ≡ s.reservations)
          ⊎ ((x : ℕ) × (s2.reservations ≡ reservation_for now id q x ∷ s.reservations)))
unfolding reserve insert_reservation
admitted_rows e now id receipts q s s2 none h =
    let t = apply_per_work_declaration e now q.attributes q.declared_limit_usd s in
    let (s1, went_on, same, none_blocks) =
      passed_after now id receipts q
        (estimate_upper_bound_usd e.catalogs e.resolver q.provider q.model q.prompt_chars
          q.max_completion_tokens)
        s s2 t h in
    let ext =
      subst (λ u. Extends s u) (sym same)
        (inserted-Extends s s1 t (declaration-Inserts e now q.attributes q.declared_limit_usd s)
          went_on) in
    (ext.1, inl ext.0)
admitted_rows e now id receipts q s s2 (some r) h =
    let t = apply_per_work_declaration e now q.attributes q.declared_limit_usd s in
    let (s1, went_on, took) =
      Took-after now id receipts q
        (estimate_upper_bound_usd e.catalogs e.resolver q.provider q.model q.prompt_chars
          q.max_completion_tokens)
        s s2 t r h in
    let (x, priced, fits, inserted, mine) = took in
    let ext =
      inserted-Extends s s1 t (declaration-Inserts e now q.attributes q.declared_limit_usd s)
        went_on in
    (
      λ b m. subst (λ u. b ∈ u.budgets) (sym inserted) (ext.1 b m),
      inr (x, ap (λ u. u.reservations) inserted ∙ ap (λ rs. reservation_for now id q x ∷ rs) ext.0),
    )

abbrev pub with_row : Option Reservation → List Reservation → List Reservation
with_row none rs = rs
with_row (some r) rs = r ∷ rs

-- the row that an admission adds is the reservation that it returns
pub admitted_adds :
    (e : Enforcer) (now : ℕ) (id : String) (receipts : ReceiptsStore) (q : Request)
    (s s2 : BudgetStore) (o : Option Reservation)
    → reserve e now id receipts q s ≡ (admitted o, s2)
    → s2.reservations ≡ with_row o s.reservations
unfolding reserve insert_reservation
admitted_adds e now id receipts q s s2 none h =
    let t = apply_per_work_declaration e now q.attributes q.declared_limit_usd s in
    let (s1, went_on, same, none_blocks) =
      passed_after now id receipts q
        (estimate_upper_bound_usd e.catalogs e.resolver q.provider q.model q.prompt_chars
          q.max_completion_tokens)
        s s2 t h in
    ap (λ u. u.reservations) same
    ∙ (inserted-Extends s s1 t (declaration-Inserts e now q.attributes q.declared_limit_usd s)
        went_on).0
admitted_adds e now id receipts q s s2 (some r) h =
    let t = apply_per_work_declaration e now q.attributes q.declared_limit_usd s in
    let (s1, went_on, took) =
      Took-after now id receipts q
        (estimate_upper_bound_usd e.catalogs e.resolver q.provider q.model q.prompt_chars
          q.max_completion_tokens)
        s s2 t r h in
    let (x, priced, fits, inserted, mine) = took in
    let ext =
      inserted-Extends s s1 t (declaration-Inserts e now q.attributes q.declared_limit_usd s)
        went_on in
    ap (λ u. u.reservations) inserted
    ∙ ap (λ rs. reservation_for now id q x ∷ rs) ext.0
    ∙ ap (λ v. v ∷ s.reservations) (sym mine)
