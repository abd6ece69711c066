-- ===== src/Budgets/Run/Unmetered.antt =====
-- A request that is admitted without a reservation meets no blocking budget.
use inferrail.Common.{
  ℕ, String, Bool, true, false, ◌&&◌, any, filter, ◌≡◌, ◌≢◌, refl, sym, ap, ◌∙◌, subst, inl, inr,
  Option, none, some, List, [], ◌∷◌, arith, Bool-cases,
}
use inferrail.Common.Sorting.{sort_by, any-sort_by}
use inferrail.Common.Membership.{◌∈◌, any-false_at, any-filter}
use inferrail.Receipts.Store.{ReceiptsStore}
use inferrail.Budgets.Schema.{Budget, block, budget_is_valid}
use inferrail.Budgets.Store.{BudgetStore, Reservation, by_id, is_candidate, candidate_budgets}
use inferrail.Budgets.Estimate.{estimate_upper_bound_usd}
use inferrail.Budgets.Spending.{applies_to, matching_budgets}
use inferrail.Budgets.Enforcer.{
  Enforcer, Request, Refusal, admitted, Txn, goes_on, raises, is_block, apply_per_work_declaration,
  first_unpriced, first_exceeded, no_reservation, take_reservation, reservation_for,
  reserve_against, budgets_for, reserve_after, reserve,
}
use inferrail.Budgets.Limits.{candidate_of_applies}

abbrev blocks : Budget → Bool
blocks b = is_block b.mode

none_block : (bs : List Budget) → first_unpriced bs ≡ none → any blocks bs ≡ false
unfolding first_unpriced
none_block [] h = refl
none_block (b ∷ bs) h = elim (Bool-cases (is_block b.mode)) [
  | inl yes_block ↦ absurd (ground (arith, h, yes_block))
  | inr no_block ↦ ground (arith, h, no_block, none_block bs)
]

passed_of :
    (o : Option Refusal) (before s s2 : BudgetStore)
    → no_reservation o before s ≡ (admitted none, s2)
    → (o ≡ none) × (s2 ≡ s)
passed_of none before s s2 h = (refl, sym (ap (λ z. z.1) h))
passed_of (some why) before s s2 h = absurd (ground (arith, h))

took_is_some :
    (o : Option Refusal) (r : Reservation) (before s s2 : BudgetStore)
    → take_reservation o r before s ≢ (admitted none, s2)
unfolding take_reservation
took_is_some none r before s s2 h = ground (arith, h)
took_is_some (some why) r before s s2 h = ground (arith, h)

passed_against :
    (now : ℕ) (id : String) (receipts : ReceiptsStore) (q : Request) (estimate : Option ℕ)
    (bs : List Budget) (before s s2 : BudgetStore)
    → reserve_against now id receipts q estimate bs before s ≡ (admitted none, s2)
    → (s2 ≡ s) × (any blocks bs ≡ false)
unfolding reserve_against
passed_against now id receipts q estimate [] before s s2 h = (sym (ap (λ z. z.1) h), refl)
passed_against now id receipts q none (b ∷ bs) before s s2 h =
    let (unpriced_ok, same) = passed_of (first_unpriced (b ∷ bs)) before s s2 h in
    (same, none_block (b ∷ bs) unpriced_ok)
passed_against now id receipts q (some x) (b ∷ bs) before s s2 h = absurd (
    took_is_some (first_exceeded now receipts s x (b ∷ bs)) (reservation_for now id q x) before s s2
      h)

pub passed_after :
    (now : ℕ) (id : String) (receipts : ReceiptsStore) (q : Request) (estimate : Option ℕ)
    (before s2 : BudgetStore) (t : Txn)
    → reserve_after now id receipts q estimate before t ≡ (admitted none, s2)
    → (s : BudgetStore) × (t ≡ goes_on s) × (s2 ≡ s) × (any blocks (budgets_for q s) ≡ false)
unfolding reserve_after
passed_after now id receipts q estimate before s2 (raises why) h = absurd (ground (arith, h))
passed_after now id receipts q estimate before s2 (goes_on s) h =
    let (same, none_blocks) =
      passed_against now id receipts q estimate (budgets_for q s) before s s2 h in
    (s, refl, same, none_blocks)

unmatched :
    (s : BudgetStore) (q : Request) (b : Budget)
    → any blocks (budgets_for q s) ≡ false
    → b ∈ s.budgets
    → b.mode ≡ block
    → budget_is_valid b ≡ true
    → applies_to q.attributes b ≡ false
unfolding budgets_for matching_budgets candidate_budgets
unmatched s q b h m is_blocking valid =
    let candidates = filter (is_candidate q.attributes) s.budgets in
    let sorted = sort_by by_id candidates in
    let applied : Budget → Bool = λ x. applies_to q.attributes x && blocks x in
    let whole : any (λ x. is_candidate q.attributes x && applied x) s.budgets ≡ false =
      sym (any-filter applied (is_candidate q.attributes) s.budgets)
      ∙ sym (any-sort_by by_id applied candidates)
      ∙ sym (any-filter blocks (applies_to q.attributes) sorted)
      ∙ sym (any-sort_by by_id blocks (filter (applies_to q.attributes) sorted))
      ∙ h in
    let here = any-false_at (λ x. is_candidate q.attributes x && applied x) b s.budgets m whole in
    elim (Bool-cases (applies_to q.attributes b)) [
      | inl applies ↦ absurd (
          ground
            (arith, here, is_blocking, applies, candidate_of_applies q.attributes b valid applies))
      | inr differs ↦ differs
    ]

-- A request that is admitted without a reservation is one that no valid blocking budget in the table
-- applies to.
pub never_unmetered :
    (e : Enforcer) (now : ℕ) (id : String) (receipts : ReceiptsStore) (q : Request)
    (s s2 : BudgetStore) (b : Budget)
    → reserve e now id receipts q s ≡ (admitted none, s2)
    → b ∈ s2.budgets
    → b.mode ≡ block
    → budget_is_valid b ≡ true
    → applies_to q.attributes b ≡ false
unfolding reserve
never_unmetered e now id receipts q s s2 b h m is_blocking valid =
    let (s1, went_on, same, none_blocks) =
      passed_after now id receipts q
        (estimate_upper_bound_usd e.catalogs e.resolver q.provider q.model q.prompt_chars
          q.max_completion_tokens)
        s s2 (apply_per_work_declaration e now q.attributes q.declared_limit_usd s) h in
    unmatched s1 q b none_blocks (subst (λ t. b ∈ t.budgets) same m) is_blocking valid
