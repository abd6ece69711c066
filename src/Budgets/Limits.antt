-- ===== src/Budgets/Limits.antt =====
-- What an admission guarantees: no blocking budget is exceeded, and a refusal changes nothing.
use inferrail.Common.{
  ℕ, ◌+◌, ◌≤◌, leb, String, Bool, true, false, not, ◌&&◌, any, filter, same_text?, same_text?_iff,
  ◌≡◌, ◌≢◌, refl, sym, ap, subst, ◌∙◌, Option, none, some, List, [], ◌∷◌, arith, Bool-cases, inl,
  inr,
}
use inferrail.Common.Dict.{Attributes, lookup}
use inferrail.Common.Sorting.{sort_by, any-sort_by}
use inferrail.Common.Membership.{◌∈◌, any-false_at, any-filter}
use inferrail.Receipts.Store.{ReceiptsStore}
use inferrail.Budgets.Schema.{
  Budget, block, Scope, global, project, work, is_truthy, shape_is_valid, budget_is_valid,
}
use inferrail.Budgets.Store.{
  BudgetStore, Reservation, by_id, names_scope, is_candidate, candidate_budgets, reserved_usd,
  insert_reservation,
}
use inferrail.Budgets.Clock.{window_start}
use inferrail.Budgets.Estimate.{estimate_upper_bound_usd}
use inferrail.Budgets.Spending.{applies_to, matching_budgets, spent_so_far_usd}
use inferrail.Budgets.Enforcer.{
  Enforcer, Request, Refusal, Admission, admitted, Txn, goes_on, raises, is_block, projected_usd,
  first_exceeded, first_unpriced, no_reservation, take_reservation, reservation_for,
  reserve_against, budgets_for, reserve_after, apply_per_work_declaration, reserve,
}

-- a blocking budget that the estimate would exceed
abbrev breaks : ℕ → ReceiptsStore → BudgetStore → ℕ → Budget → Bool
breaks now receipts s estimate b =
    is_block b.mode && not (leb (projected_usd now receipts s estimate b) b.limit_usd)

none-breaks :
    (now : ℕ) (receipts : ReceiptsStore) (s : BudgetStore) (estimate : ℕ) (bs : List Budget)
    → first_exceeded now receipts s estimate bs ≡ none
    → any (breaks now receipts s estimate) bs ≡ false
unfolding first_exceeded
none-breaks now receipts s estimate [] h = refl
none-breaks now receipts s estimate (b ∷ bs) h =
    let rest = none-breaks now receipts s estimate bs in
    elim (Bool-cases (leb (projected_usd now receipts s estimate b) b.limit_usd)) [
      | inl fits ↦ ground (arith, h, fits, rest)
      | inr over ↦ elim (Bool-cases (is_block b.mode)) [
        | inl blocks ↦ absurd (ground (arith, h, over, blocks))
        | inr warns ↦ ground (arith, h, over, warns, rest)
      ]
    ]

-- a row of the table that is a candidate and applies is among the budgets that are checked
unbroken :
    (now : ℕ) (receipts : ReceiptsStore) (s : BudgetStore) (estimate : ℕ) (q : Request) (b : Budget)
    → b ∈ s.budgets
    → is_candidate q.attributes b ≡ true
    → applies_to q.attributes b ≡ true
    → first_exceeded now receipts s estimate (budgets_for q s) ≡ none
    → breaks now receipts s estimate b ≡ false
unfolding budgets_for matching_budgets candidate_budgets
unbroken now receipts s estimate q b m c a h =
    let p = breaks now receipts s estimate in
    let candidates = filter (is_candidate q.attributes) s.budgets in
    let sorted = sort_by by_id candidates in
    let applied : Budget → Bool = λ x. applies_to q.attributes x && p x in
    let whole : any (λ x. is_candidate q.attributes x && applied x) s.budgets ≡ false =
      sym (any-filter applied (is_candidate q.attributes) s.budgets)
      ∙ sym (any-sort_by by_id applied candidates)
      ∙ sym (any-filter p (applies_to q.attributes) sorted)
      ∙ sym (any-sort_by by_id p (filter (applies_to q.attributes) sorted))
      ∙ none-breaks now receipts s estimate (budgets_for q s) h in
    let here = any-false_at (λ x. is_candidate q.attributes x && applied x) b s.budgets m whole in
    ground (arith, here, c, a)

same_names :
    (value scope_value : Option String)
    → same_text? value scope_value ≡ true
    → is_truthy scope_value ≡ true
    → names_scope value scope_value ≡ true
unfolding names_scope
same_names value scope_value same truthy =
    ground (arith, same, truthy, same_text?_iff value scope_value, same_text?_iff scope_value value)

candidate_at :
    (attributes : Attributes) (b : Budget) (scope : Scope)
    → b.scope ≡ scope
    → shape_is_valid scope b.scope_value b.window ≡ true
    → applies_to attributes b ≡ true
    → is_candidate attributes b ≡ true
unfolding applies_to is_candidate shape_is_valid
candidate_at attributes b global e valid a = ground (arith, e)
candidate_at attributes b project e valid a = ground (
  arith,
  e,
  a,
  valid,
  same_names (lookup "project" attributes) b.scope_value (ground (arith, e, a))
      (ground (arith, valid)),
)
candidate_at attributes b work e valid a = ground (
  arith,
  e,
  a,
  valid,
  same_names (lookup "work_id" attributes) b.scope_value (ground (arith, e, a))
      (ground (arith, valid)),
)

-- the indexed query of an admission leaves out no budget that applies
pub candidate_of_applies :
    (attributes : Attributes) (b : Budget)
    → budget_is_valid b ≡ true
    → applies_to attributes b ≡ true
    → is_candidate attributes b ≡ true
unfolding budget_is_valid
candidate_of_applies attributes b valid a =
    candidate_at attributes b b.scope refl (ground (arith, valid)) a

-- what an admission with a reservation says of its transaction
abbrev pub Took :
    ℕ
    → String
    → ReceiptsStore
    → Request
    → Option ℕ
    → List Budget
    → BudgetStore
    → BudgetStore
    → Reservation
    → Type 0
Took now id receipts q estimate bs s s2 r =
    (x : ℕ) × (estimate ≡ some x)
    × (first_exceeded now receipts s x bs ≡ none)
    × (s2 ≡ insert_reservation (reservation_for now id q x) s)
    × (r ≡ reservation_for now id q x)

abbrev reservation_or : Reservation → Admission → Reservation
reservation_or r (admitted (some r2)) = r2
reservation_or r _ = r

took_of :
    (o : Option Refusal) (r r2 : Reservation) (before s s2 : BudgetStore)
    → take_reservation o r before s ≡ (admitted (some r2), s2)
    → (o ≡ none) × (s2 ≡ insert_reservation r s) × (r2 ≡ r)
unfolding take_reservation
took_of none r r2 before s s2 h =
    (refl, sym (ap (λ z. z.1) h), sym (ap (λ z. reservation_or r z.0) h))
took_of (some why) r r2 before s s2 h = absurd (ground (arith, h))

took_nothing :
    (o : Option Refusal) (r2 : Reservation) (before s s2 : BudgetStore)
    → no_reservation o before s ≢ (admitted (some r2), s2)
took_nothing none r2 before s s2 h = ground (arith, h)
took_nothing (some why) r2 before s s2 h = ground (arith, h)

Took-against :
    (now : ℕ) (id : String) (receipts : ReceiptsStore) (q : Request) (estimate : Option ℕ)
    (bs : List Budget) (before s s2 : BudgetStore) (r : Reservation)
    → reserve_against now id receipts q estimate bs before s ≡ (admitted (some r), s2)
    → Took now id receipts q estimate bs s s2 r
unfolding reserve_against
Took-against now id receipts q estimate [] before s s2 r h = absurd (ground (arith, h))
Took-against now id receipts q none (b ∷ bs) before s s2 r h =
    absurd (took_nothing (first_unpriced (b ∷ bs)) r before s s2 h)
Took-against now id receipts q (some x) (b ∷ bs) before s s2 r h =
    let (fits, inserted, mine) =
      took_of (first_exceeded now receipts s x (b ∷ bs)) (reservation_for now id q x) r before s s2
        h in
    (x, refl, fits, inserted, mine)

pub Took-after :
    (now : ℕ) (id : String) (receipts : ReceiptsStore) (q : Request) (estimate : Option ℕ)
    (before s2 : BudgetStore) (t : Txn) (r : Reservation)
    → reserve_after now id receipts q estimate before t ≡ (admitted (some r), s2)
    → (s : BudgetStore) × (t ≡ goes_on s) × Took now id receipts q estimate (budgets_for q s) s s2 r
unfolding reserve_after
Took-after now id receipts q estimate before s2 (raises why) r h = absurd (ground (arith, h))
Took-after now id receipts q estimate before s2 (goes_on s) r h =
    (s, refl, Took-against now id receipts q estimate (budgets_for q s) before s s2 r h)

reserved-insert :
    (b : Budget) (since : Option ℕ) (r : Reservation) (s : BudgetStore)
    → reserved_usd b since (insert_reservation r s) ≤ reserved_usd b since s + r.amount_usd
unfolding reserved_usd insert_reservation
reserved-insert b since r s = ground arith

within_after :
    (now : ℕ) (id : String) (receipts : ReceiptsStore) (q : Request) (x : ℕ) (s s2 : BudgetStore)
    (b : Budget)
    → s2 ≡ insert_reservation (reservation_for now id q x) s
    → b ∈ s2.budgets
    → b.mode ≡ block
    → is_candidate q.attributes b ≡ true
    → applies_to q.attributes b ≡ true
    → first_exceeded now receipts s x (budgets_for q s) ≡ none
    → (spent_so_far_usd now receipts b).spent_usd + reserved_usd b (window_start now b.window) s2
      ≤ b.limit_usd
unfolding projected_usd insert_reservation
within_after now id receipts q x s s2 b inserted m blocks c a h =
    let in_s : b ∈ s.budgets = subst (λ t. b ∈ t.budgets) inserted m in
    let kept = unbroken now receipts s x q b in_s c a h in
    rw inserted (
      ground (
        arith,
        blocks,
        kept,
        reserved-insert b (window_start now b.window) (reservation_for now id q x) s,
      ))

-- When an attempt is admitted with a reservation, every valid blocking budget in the table that applies to
-- the request has its spending and all its reservations, the new one included, within its limit.
pub admitted_within :
    (e : Enforcer) (now : ℕ) (id : String) (receipts : ReceiptsStore) (q : Request)
    (s s2 : BudgetStore) (r : Reservation) (b : Budget)
    → reserve e now id receipts q s ≡ (admitted (some r), s2)
    → b ∈ s2.budgets
    → b.mode ≡ block
    → budget_is_valid b ≡ true
    → applies_to q.attributes b ≡ true
    → (spent_so_far_usd now receipts b).spent_usd + reserved_usd b (window_start now b.window) s2
      ≤ b.limit_usd
unfolding reserve
admitted_within e now id receipts q s s2 r b h m blocks valid a =
    let (s1, went_on, took) =
      Took-after now id receipts q
        (estimate_upper_bound_usd e.catalogs e.resolver q.provider q.model q.prompt_chars
          q.max_completion_tokens)
        s s2 (apply_per_work_declaration e now q.attributes q.declared_limit_usd s) r h in
    let (x, priced, fits, inserted, mine) = took in
    within_after now id receipts q x s1 s2 b inserted m blocks
      (candidate_of_applies q.attributes b valid a) a fits
