-- ===== src/Budgets/Declaration.antt =====
-- Declared per-run budgets: the first one for a work_id is kept, and an admitted one is in force.
use inferrail.Common.{
  ℕ, ltb, String, true, ◌≡◌, refl, sym, ap, ◌∙◌, subst, inl, inr, Option, none, some, arith,
  Bool-cases, same_text, same_text_iff, of_some,
}
use inferrail.Common.Dict.{Attributes, lookup}
use inferrail.Receipts.Store.{ReceiptsStore}
use inferrail.Budgets.Schema.{Budget, work, per_work, is_truthy, new_budget_id}
use inferrail.Budgets.Store.{BudgetStore, find_budget, get_budget, insert_budget, Reservation}
use inferrail.Budgets.Estimate.{estimate_upper_bound_usd}
use inferrail.Budgets.Outcome.{admitted_after, goes_on_inj}
use inferrail.Budgets.Enforcer.{
  Enforcer, Request, Reason, admitted, Txn, goes_on, work_budget, check_declaration, conflicts,
  first_of, create_work_budget, keep_or_create, apply_for_work, unless_bad,
  apply_per_work_declaration, reserve,
}

get_budget-insert :
    (b : Budget) (s : BudgetStore) → get_budget b.budget_id (insert_budget b s) ≡ some b
unfolding get_budget insert_budget
get_budget-insert b s = ground (arith, same_text_iff b.budget_id b.budget_id)

-- a budget that is found stays found when one that is not there is inserted
get_budget-insert_other :
    (id : String) (b b2 : Budget) (s : BudgetStore)
    → get_budget id s ≡ some b
    → get_budget b2.budget_id s ≡ none
    → get_budget id (insert_budget b2 s) ≡ some b
unfolding insert_budget get_budget
get_budget-insert_other id b b2 s found missing = elim (Bool-cases (same_text b2.budget_id id)) [
  | inl same ↦ absurd (
      ground
        (arith, found, missing, ap (λ i. get_budget i s) ((same_text_iff b2.budget_id id).0 same)))
  | inr differ ↦ ground (arith, found, differ)
]

created :
    (now : ℕ) (w : String) (d : ℕ) (s s1 : BudgetStore)
    → create_work_budget now w (some d) s ≡ goes_on s1
    → s1 ≡ insert_budget (work_budget now w d) s
unfolding create_work_budget
created now w d s s1 k = elim (Bool-cases (ltb 0 d)) [
  | inl positive ↦
      sym (goes_on_inj (insert_budget (work_budget now w d) s) s1 (ground (arith, k, positive)))
  | inr zero_limit ↦ absurd (ground (arith, k, zero_limit))
]

-- What the declaration step leaves: the budget of the work, with the declared limit if there is one.
keeps_work_budget :
    (e : Enforcer) (now : ℕ) (w : String) (d : ℕ) (found : Option Budget) (s s1 : BudgetStore)
    → get_budget (new_budget_id work (some w) per_work) s ≡ found
    → keep_or_create e now w (some d) found s ≡ goes_on s1
    → (b : Budget) × (get_budget (new_budget_id work (some w) per_work) s1 ≡ some b)
      × (b.limit_usd ≡ d)
unfolding keep_or_create
keeps_work_budget e now w d none s s1 f k = (
  work_budget now w d,
  subst (λ t. get_budget (new_budget_id work (some w) per_work) t ≡ some (work_budget now w d))
      (sym (created now w d s s1 k)) (get_budget-insert (work_budget now w d) s),
  refl,
)
keeps_work_budget e now w d (some b) s s1 f k = elim (Bool-cases (conflicts (some d) b)) [
  | inl differs ↦ absurd (ground (arith, k, differs))
  | inr agrees ↦ (
    b,
    subst (λ t. get_budget (new_budget_id work (some w) per_work) t ≡ some b)
        (goes_on_inj s s1 (ground (arith, k, agrees))) f,
    ground (arith, agrees),
  )
]

-- A budget that is in the table stays in the table.
create-keeps :
    (now : ℕ) (w : String) (o : Option ℕ) (id : String) (b : Budget) (s s1 : BudgetStore)
    → get_budget (new_budget_id work (some w) per_work) s ≡ none
    → get_budget id s ≡ some b
    → create_work_budget now w o s ≡ goes_on s1
    → get_budget id s1 ≡ some b
unfolding create_work_budget
create-keeps now w none id b s s1 missing found k =
    subst (λ t. get_budget id t ≡ some b) (goes_on_inj s s1 k) found
create-keeps now w (some d) id b s s1 missing found k =
    subst (λ t. get_budget id t ≡ some b) (sym (created now w d s s1 k))
      (get_budget-insert_other id b (work_budget now w d) s found missing)

keep_or_create-keeps :
    (e : Enforcer) (now : ℕ) (w : String) (declared : Option ℕ) (o : Option Budget) (id : String)
    (b : Budget) (s s1 : BudgetStore)
    → get_budget (new_budget_id work (some w) per_work) s ≡ o
    → get_budget id s ≡ some b
    → keep_or_create e now w declared o s ≡ goes_on s1
    → get_budget id s1 ≡ some b
unfolding keep_or_create
keep_or_create-keeps e now w declared none id b s s1 missing found k =
    create-keeps now w (first_of declared e.per_work_default_usd) id b s s1 missing found k
keep_or_create-keeps e now w declared (some x) id b s s1 existing found k =
    elim (Bool-cases (conflicts declared x)) [
      | inl differs ↦ absurd (ground (arith, k, differs))
      | inr agrees ↦
          subst (λ t. get_budget id t ≡ some b) (goes_on_inj s s1 (ground (arith, k, agrees))) found
    ]

apply_for_work-keeps :
    (e : Enforcer) (now : ℕ) (work_id : Option String) (declared : Option ℕ) (id : String)
    (b : Budget) (s s1 : BudgetStore)
    → get_budget id s ≡ some b
    → apply_for_work e now work_id declared s ≡ goes_on s1
    → get_budget id s1 ≡ some b
unfolding apply_for_work
apply_for_work-keeps e now none declared id b s s1 found k =
    subst (λ t. get_budget id t ≡ some b) (goes_on_inj s s1 k) found
apply_for_work-keeps e now (some w) declared id b s s1 found k =
    elim (Bool-cases (is_truthy (some w))) [
      | inl named ↦
          keep_or_create-keeps e now w declared
            (get_budget (new_budget_id work (some w) per_work) s) id b s s1 refl found
            (ground (arith, k, named))
      | inr empty ↦
          subst (λ t. get_budget id t ≡ some b) (goes_on_inj s s1 (ground (arith, k, empty))) found
    ]

goes_on_past_checks :
    (o : Option Reason) (t : Txn) (s1 : BudgetStore)
    → unless_bad o t ≡ goes_on s1
    → (o ≡ none) × (t ≡ goes_on s1)
goes_on_past_checks none t s1 h = (refl, h)
goes_on_past_checks (some why) t s1 h = absurd (ground (arith, h))

declaration-keeps :
    (e : Enforcer) (now : ℕ) (attributes : Attributes) (declared : Option ℕ) (id : String)
    (b : Budget) (s s1 : BudgetStore)
    → get_budget id s ≡ some b
    → apply_per_work_declaration e now attributes declared s ≡ goes_on s1
    → get_budget id s1 ≡ some b
unfolding apply_per_work_declaration
declaration-keeps e now attributes declared id b s s1 found h =
    let work_id = lookup "work_id" attributes in
    let past =
      goes_on_past_checks (check_declaration e work_id declared)
        (apply_for_work e now work_id declared s) s1 h in
    apply_for_work-keeps e now work_id declared id b s s1 found past.1

same_budgets :
    (id : String) (s1 s2 : BudgetStore) (b : Budget)
    → s2.budgets ≡ s1.budgets
    → get_budget id s1 ≡ some b
    → get_budget id s2 ≡ some b
unfolding get_budget
same_budgets id s1 s2 b same found = ap (λ bs. find_budget id bs) same ∙ found

declared_checks :
    (e : Enforcer) (work_id : Option String) (d : ℕ)
    → check_declaration e work_id (some d) ≡ none
    → (w : String) × (work_id ≡ some w) × (is_truthy work_id ≡ true)
unfolding check_declaration
declared_checks e none d h = absurd (ground (arith, h))
declared_checks e (some w) d h = (w, refl, ground (arith, h))

-- The first budget under an id wins: whatever an admitted request declares, a budget that was in the
-- table is still there, with the same limit.
pub first_budget_wins :
    (e : Enforcer) (now : ℕ) (rid : String) (receipts : ReceiptsStore) (q : Request)
    (s s2 : BudgetStore) (o : Option Reservation) (id : String) (b : Budget)
    → get_budget id s ≡ some b
    → reserve e now rid receipts q s ≡ (admitted o, s2)
    → get_budget id s2 ≡ some b
unfolding reserve
first_budget_wins e now rid receipts q s s2 o id b found h =
    let (s1, went_on, same) =
      admitted_after now rid receipts q
        (estimate_upper_bound_usd e.catalogs e.resolver q.provider q.model q.prompt_chars
          q.max_completion_tokens)
        s s2 o (apply_per_work_declaration e now q.attributes q.declared_limit_usd s) h in
    same_budgets id s1 s2 b same
      (declaration-keeps e now q.attributes q.declared_limit_usd id b s s1 found went_on)

declared_for_work :
    (e : Enforcer) (now : ℕ) (work_id : Option String) (w : String) (d : ℕ) (s s1 : BudgetStore)
    → work_id ≡ some w
    → is_truthy work_id ≡ true
    → apply_for_work e now work_id (some d) s ≡ goes_on s1
    → (b : Budget) × (get_budget (new_budget_id work (some w) per_work) s1 ≡ some b)
      × (b.limit_usd ≡ d)
unfolding apply_for_work
declared_for_work e now none w d s s1 named truthy h = absurd (ground (arith, named))
declared_for_work e now (some w2) w d s s1 named truthy h =
    let same : w2 ≡ w = of_some w2 w named in
    subst
      (λ v.
        (b : Budget) × (get_budget (new_budget_id work (some v) per_work) s1 ≡ some b)
        × (b.limit_usd ≡ d))
      same
      (keeps_work_budget e now w2 d (get_budget (new_budget_id work (some w2) per_work) s) s s1 refl
        (ground (arith, h, truthy)))

-- When a request that declares a limit is admitted, it names a work_id, and the per-run budget of
-- that work_id is in the table with exactly that limit.
pub declared_in_force :
    (e : Enforcer) (now : ℕ) (rid : String) (receipts : ReceiptsStore) (q : Request)
    (s s2 : BudgetStore) (o : Option Reservation) (d : ℕ)
    → q.declared_limit_usd ≡ some d
    → reserve e now rid receipts q s ≡ (admitted o, s2)
    → (w : String) × (lookup "work_id" q.attributes ≡ some w)
      × (b : Budget) × (get_budget (new_budget_id work (some w) per_work) s2 ≡ some b)
      × (b.limit_usd ≡ d)
unfolding reserve apply_per_work_declaration
declared_in_force e now rid receipts q s s2 o d declares h =
    let work_id = lookup "work_id" q.attributes in
    let (s1, went_on, same) =
      admitted_after now rid receipts q
        (estimate_upper_bound_usd e.catalogs e.resolver q.provider q.model q.prompt_chars
          q.max_completion_tokens)
        s s2 o (apply_per_work_declaration e now q.attributes q.declared_limit_usd s) h in
    let (checked, applied) =
      goes_on_past_checks (check_declaration e work_id (some d))
        (apply_for_work e now work_id (some d) s) s1
        (subst (λ x. apply_per_work_declaration e now q.attributes x s ≡ goes_on s1) declares
          went_on) in
    let (w, named, truthy) = declared_checks e work_id d checked in
    let (b, found, limit) = declared_for_work e now work_id w d s s1 named truthy applied in
    (w, named, b, same_budgets (new_budget_id work (some w) per_work) s1 s2 b same found, limit)
