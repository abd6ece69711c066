-- ===== src/Budgets/Crud.antt =====
-- Setting, finding and removing budgets by their id.
use inferrail.Common.{
  String, not, ◌≡◌, refl, none, some, List, [], ◌∷◌, filter, any, if◌then◌else◌, arith, same_text,
  same_text_iff, is_some,
}
use inferrail.Budgets.Schema.{Budget}
use inferrail.Budgets.Store.{
  BudgetStore, find_budget, get_budget, upsert, set_budget, has_budget_id, remove_budget,
}

find-upsert :
    (id : String) (b : Budget) (bs : List Budget)
    → find_budget id (upsert b bs)
      ≡ (if same_text b.budget_id id then some b else find_budget id bs)
unfolding find_budget upsert
find-upsert id b [] = ground arith
find-upsert id b (x ∷ xs) = ground (
  arith,
  same_text_iff b.budget_id id,
  same_text_iff x.budget_id b.budget_id,
  same_text_iff x.budget_id id,
  find-upsert id b xs,
)

find-filter :
    (id gone : String) (bs : List Budget)
    → find_budget id (filter (λ b. not (has_budget_id gone b)) bs)
      ≡ (if same_text gone id then none else find_budget id bs)
unfolding find_budget
find-filter id gone [] = ground arith
find-filter id gone (x ∷ xs) = ground (
  arith,
  same_text_iff gone id,
  same_text_iff x.budget_id gone,
  same_text_iff x.budget_id id,
  find-filter id gone xs,
)

any_is_found :
    (id : String) (bs : List Budget) → any (has_budget_id id) bs ≡ is_some (find_budget id bs)
unfolding find_budget
any_is_found id [] = refl
any_is_found id (x ∷ xs) = ground (arith, any_is_found id xs)

-- After a budget is set, its id finds it and every other id finds what it found before. After an id
-- is removed, it finds nothing, every other id finds what it found before, and the answer says
-- whether it found something.
pub set_and_remove :
    (b : Budget) (gone id : String) (s : BudgetStore)
    → (get_budget id (set_budget b s)
        ≡ (if same_text b.budget_id id then some b else get_budget id s))
      × (get_budget id (remove_budget gone s).1
          ≡ (if same_text gone id then none else get_budget id s))
      × ((remove_budget gone s).0 ≡ is_some (get_budget gone s))
unfolding get_budget set_budget remove_budget
set_and_remove b gone id s =
    (find-upsert id b s.budgets, find-filter id gone s.budgets, any_is_found gone s.budgets)
