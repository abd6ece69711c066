-- ===== src/Budgets/Store.antt =====
-- The two tables of src/inferrail/budgets/store.py, each with the statements that run on it.
use inferrail.Common.{
  ℕ, leb, String, Bool, true, false, not, ◌&&◌, any, filter, Option, none, some, List, [], ◌∷◌,
  if◌then◌else◌, same_text, same_text?, leb_text,
}
use inferrail.Common.Dict.{Attributes, lookup}
use inferrail.Common.Sorting.{sort_by, sum_of}
use inferrail.Budgets.Schema.{Budget, global, project, work, is_truthy}

pub data ReservationState : Type 0 where
  active : ReservationState
  held : ReservationState

pub record Reservation : Type 0 where
  pub reservation_id : String
  pub request_id : String
  pub project : Option String
  pub work_id : Option String
  pub amount_usd : ℕ
  pub state : ReservationState
  pub created_at : ℕ

pub record BudgetStore : Type 0 where
  pub budgets : List Budget
  pub reservations : List Reservation

abbrev pub by_id : Budget → Budget → Bool
by_id a b = leb_text a.budget_id b.budget_id

-- AdmissionTransaction.budgets and BudgetStore.list
unfoldable pub list_budgets : BudgetStore → List Budget
unfolding sort_by
list_budgets s = sort_by by_id s.budgets

-- `(scope = ? AND scope_value = ?)`, a clause that is only there for a value that is truthy
unfoldable pub names_scope : Option String → Option String → Bool
unfolding is_truthy same_text?
names_scope value scope_value = is_truthy value && same_text? scope_value value

unfoldable pub is_candidate : Attributes → Budget → Bool
unfolding names_scope lookup
is_candidate attributes b = elim b.scope [
  | global ↦ true
  | project ↦ names_scope (lookup "project" attributes) b.scope_value
  | work ↦ names_scope (lookup "work_id" attributes) b.scope_value
]

unfoldable pub candidate_budgets : Attributes → BudgetStore → List Budget
unfolding is_candidate sort_by
candidate_budgets attributes s = sort_by by_id (filter (is_candidate attributes) s.budgets)

unfoldable pub find_budget : String → List Budget → Option Budget
unfolding same_text
find_budget id [] = none
find_budget id (b ∷ bs) = if same_text b.budget_id id then some b else find_budget id bs

unfoldable pub get_budget : String → BudgetStore → Option Budget
unfolding find_budget
get_budget id s = find_budget id s.budgets

unfoldable pub insert_budget : Budget → BudgetStore → BudgetStore
insert_budget b s = record s { budgets = b ∷ s.budgets }

-- `column = ?`: NULL equals nothing
unfoldable pub column_equals : Option String → Option String → Bool
unfolding same_text
column_equals (some value) (some wanted) = same_text value wanted
column_equals _ _ = false

abbrev pub is_since : Option ℕ → ℕ → Bool
is_since none time = true
is_since (some start) time = leb start time

unfoldable pub covers : Budget → Option ℕ → Reservation → Bool
unfolding column_equals
covers b since r =
    (elim b.scope [
      | global ↦ true
      | project ↦ column_equals r.project b.scope_value
      | work ↦ column_equals r.work_id b.scope_value
    ])
    && is_since since r.created_at

abbrev pub counted_amount : Budget → Option ℕ → Reservation → ℕ
counted_amount b since r = if covers b since r then r.amount_usd else 0

unfoldable pub reserved_usd : Budget → Option ℕ → BudgetStore → ℕ
unfolding covers sum_of
reserved_usd b since s = sum_of (counted_amount b since) s.reservations

unfoldable pub insert_reservation : Reservation → BudgetStore → BudgetStore
insert_reservation r s = record s { reservations = r ∷ s.reservations }

-- INSERT … ON CONFLICT(budget_id) DO UPDATE
unfoldable pub upsert : Budget → List Budget → List Budget
unfolding same_text
upsert b [] = b ∷ []
upsert b (x ∷ xs) = if same_text x.budget_id b.budget_id then b ∷ xs else x ∷ upsert b xs

unfoldable pub set_budget : Budget → BudgetStore → BudgetStore
unfolding upsert
set_budget b s = record s { budgets = upsert b s.budgets }

abbrev pub has_budget_id : String → Budget → Bool
has_budget_id id b = same_text b.budget_id id

-- the answer is whether a row was deleted
unfoldable pub remove_budget : String → BudgetStore → Bool × BudgetStore
unfolding same_text
remove_budget id s = (
  any (has_budget_id id) s.budgets,
  record s { budgets = filter (λ b. not (has_budget_id id b)) s.budgets },
)

unfoldable pub delete_reservation : String → List Reservation → List Reservation
unfolding same_text
delete_reservation id [] = []
delete_reservation id (r ∷ rs) =
    let rest = delete_reservation id rs in if same_text r.reservation_id id then rest else r ∷ rest

unfoldable pub release_reservation : String → BudgetStore → BudgetStore
unfolding delete_reservation
release_reservation id s = record s { reservations = delete_reservation id s.reservations }

unfoldable pub mark_held : String → List Reservation → List Reservation
unfolding same_text
mark_held id [] = []
mark_held id (r ∷ rs) =
    (if same_text r.reservation_id id then record r { state = held } else r) ∷ mark_held id rs

unfoldable pub hold_reservation : String → BudgetStore → BudgetStore
unfolding mark_held
hold_reservation id s = record s { reservations = mark_held id s.reservations }

abbrev pub by_creation : Reservation → Reservation → Bool
by_creation a b =
    if leb a.created_at b.created_at
    then (if leb b.created_at a.created_at
        then leb_text a.reservation_id b.reservation_id
        else true)
    else false

unfoldable pub list_reservations : BudgetStore → List Reservation
unfolding sort_by
list_reservations s = sort_by by_creation s.reservations
