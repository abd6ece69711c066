-- ===== src/Budgets/Run/Measures.antt =====
-- What a per-run budget counts, and how each statement changes it.
use inferrail.Common.{
  ℕ, ◌+◌, ◌≤◌, ◌≡◌, refl, ◌∙◌, String, Bool, false, none, List, [], ◌∷◌, filter, same_text_iff,
  if◌then◌else◌, arith, ap, Option,
}
use inferrail.Common.Sorting.{sort_by, sum_of, sum_of-sort_by}
use inferrail.Common.Membership.{◌∈◌, here, there}
use inferrail.Receipts.Schema.{InferenceReceipt}
use inferrail.Receipts.Store.{ReceiptsStore, append_row, emit, satisfies, query, page, by_time}
use inferrail.Budgets.Schema.{Budget, Scope, global, project, work}
use inferrail.Budgets.Store.{Reservation, covers, counted_amount, delete_reservation, mark_held}
use inferrail.Budgets.Spending.{counted_cost, scope_filters, filters_for}
use inferrail.Budgets.Run.{is_settled}

-- the cost that a receipt adds to the budget's spending
abbrev pub billed_to : Budget → InferenceReceipt → ℕ
billed_to b r = if satisfies (scope_filters b) r then counted_cost none r else 0

-- the amount of a reservation whose receipt is not written
abbrev pub pending_amount : Budget → List String → Reservation → ℕ
pending_amount b settled r =
    if is_settled settled r.reservation_id then 0 else counted_amount b none r

abbrev pub pending : Budget → List String → List Reservation → ℕ
pending b settled rs = sum_of (pending_amount b settled) rs

sum_of-filter :
    (p : InferenceReceipt → Bool) (f : InferenceReceipt → ℕ) (rs : List InferenceReceipt)
    → sum_of f (filter p rs) ≡ sum_of (λ r. if p r then f r else 0) rs
unfolding sum_of
sum_of-filter p f [] = refl
sum_of-filter p f (r ∷ rs) = ground (arith, sum_of-filter p f rs)

sum_of-append :
    (f : InferenceReceipt → ℕ) (r : InferenceReceipt) (rs : List InferenceReceipt)
    → sum_of f (append_row r rs) ≡ f r + sum_of f rs
unfolding sum_of
sum_of-append f r [] = refl
sum_of-append f r (x ∷ xs) = omega (arith, sum_of-append f r xs)

sum_of-emit :
    (f : InferenceReceipt → ℕ) (r : InferenceReceipt) (rs : ReceiptsStore)
    → sum_of f (emit r rs) ≤ f r + sum_of f rs
unfolding emit
sum_of-emit f r rs = ground (arith, sum_of-append f r rs)

-- a budget's query takes no page
unpaged :
    (scope : Scope) (value : Option String) (rows : List InferenceReceipt)
    → page (filters_for scope value).limit (filters_for scope value).offset rows ≡ rows
unfolding filters_for
unpaged global value rows = refl
unpaged project value rows = refl
unpaged work value rows = refl

-- the spending is a sum over the table, in whatever order
pub queried_sum :
    (b : Budget) (rs : ReceiptsStore)
    → sum_of (counted_cost none) (query (scope_filters b) rs) ≡ sum_of (billed_to b) rs
unfolding query scope_filters
queried_sum b rs =
    let mine = filter (satisfies (scope_filters b)) rs in
    ap (λ rows. sum_of (counted_cost none) rows)
      (unpaged b.scope b.scope_value (sort_by by_time mine))
    ∙ sum_of-sort_by by_time (counted_cost none) mine
    ∙ sum_of-filter (satisfies (scope_filters b)) (counted_cost none) rs

pub billed-emit :
    (b : Budget) (r : InferenceReceipt) (rs : ReceiptsStore)
    → sum_of (billed_to b) (emit r rs) ≤ billed_to b r + sum_of (billed_to b) rs
billed-emit b r rs = sum_of-emit (billed_to b) r rs

pub pending_le_reserved :
    (b : Budget) (settled : List String) (rs : List Reservation)
    → pending b settled rs ≤ sum_of (counted_amount b none) rs
unfolding sum_of
pending_le_reserved b settled [] = omega arith
pending_le_reserved b settled (r ∷ rs) = ground (arith, pending_le_reserved b settled rs)

pub pending-delete :
    (b : Budget) (settled : List String) (id : String) (rs : List Reservation)
    → pending b settled (delete_reservation id rs) ≤ pending b settled rs
unfolding sum_of delete_reservation
pending-delete b settled id [] = omega arith
pending-delete b settled id (r ∷ rs) = ground (arith, pending-delete b settled id rs)

pub pending-mark_held :
    (b : Budget) (settled : List String) (id : String) (rs : List Reservation)
    → pending b settled (mark_held id rs) ≤ pending b settled rs
unfolding sum_of mark_held covers
pending-mark_held b settled id [] = omega arith
pending-mark_held b settled id (r ∷ rs) = ground (arith, pending-mark_held b settled id rs)

settle_le :
    (b : Budget) (settled : List String) (id : String) (rs : List Reservation)
    → pending b (id ∷ settled) rs ≤ pending b settled rs
unfolding sum_of
settle_le b settled id [] = omega arith
settle_le b settled id (r ∷ rs) = ground (arith, settle_le b settled id rs)

-- settling a reservation that stands takes its amount out of what is pending
pub pending-settle :
    (b : Budget) (settled : List String) (r : Reservation) (rs : List Reservation)
    → r ∈ rs
    → is_settled settled r.reservation_id ≡ false
    → pending b (r.reservation_id ∷ settled) rs + counted_amount b none r ≤ pending b settled rs
unfolding sum_of
pending-settle b settled r [] m fresh = elim m [ ]
pending-settle b settled r (_ ∷ _) (here _ rs) fresh = ground (
  arith,
  fresh,
  same_text_iff r.reservation_id r.reservation_id,
  settle_le b settled r.reservation_id rs,
)
pending-settle b settled r (_ ∷ _) (there _ x rs m) fresh =
    ground (arith, pending-settle b settled r rs m fresh)
