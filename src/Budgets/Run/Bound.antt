-- ===== src/Budgets/Run/Bound.antt =====
-- A blocking per-run budget is never overspent, however requests interleave.
use inferrail.Common.{
  ℕ, ◌+◌, ◌≤◌, String, true, false, ◌≡◌, refl, sym, ap, subst, ◌⊎◌, inl, inr, Option, none, some,
  List, ◌∷◌, arith, Bool-cases,
}
use inferrail.Common.Dict.{lookup, Attributes}
use inferrail.Common.Sorting.{sum_of}
use inferrail.Common.Membership.{◌∈◌}
use inferrail.Budgets.Schema.{Budget}
use inferrail.Budgets.Store.{
  BudgetStore, Reservation, covers, counted_amount, reserved_usd, release_reservation,
  hold_reservation,
}
use inferrail.Budgets.Spending.{applies_to, spent_so_far_usd}
use inferrail.Budgets.Enforcer.{
  Enforcer, Request, admitted, reservation_for, reserve, release, hold,
}
use inferrail.Budgets.Limits.{admitted_within}
use inferrail.Budgets.Outcome.{refused_keeps}
use inferrail.Budgets.Run.{
  World, Step, admits, refuses, emits, emits_error, emits_unmetered, releases, holds, Reach, start,
  next,
}
use inferrail.Budgets.Run.Measures.{
  billed_to, pending, billed-emit, pending_le_reserved, pending-delete, pending-mark_held,
  pending-settle,
}
use inferrail.Budgets.Run.Unmetered.{never_unmetered}
use inferrail.Budgets.Run.Admitting.{admitted_rows}
use inferrail.Budgets.Run.Billing.{
  IsRunBudget, no_window, spent_is_billed, covered_applies, billed_le_counted,
  unapplied_bills_nothing, error_bills_nothing,
}

-- The budget stands, and what was billed with what is pending is within its limit.
abbrev pub IsBounded : Budget → World → Type 0
IsBounded b w =
    (b ∈ w.store.budgets)
    × (sum_of (billed_to b) w.receipts + pending b w.settled w.store.reservations ≤ b.limit_usd)

-- the admission's own check, in the terms of the bound
checked :
    (b : Budget) (w : World) (e : Enforcer) (now : ℕ) (id : String) (q : Request) (r : Reservation)
    (s2 : BudgetStore)
    → IsRunBudget b
    → reserve e now id w.receipts q w.store ≡ (admitted (some r), s2)
    → b ∈ s2.budgets
    → applies_to q.attributes b ≡ true
    → sum_of (billed_to b) w.receipts + pending b w.settled s2.reservations ≤ b.limit_usd
unfolding reserved_usd
checked b w e now id q r s2 run h m applies =
    let within = admitted_within e now id w.receipts q w.store s2 r b h m run.2 run.3 applies in
    let unwindowed : (spent_so_far_usd now w.receipts b).spent_usd
          + sum_of (counted_amount b none) s2.reservations
        ≤ b.limit_usd =
      subst
        (λ since.
          (spent_so_far_usd now w.receipts b).spent_usd
            + sum_of (counted_amount b since) s2.reservations
          ≤ b.limit_usd)
        (no_window now b run.1) within in
    omega (
      arith,
      unwindowed,
      spent_is_billed now b w.receipts run.1,
      pending_le_reserved b w.settled s2.reservations,
    )

-- a reservation of a request that the budget does not apply to
uncounted :
    (b : Budget) (settled : List String) (r : Reservation) (rs : List Reservation)
    (attributes : Attributes)
    → IsRunBudget b
    → r.work_id ≡ lookup "work_id" attributes
    → applies_to attributes b ≡ false
    → pending b settled (r ∷ rs) ≡ pending b settled rs
unfolding sum_of
uncounted b settled r rs attributes run attributed h = elim (Bool-cases (covers b none r)) [
  | inl counted ↦
      absurd (ground (arith, h, covered_applies b r attributes run.0 attributed counted))
  | inr free ↦ ground (arith, free)
]

-- an admission of another request
passing :
    (b : Budget) (w : World) (now : ℕ) (id : String) (q : Request) (s2 : BudgetStore)
    → IsRunBudget b
    → IsBounded b w
    → (s2.reservations ≡ w.store.reservations)
      ⊎ ((x : ℕ) × (s2.reservations ≡ reservation_for now id q x ∷ w.store.reservations))
    → applies_to q.attributes b ≡ false
    → sum_of (billed_to b) w.receipts + pending b w.settled s2.reservations ≤ b.limit_usd
passing b w now id q s2 run bounded (inl same) other =
    omega (arith, bounded.1, ap (λ rs. pending b w.settled rs) same)
passing b w now id q s2 run bounded (inr (x, new)) other = omega (
  arith,
  bounded.1,
  ap (λ rs. pending b w.settled rs) new,
  uncounted b w.settled (reservation_for now id q x) w.store.reservations q.attributes run refl
      other,
)

admitting :
    (b : Budget) (w : World) (e : Enforcer) (now : ℕ) (id : String) (q : Request)
    (o : Option Reservation) (s2 : BudgetStore)
    → IsRunBudget b
    → IsBounded b w
    → reserve e now id w.receipts q w.store ≡ (admitted o, s2)
    → IsBounded b record w { store = s2 }
admitting b w e now id q o s2 run bounded h =
    let (kept, rows) = admitted_rows e now id w.receipts q w.store s2 o h in
    (
      kept b bounded.0,
      elim (Bool-cases (applies_to q.attributes b)) [
        | inr other ↦ passing b w now id q s2 run bounded rows other
        | inl applies ↦ applying o h (kept b bounded.0) applies
      ],
    )
  where
    applying :
        (o : Option Reservation)
        → reserve e now id w.receipts q w.store ≡ (admitted o, s2)
        → b ∈ s2.budgets
        → applies_to q.attributes b ≡ true
        → sum_of (billed_to b) w.receipts + pending b w.settled s2.reservations ≤ b.limit_usd
    applying none k m applies = absurd (
        ground (arith, applies, never_unmetered e now id w.receipts q w.store s2 b k m run.2 run.3))
    applying (some r) k m applies = checked b w e now id q r s2 run k m applies

stepping : (b : Budget) (w u : World) → IsRunBudget b → IsBounded b w → Step b w u → IsBounded b u
unfolding release hold release_reservation hold_reservation
stepping b w u run bounded (admits e now id q o s2 h) = admitting b w e now id q o s2 run bounded h
stepping b w u run bounded (refuses e now id q why s2 h) =
    subst (λ t. IsBounded b record w { store = t })
      (sym (refused_keeps e now id w.receipts q w.store s2 why h)) bounded
stepping b w u run bounded (emits r receipt m fresh attributed cheap) = (
  bounded.0,
  omega (
    arith,
    bounded.1,
    billed-emit b receipt w.receipts,
    billed_le_counted b receipt r run attributed cheap,
    pending-settle b w.settled r w.store.reservations m fresh,
  ),
)
stepping b w u run bounded (emits_error receipt h) = (
  bounded.0,
  omega (arith, bounded.1, billed-emit b receipt w.receipts, error_bills_nothing b receipt h),
)
stepping b w u run bounded (emits_unmetered e now id q before past s2 receipt h m attributed) = (
  bounded.0,
  omega (
    arith,
    bounded.1,
    billed-emit b receipt w.receipts,
    unapplied_bills_nothing b receipt q.attributes run attributed
        (never_unmetered e now id past q before s2 b h m run.2 run.3),
  ),
)
stepping b w u run bounded (releases r) = (
  bounded.0,
  omega (arith, bounded.1, pending-delete b w.settled r.reservation_id w.store.reservations),
)
stepping b w u run bounded (holds r) = (
  bounded.0,
  omega (arith, bounded.1, pending-mark_held b w.settled r.reservation_id w.store.reservations),
)

pub reaching :
    (b : Budget) (w u : World) → IsRunBudget b → IsBounded b w → Reach b w u → IsBounded b u
reaching b w u run bounded start = bounded
reaching b w u run bounded (next v u2 before step) =
    stepping b v u run (reaching b w v run bounded before) step

-- Take a valid blocking per-run budget that stands in a table without pending reservations and
-- without spending of its work. After any interleaving of admissions, refusals, receipts, releases
-- and holds, from any requests, the spending of its work is within its limit, provided that each
-- receipt is an error's, or of an attempt with a reservation, of the same work and of a cost at most
-- the amount reserved, or of a request that was admitted without one when the budget stood.
pub never_overspent :
    (b : Budget) (w u : World) (now : ℕ)
    → IsRunBudget b
    → b ∈ w.store.budgets
    → sum_of (billed_to b) w.receipts ≡ 0
    → pending b w.settled w.store.reservations ≡ 0
    → Reach b w u
    → (spent_so_far_usd now u.receipts b).spent_usd ≤ b.limit_usd
never_overspent b w u now run stands unspent unreserved reach = omega (
  arith,
  spent_is_billed now b u.receipts run.1,
  (reaching b w u run (stands, omega (arith, unspent, unreserved)) reach).1,
)
