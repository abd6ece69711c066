-- ===== src/Budgets/Run.antt =====
-- Interleavings of requests against the two stores, as a step relation. Each step is one transaction
-- of the gateway: an admission, the emission of a receipt, a release or a hold, from any request.
mod Measures
pub mod Unmetered
pub mod Admitting
mod Billing
pub mod Bound
use inferrail.Common.{
  ℕ, ◌≤◌, ◌≡◌, String, Bool, true, false, ◌&&◌, ◌⊎◌, Option, none, some, List, [], ◌∷◌, any,
  same_text, if◌then◌else◌,
}
use inferrail.Common.Dict.{lookup}
use inferrail.Common.Membership.{◌∈◌}
use inferrail.Pricing.Cost.{or_zero}
use inferrail.Receipts.Schema.{InferenceReceipt, Status, error}
use inferrail.Receipts.Store.{ReceiptsStore, emit, satisfies}
use inferrail.Budgets.Schema.{Budget}
use inferrail.Budgets.Store.{BudgetStore, Reservation}
use inferrail.Budgets.Spending.{applies_to, counts_in}
use inferrail.Budgets.Enforcer.{
  Enforcer, Request, Refusal, admitted, refused, reserve, release, hold,
}

-- `settled` has the ids of the reservations whose receipt is written: a reservation may still stand
-- for a moment beside its receipt.
pub record World : Type 0 where
  pub store : BudgetStore
  pub receipts : ReceiptsStore
  pub settled : List String

abbrev pub is_settled : List String → String → Bool
is_settled settled id = any (same_text id) settled

-- The steps, as one budget sees them. A receipt of an attempt with a reservation costs at most the
-- amount reserved and is attributed to the same work; a receipt of an attempt without one is an
-- error's, or that of a request which was admitted unmetered at a moment when the budget stood.
pub data Step (b : Budget) (w : World) : World → Type 0 where
  admits :
      (e : Enforcer) (now : ℕ) (id : String) (q : Request) (o : Option Reservation)
      (s2 : BudgetStore)
      → reserve e now id w.receipts q w.store ≡ (admitted o, s2)
      → Step b w record w { store = s2 }
  refuses :
      (e : Enforcer) (now : ℕ) (id : String) (q : Request) (why : Refusal) (s2 : BudgetStore)
      → reserve e now id w.receipts q w.store ≡ (refused why, s2)
      → Step b w record w { store = s2 }
  emits :
      (r : Reservation) (receipt : InferenceReceipt)
      → r ∈ w.store.reservations
      → is_settled w.settled r.reservation_id ≡ false
      → lookup "work_id" receipt.attributes ≡ r.work_id
      → or_zero receipt.estimated_cost_usd ≤ r.amount_usd
      → Step b w
          record w { receipts = emit receipt w.receipts; settled = r.reservation_id ∷ w.settled }
  emits_error :
      (receipt : InferenceReceipt)
      → receipt.status ≡ error
      → Step b w record w { receipts = emit receipt w.receipts }
  emits_unmetered :
      (e : Enforcer) (now : ℕ) (id : String) (q : Request) (before : BudgetStore)
      (past : ReceiptsStore) (s2 : BudgetStore) (receipt : InferenceReceipt)
      → reserve e now id past q before ≡ (admitted none, s2)
      → b ∈ s2.budgets
      → lookup "work_id" receipt.attributes ≡ lookup "work_id" q.attributes
      → Step b w record w { receipts = emit receipt w.receipts }
  releases : (r : Reservation) → Step b w record w { store = release r w.store }
  holds : (r : Reservation) → Step b w record w { store = hold r w.store }

pub data Reach (b : Budget) (w : World) : World → Type 0 where
  start : Reach b w w
  next : (v u : World) → Reach b w v → Step b v u → Reach b w u
