-- ===== src/Budgets/Outcome.antt =====
-- How an admission's transaction can end.
use inferrail.Common.{
  ℕ, String, ◌≡◌, refl, sym, ap, ◌∙◌, ◌⊎◌, inl, inr, Option, none, some, List, [], ◌∷◌, arith,
}
use inferrail.Receipts.Store.{ReceiptsStore}
use inferrail.Budgets.Schema.{Budget}
use inferrail.Budgets.Store.{BudgetStore, insert_reservation, Reservation}
use inferrail.Budgets.Estimate.{estimate_upper_bound_usd}
use inferrail.Budgets.Enforcer.{
  Enforcer, Request, Refusal, Admission, admitted, refused, Txn, goes_on, raises,
  apply_per_work_declaration, first_unpriced, first_exceeded, no_reservation, take_reservation,
  reservation_for, reserve_against, budgets_for, reserve_after, reserve,
}

-- Where the transaction ends: rolled back, or with the budgets that it had.
abbrev EndsAt : BudgetStore → BudgetStore → Admission × BudgetStore → Type 0
EndsAt before s out =
    ((why : Refusal) × (out ≡ (refused why, before)))
    ⊎ ((o : Option Reservation) × (s2 : BudgetStore) × (out ≡ (admitted o, s2))
        × (s2.budgets ≡ s.budgets))

no_reservation-EndsAt :
    (o : Option Refusal) (before s : BudgetStore) → EndsAt before s (no_reservation o before s)
no_reservation-EndsAt none before s = inr (none, s, refl, refl)
no_reservation-EndsAt (some why) before s = inl (why, refl)

take_reservation-EndsAt :
    (o : Option Refusal) (r : Reservation) (before s : BudgetStore)
    → EndsAt before s (take_reservation o r before s)
unfolding take_reservation
take_reservation-EndsAt none r before s = inr (some r, insert_reservation r s, refl, refl)
take_reservation-EndsAt (some why) r before s = inl (why, refl)

against-EndsAt :
    (now : ℕ) (id : String) (receipts : ReceiptsStore) (q : Request) (estimate : Option ℕ)
    (bs : List Budget) (before s : BudgetStore)
    → EndsAt before s (reserve_against now id receipts q estimate bs before s)
unfolding reserve_against
against-EndsAt now id receipts q estimate [] before s = inr (none, s, refl, refl)
against-EndsAt now id receipts q none (b ∷ bs) before s =
    no_reservation-EndsAt (first_unpriced (b ∷ bs)) before s
against-EndsAt now id receipts q (some x) (b ∷ bs) before s =
    take_reservation-EndsAt (first_exceeded now receipts s x (b ∷ bs)) (reservation_for now id q x)
      before s

refused_after :
    (now : ℕ) (id : String) (receipts : ReceiptsStore) (q : Request) (estimate : Option ℕ)
    (s s2 : BudgetStore) (why : Refusal) (t : Txn)
    → reserve_after now id receipts q estimate s t ≡ (refused why, s2)
    → s2 ≡ s
unfolding reserve_after
refused_after now id receipts q estimate s s2 why (raises _) k = sym (ap (λ z. z.1) k)
refused_after now id receipts q estimate s s2 why (goes_on s1) k =
    elim (against-EndsAt now id receipts q estimate (budgets_for q s1) s s1) [
      | inl (why2, ends) ↦ ap (λ z. z.1) (sym k ∙ ends)
      | inr (o, s3, ends, same) ↦ absurd (ground (arith, k, ends))
    ]

-- An admission that is refused leaves both tables as they were, a budget that it would have declared
-- included.
pub refused_keeps :
    (e : Enforcer) (now : ℕ) (id : String) (receipts : ReceiptsStore) (q : Request)
    (s s2 : BudgetStore) (why : Refusal)
    → reserve e now id receipts q s ≡ (refused why, s2)
    → s2 ≡ s
unfolding reserve
refused_keeps e now id receipts q s s2 why h =
    refused_after now id receipts q
      (estimate_upper_bound_usd e.catalogs e.resolver q.provider q.model q.prompt_chars
        q.max_completion_tokens)
      s s2 why (apply_per_work_declaration e now q.attributes q.declared_limit_usd s) h

pub admitted_after :
    (now : ℕ) (id : String) (receipts : ReceiptsStore) (q : Request) (estimate : Option ℕ)
    (s s2 : BudgetStore) (o : Option Reservation) (t : Txn)
    → reserve_after now id receipts q estimate s t ≡ (admitted o, s2)
    → (s1 : BudgetStore) × (t ≡ goes_on s1) × (s2.budgets ≡ s1.budgets)
unfolding reserve_after
admitted_after now id receipts q estimate s s2 o (raises _) k = absurd (ground (arith, k))
admitted_after now id receipts q estimate s s2 o (goes_on s1) k =
    elim (against-EndsAt now id receipts q estimate (budgets_for q s1) s s1) [
      | inl (why2, ends) ↦ absurd (ground (arith, k, ends))
      | inr (o2, s3, ends, same) ↦ (s1, refl, ap (λ z. z.1.budgets) (sym k ∙ ends) ∙ same)
    ]

abbrev tables_or : BudgetStore → Txn → BudgetStore
tables_or d (goes_on s) = s
tables_or d (raises _) = d

pub goes_on_inj : (s s1 : BudgetStore) → goes_on s ≡ goes_on s1 → s ≡ s1
goes_on_inj s s1 h = ap (λ t. tables_or s t) h
