-- ===== src/Budgets/Worst.antt =====
-- The overrun that a receipt records is the worst one.
use inferrail.Common.{
  ℕ, ◌+◌, ◌-◌, ◌≤◌, ◌<◌, ltb, ◌≡◌, refl, ◌∙◌, ◌⊎◌, inl, inr, Option, none, some, List, [], ◌∷◌,
  arith, Bool-cases,
}
use inferrail.Common.Membership.{◌∈◌, here, there}
use inferrail.Common.Sums.{All}
use inferrail.Pricing.Cost.{or_zero}
use inferrail.Receipts.Store.{ReceiptsStore}
use inferrail.Budgets.Schema.{Budget}
use inferrail.Budgets.Spending.{spent_so_far_usd}
use inferrail.Budgets.Overrun.{add_overrun, worst_overrun, overrun_of}

module _ (now : ℕ) (receipts : ReceiptsStore) (actual : ℕ) where
  -- the spending with the request's own cost
  abbrev pub total_of : Budget → ℕ
  total_of b = (spent_so_far_usd now receipts b).spent_usd + actual

  abbrev pub IsOverrunOf : Budget → Option ℕ → Type 0
  IsOverrunOf b o = (b.limit_usd < total_of b) × (o ≡ some (total_of b - b.limit_usd))

  added :
      (worst : Option ℕ) (b : Budget)
      → (total_of b ≤ b.limit_usd + or_zero (add_overrun now receipts actual worst b))
        × (or_zero worst ≤ or_zero (add_overrun now receipts actual worst b))
        × ((add_overrun now receipts actual worst b ≡ worst)
            ⊎ IsOverrunOf b (add_overrun now receipts actual worst b))
  unfolding add_overrun
  added none b = elim (Bool-cases (ltb b.limit_usd (total_of b))) [
    | inl over ↦ (
      ground (arith, over),
      ground (arith, over),
      inr (ground (arith, over), ground (arith, over)),
    )
    | inr within ↦ (ground (arith, within), ground (arith, within), inl (ground (arith, within)))
  ]
  added (some x) b = elim (Bool-cases (ltb b.limit_usd (total_of b))) [
    | inr within ↦ (ground (arith, within), ground (arith, within), inl (ground (arith, within)))
    | inl over ↦ elim (Bool-cases (ltb x (total_of b - b.limit_usd))) [
      | inl larger ↦ (
        ground (arith, over, larger),
        ground (arith, over, larger),
        inr (ground (arith, over), ground (arith, over, larger)),
      )
      | inr smaller ↦ (
        ground (arith, over, smaller),
        ground (arith, over, smaller),
        inl (ground (arith, over, smaller)),
      )
    ]
  ]

  -- after the budgets `bs`, from the worst overrun before them
  abbrev IsWorst : List Budget → Option ℕ → Option ℕ → Type 0
  IsWorst bs before o =
      All (λ b. total_of b ≤ b.limit_usd + or_zero o) bs
      × (or_zero before ≤ or_zero o)
      × ((o ≡ before) ⊎ ((b : Budget) × (b ∈ bs) × IsOverrunOf b o))

  loop-IsWorst :
      (bs : List Budget) (before : Option ℕ)
      → IsWorst bs before (worst_overrun now receipts actual before bs)
  unfolding worst_overrun
  loop-IsWorst [] before = (tt, omega arith, inl refl)
  loop-IsWorst (b ∷ bs) before =
      let step = added before b in
      let rest = loop-IsWorst bs (add_overrun now receipts actual before b) in
      (
        (omega (arith, step.0, rest.1), rest.0),
        omega (arith, step.1, rest.1),
        joined b bs before (add_overrun now receipts actual before b)
            (worst_overrun now receipts actual (add_overrun now receipts actual before b) bs) step.2
            rest.2,
      )
    where
      joined :
          (b : Budget) (bs : List Budget) (before mid o : Option ℕ)
          → (mid ≡ before) ⊎ IsOverrunOf b mid
          → (o ≡ mid) ⊎ ((x : Budget) × (x ∈ bs) × IsOverrunOf x o)
          → (o ≡ before) ⊎ ((x : Budget) × (x ∈ (b ∷ bs)) × IsOverrunOf x o)
      joined b bs before mid o h (inr (x, m, over)) = inr (x, there x b bs m, over)
      joined b bs before mid o (inl same) (inl k) = inl (k ∙ same)
      joined b bs before mid o (inr over) (inl k) = inr (b, here b bs, (over.0, k ∙ over.1))

-- For a request whose cost is known, every matching budget's spending with that cost is within its
-- limit and the recorded overrun together; and the overrun, where one is recorded, is that of a
-- matching budget.
pub overrun_is_worst :
    (now : ℕ) (receipts : ReceiptsStore) (actual : ℕ) (matching : List Budget)
    → let o = overrun_of now receipts matching (some actual) in
      All (λ b. total_of now receipts actual b ≤ b.limit_usd + or_zero o) matching
      × ((o ≡ none) ⊎ ((b : Budget) × (b ∈ matching) × IsOverrunOf now receipts actual b o))
unfolding overrun_of
overrun_is_worst now receipts actual matching =
    let worst = loop-IsWorst now receipts actual matching none in (worst.0, worst.2)
