-- ===== src/Work/Total.antt =====
-- The works add up to their receipts: src/inferrail/work/builder.py.
use inferrail.Common.{
  ℕ, ◌+◌, ◌≡◌, refl, sym, ap, ◌∙◌, String, List, [], ◌∷◌, filter, length, Option, none, some,
  if◌then◌else◌, same_text, same_text?, leb_text, arith, Option-cases, inl, inr,
}
use inferrail.Common.Dict.{lookup}
use inferrail.Common.Sorting.{sort_by, sum_of, sum_of-sort_by}
use inferrail.Common.Membership.{◌∈◌, here, there}
use inferrail.Pricing.Cost.{or_zero}
use inferrail.Receipts.Schema.{InferenceReceipt}
use inferrail.Receipts.Totals.{real_part, cost_of, summarize_totals, real_count_total}
use inferrail.Work.{
  WorkOutcomeRecord, WorkSummary, is_of_work, matching_receipts_for_work, summary_of, summary_if,
  build_work_summary, add_summary, work_ids_in_receipts, work_ids_in_outcomes, summaries_for,
  aggregate_work_summaries,
}
use inferrail.Work.Ids.{count_id, counted_once}

-- what a receipt brings to its work, if it has one
abbrev pub attributed : (InferenceReceipt → ℕ) → InferenceReceipt → ℕ
attributed g r = elim (lookup "work_id" r.attributes) [ none ↦ 0 | some w ↦ g r ]

abbrev part_of : (InferenceReceipt → ℕ) → InferenceReceipt → String → ℕ
part_of g r w = if is_of_work w r then g r else 0

matching_sum :
    (g : InferenceReceipt → ℕ) (w : String) (rs : List InferenceReceipt)
    → sum_of g (matching_receipts_for_work w rs) ≡ sum_of (λ r. part_of g r w) rs
unfolding matching_receipts_for_work sum_of
matching_sum g w [] = refl
matching_sum g w (r ∷ rs) = ground (arith, matching_sum g w rs)

sum_of-add :
    (f g : String → ℕ) (ws : List String) → sum_of (λ w. f w + g w) ws ≡ sum_of f ws + sum_of g ws
unfolding sum_of
sum_of-add f g [] = refl
sum_of-add f g (w ∷ ws) = omega (arith, sum_of-add f g ws)

sum_of-zero : (ws : List String) → sum_of (λ w. 0) ws ≡ 0
unfolding sum_of
sum_of-zero [] = refl
sum_of-zero (w ∷ ws) = omega (arith, sum_of-zero ws)

-- summing over works and their receipts is summing over receipts and their works
swap_sums :
    (g : InferenceReceipt → ℕ) (ws : List String) (rs : List InferenceReceipt)
    → sum_of (λ w. sum_of (λ r. part_of g r w) rs) ws ≡ sum_of (λ r. sum_of (part_of g r) ws) rs
unfolding sum_of
swap_sums g ws [] = sum_of-zero ws
swap_sums g ws (r ∷ rs) =
    sum_of-add (part_of g r) (λ w. sum_of (λ x. part_of g x w) rs) ws
    ∙ ap (λ n. sum_of (part_of g r) ws + n) (swap_sums g ws rs)

sum_of-none :
    (g : InferenceReceipt → ℕ) (r : InferenceReceipt) (ws : List String)
    → lookup "work_id" r.attributes ≡ none
    → sum_of (part_of g r) ws ≡ 0
unfolding sum_of is_of_work same_text?
sum_of-none g r [] h = refl
sum_of-none g r (w ∷ ws) h = ground (arith, h, sum_of-none g r ws h)

absent_part :
    (g : InferenceReceipt → ℕ) (r : InferenceReceipt) (k : String) (ws : List String)
    → lookup "work_id" r.attributes ≡ some k
    → count_id k ws ≡ 0
    → sum_of (part_of g r) ws ≡ 0
unfolding sum_of is_of_work same_text?
absent_part g r k [] h c = refl
absent_part g r k (w ∷ ws) h c = ground (arith, h, c, absent_part g r k ws h)

once_part :
    (g : InferenceReceipt → ℕ) (r : InferenceReceipt) (k : String) (ws : List String)
    → lookup "work_id" r.attributes ≡ some k
    → count_id k ws ≡ 1
    → sum_of (part_of g r) ws ≡ g r
unfolding sum_of is_of_work same_text?
once_part g r k [] h c = absurd (omega (arith, c))
once_part g r k (w ∷ ws) h c = ground (arith, h, c, absent_part g r k ws h, once_part g r k ws h)

sum_of_on :
    (f g : InferenceReceipt → ℕ) (rs : List InferenceReceipt)
    → ((r : InferenceReceipt) → r ∈ rs → f r ≡ g r)
    → sum_of f rs ≡ sum_of g rs
unfolding sum_of
sum_of_on f g [] h = refl
sum_of_on f g (r ∷ rs) h =
    omega (arith, h r (here r rs), sum_of_on f g rs (λ x m. h x (there x r rs m)))

abbrev all_ids : List InferenceReceipt → List WorkOutcomeRecord → List String
all_ids rs os = work_ids_in_receipts rs (work_ids_in_outcomes os)

attributed-none :
    (g : InferenceReceipt → ℕ) (r : InferenceReceipt)
    → lookup "work_id" r.attributes ≡ none
    → attributed g r ≡ 0
attributed-none g r h = ground (arith, h)

attributed-some :
    (g : InferenceReceipt → ℕ) (r : InferenceReceipt) (k : String)
    → lookup "work_id" r.attributes ≡ some k
    → attributed g r ≡ g r
attributed-some g r k h = ground (arith, h)

of_receipt :
    (g : InferenceReceipt → ℕ) (rs : List InferenceReceipt) (os : List WorkOutcomeRecord)
    (r : InferenceReceipt)
    → r ∈ rs
    → sum_of (part_of g r) (all_ids rs os) ≡ attributed g r
of_receipt g rs os r m = elim (Option-cases (lookup "work_id" r.attributes)) [
  | inl e ↦ sum_of-none g r (all_ids rs os) e ∙ sym (attributed-none g r e)
  | inr (k, e) ↦
      once_part g r k (all_ids rs os) e (counted_once rs os r k m e) ∙ sym (attributed-some g r k e)
]

sum_of-cong :
    (f g : String → ℕ) (ws : List String) → ((w : String) → f w ≡ g w) → sum_of f ws ≡ sum_of g ws
unfolding sum_of
sum_of-cong f g [] h = refl
sum_of-cong f g (w ∷ ws) h = omega (arith, h w, sum_of-cong f g ws h)

over_works :
    (g : InferenceReceipt → ℕ) (rs : List InferenceReceipt) (os : List WorkOutcomeRecord)
    → sum_of (λ w. sum_of g (matching_receipts_for_work w rs)) (sort_by leb_text (all_ids rs os))
      ≡ sum_of (attributed g) rs
over_works g rs os =
    sum_of-sort_by leb_text (λ w. sum_of g (matching_receipts_for_work w rs)) (all_ids rs os)
    ∙ sum_of-cong (λ w. sum_of g (matching_receipts_for_work w rs))
        (λ w. sum_of (λ r. part_of g r w) rs) (all_ids rs os) (λ w. matching_sum g w rs)
    ∙ swap_sums g (all_ids rs os) rs
    ∙ sum_of_on (λ r. sum_of (part_of g r) (all_ids rs os)) (attributed g) rs (of_receipt g rs os)

matching_again :
    (w : String) (rs : List InferenceReceipt)
    → matching_receipts_for_work w (matching_receipts_for_work w rs)
      ≡ matching_receipts_for_work w rs
unfolding matching_receipts_for_work
matching_again w [] = refl
matching_again w (r ∷ rs) = ground (arith, matching_again w rs)

no_real_cost :
    (rs : List InferenceReceipt)
    → sum_of (real_part (λ r. 1)) rs ≡ 0
    → sum_of (real_part cost_of) rs ≡ 0
unfolding sum_of
no_real_cost [] h = refl
no_real_cost (r ∷ rs) h = ground (arith, h, no_real_cost rs)

length_sum : (rs : List InferenceReceipt) → length rs ≡ sum_of (λ r. 1) rs
unfolding sum_of
length_sum [] = refl
length_sum (r ∷ rs) = omega (arith, length_sum rs)

abbrev pub known_in : WorkSummary → ℕ
known_in s = or_zero s.known_attributed_inference_cost_usd

abbrev in_summary : (WorkSummary → ℕ) → Option WorkSummary → ℕ
in_summary f none = 0
in_summary f (some s) = f s

summary_known :
    (w : String) (ms : List InferenceReceipt) (os : List WorkOutcomeRecord)
    → known_in (summary_of w ms os) ≡ sum_of (real_part cost_of) ms
unfolding summary_of
summary_known w ms os = ground (arith, summarize_totals ms, real_count_total ms, no_real_cost ms)

if_known :
    (w : String) (ms : List InferenceReceipt) (os : List WorkOutcomeRecord)
    → in_summary known_in (summary_if w ms os) ≡ sum_of (real_part cost_of) ms
unfolding sum_of
if_known w [] [] = refl
if_known w (m ∷ ms) os = summary_known w (m ∷ ms) os
if_known w [] (o ∷ os) = summary_known w [] (o ∷ os)

if_counted :
    (w : String) (ms : List InferenceReceipt) (os : List WorkOutcomeRecord)
    → in_summary (λ s. s.receipt_count) (summary_if w ms os) ≡ sum_of (λ r. 1) ms
unfolding sum_of summary_of
if_counted w [] [] = refl
if_counted w (m ∷ ms) os = length_sum (m ∷ ms)
if_counted w [] (o ∷ os) = refl

-- Summaries measured by `f` are their works' receipts measured by `g`.
for_works :
    (f : WorkSummary → ℕ) (g : InferenceReceipt → ℕ)
    → ((w : String) (ms : List InferenceReceipt) (os : List WorkOutcomeRecord)
        → in_summary f (summary_if w ms os) ≡ sum_of g ms)
    → (rs : List InferenceReceipt) (os : List WorkOutcomeRecord) (ws : List String)
    → sum_of f (summaries_for rs os ws)
      ≡ sum_of (λ w. sum_of g (matching_receipts_for_work w rs)) ws
unfolding sum_of summaries_for build_work_summary
for_works f g h rs os [] = refl
for_works f g h rs os (w ∷ ws) =
    let mine = matching_receipts_for_work w rs in
    let declared = filter (λ (o : WorkOutcomeRecord). same_text o.work_id w) os in
    let built = summary_if w (matching_receipts_for_work w mine) declared in
    omega (
      arith,
      sum_add f built (summaries_for rs os ws),
      h w (matching_receipts_for_work w mine) declared,
      ap (λ z. sum_of g z) (matching_again w rs),
      for_works f g h rs os ws,
    )
  where
    sum_add :
        (f : WorkSummary → ℕ) (o : Option WorkSummary) (ss : List WorkSummary)
        → sum_of f (add_summary o ss) ≡ in_summary f o + sum_of f ss
    sum_add f none ss = omega arith
    sum_add f (some s) ss = refl

-- Over all summaries, the known costs add up to the real costs of the receipts that name a work, and
-- the receipt counts to the number of such receipts: none is left out or counted under two works.
pub works_add_up :
    (rs : List InferenceReceipt) (os : List WorkOutcomeRecord)
    → (sum_of known_in (aggregate_work_summaries rs os)
        ≡ sum_of (attributed (real_part cost_of)) rs)
      × (sum_of (λ s. s.receipt_count) (aggregate_work_summaries rs os)
          ≡ sum_of (attributed (λ r. 1)) rs)
unfolding aggregate_work_summaries
works_add_up rs os =
    let ids = sort_by leb_text (all_ids rs os) in
    (
      for_works known_in (real_part cost_of) if_known rs os ids
          ∙ over_works (real_part cost_of) rs os,
      for_works (λ s. s.receipt_count) (λ r. 1) if_counted rs os ids ∙ over_works (λ r. 1) rs os,
    )
