-- ===== src/Work/Ids.antt =====
-- The set of works of src/inferrail/work/builder.py has each work once.
use inferrail.Common.{
  ℕ, ◌≤◌, ◌≡◌, refl, ap, true, false, String, List, [], ◌∷◌, Option, none, some, any, if◌then◌else◌,
  same_text, same_text_iff, arith,
}
use inferrail.Common.Dict.{lookup}
use inferrail.Common.Sorting.{sum_of}
use inferrail.Common.Membership.{◌∈◌, here, there}
use inferrail.Receipts.Schema.{InferenceReceipt}
use inferrail.Work.{WorkOutcomeRecord, add_id, add_id?, work_ids_in_receipts, work_ids_in_outcomes}

abbrev pub hit : String → String → ℕ
hit k w = if same_text k w then 1 else 0

-- how often a work id stands in a list
abbrev pub count_id : String → List String → ℕ
count_id k ids = sum_of (hit k) ids

abbrev IsUnique : List String → Type 0
IsUnique ids = (k : String) → count_id k ids ≤ 1

count-absent : (k : String) (ids : List String) → any (same_text k) ids ≡ false → count_id k ids ≡ 0
unfolding sum_of
count-absent k [] h = refl
count-absent k (w ∷ ids) h = ground (arith, h, count-absent k ids)

count-present : (k : String) (ids : List String) → any (same_text k) ids ≡ true → 1 ≤ count_id k ids
unfolding sum_of
count-present k [] h = absurd (ground (arith, h))
count-present k (w ∷ ids) h = ground (arith, h, count-present k ids)

count-add_id :
    (k w : String) (ids : List String)
    → IsUnique ids
    → count_id k (add_id w ids) ≡ (if same_text k w then 1 else count_id k ids)
unfolding add_id sum_of
count-add_id k w ids u = ground (
  arith,
  u k,
  u w,
  same_text_iff k w,
  count-absent w ids,
  count-present w ids,
  λ (q : same_text k w ≡ true). ap (λ z. count_id z ids) ((same_text_iff k w).0 q),
)

add_id-IsUnique : (w : String) (ids : List String) → IsUnique ids → IsUnique (add_id w ids)
add_id-IsUnique w ids u k = ground (arith, u k, count-add_id k w ids u)

outcomes-IsUnique : (os : List WorkOutcomeRecord) → IsUnique (work_ids_in_outcomes os)
unfolding work_ids_in_outcomes sum_of
outcomes-IsUnique [] k = omega arith
outcomes-IsUnique (o ∷ os) k =
    add_id-IsUnique o.work_id (work_ids_in_outcomes os) (outcomes-IsUnique os) k

add_id?-IsUnique : (o : Option String) (ids : List String) → IsUnique ids → IsUnique (add_id? o ids)
add_id?-IsUnique none ids u = u
add_id?-IsUnique (some w) ids u = add_id-IsUnique w ids u

receipts-IsUnique :
    (rs : List InferenceReceipt) (ids : List String)
    → IsUnique ids
    → IsUnique (work_ids_in_receipts rs ids)
unfolding work_ids_in_receipts
receipts-IsUnique [] ids u = u
receipts-IsUnique (r ∷ rs) ids u =
    add_id?-IsUnique (lookup "work_id" r.attributes) (work_ids_in_receipts rs ids)
      (receipts-IsUnique rs ids u)

added :
    (k : String) (o : Option String) (ids : List String)
    → IsUnique ids
    → o ≡ some k
    → count_id k (add_id? o ids) ≡ 1
added k none ids u h = absurd (ground (arith, h))
added k (some w) ids u h = ground (arith, h, count-add_id k w ids u, same_text_iff k w)

kept :
    (k : String) (o : Option String) (ids : List String)
    → IsUnique ids
    → count_id k ids ≡ 1
    → count_id k (add_id? o ids) ≡ 1
kept k none ids u h = h
kept k (some w) ids u h = ground (arith, h, count-add_id k w ids u)

-- The work of each receipt is in the set once.
pub counted_once :
    (rs : List InferenceReceipt) (os : List WorkOutcomeRecord) (r : InferenceReceipt) (k : String)
    → r ∈ rs
    → lookup "work_id" r.attributes ≡ some k
    → count_id k (work_ids_in_receipts rs (work_ids_in_outcomes os)) ≡ 1
unfolding work_ids_in_receipts
counted_once [] os r k m h = elim m [ ]
counted_once (_ ∷ _) os r k (here _ rs) h =
    added k (lookup "work_id" r.attributes) (work_ids_in_receipts rs (work_ids_in_outcomes os))
      (receipts-IsUnique rs (work_ids_in_outcomes os) (outcomes-IsUnique os)) h
counted_once (_ ∷ _) os r k (there _ x rs m) h =
    kept k (lookup "work_id" x.attributes) (work_ids_in_receipts rs (work_ids_in_outcomes os))
      (receipts-IsUnique rs (work_ids_in_outcomes os) (outcomes-IsUnique os))
      (counted_once rs os r k m h)
