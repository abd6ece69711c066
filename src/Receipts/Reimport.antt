-- ===== src/Receipts/Reimport.antt =====
-- Importing receipts again: import_jsonl of src/inferrail/receipts/sqlite_store.py.
use inferrail.Common.{
  Bool, true, ◌||◌, ◌≡◌, refl, ap, ◌∙◌, List, [], ◌∷◌, any, arith, same_text_iff,
}
use inferrail.Common.Sums.{All}
use inferrail.Receipts.Schema.{InferenceReceipt}
use inferrail.Receipts.Store.{ReceiptsStore, append_row, has_id, emit, import_all}

abbrev Holds : ReceiptsStore → InferenceReceipt → Type 0
Holds store r = any (has_id r.receipt_id) store ≡ true

any-append_row :
    (p : InferenceReceipt → Bool) (r : InferenceReceipt) (store : ReceiptsStore)
    → any p (append_row r store) ≡ (any p store || p r)
any-append_row p r [] = ground arith
any-append_row p r (x ∷ xs) = ground (arith, any-append_row p r xs)

emit-Holds : (r : InferenceReceipt) (store : ReceiptsStore) → Holds (emit r store) r
unfolding emit has_id
emit-Holds r store =
    ground
      (arith, any-append_row (has_id r.receipt_id) r store, same_text_iff r.receipt_id r.receipt_id)

emit_keeps :
    (r x : InferenceReceipt) (store : ReceiptsStore) → Holds store x → Holds (emit r store) x
unfolding emit
emit_keeps r x store h = ground (arith, h, any-append_row (has_id x.receipt_id) r store)

import_all_keeps :
    (rs : List InferenceReceipt) (x : InferenceReceipt) (store : ReceiptsStore)
    → Holds store x
    → Holds (import_all rs store) x
unfolding import_all
import_all_keeps [] x store h = h
import_all_keeps (r ∷ rs) x store h = import_all_keeps rs x (emit r store) (emit_keeps r x store h)

import_all-Holds :
    (rs : List InferenceReceipt) (store : ReceiptsStore) → All (Holds (import_all rs store)) rs
unfolding import_all
import_all-Holds [] store = tt
import_all-Holds (r ∷ rs) store =
    (import_all_keeps rs r (emit r store) (emit-Holds r store), import_all-Holds rs (emit r store))

emit_held : (r : InferenceReceipt) (store : ReceiptsStore) → Holds store r → emit r store ≡ store
unfolding emit
emit_held r store h = ground (arith, h)

import_held :
    (rs : List InferenceReceipt) (store : ReceiptsStore)
    → All (Holds store) rs
    → import_all rs store ≡ store
unfolding import_all
import_held [] store h = refl
import_held (r ∷ rs) store h =
    ap (λ s. import_all rs s) (emit_held r store h.0) ∙ import_held rs store h.1

-- Importing the same receipts into the same store a second time changes nothing.
pub import_twice :
    (rs : List InferenceReceipt) (store : ReceiptsStore)
    → import_all rs (import_all rs store) ≡ import_all rs store
import_twice rs store = import_held rs (import_all rs store) (import_all-Holds rs store)
