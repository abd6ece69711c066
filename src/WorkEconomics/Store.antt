-- ===== src/WorkEconomics/Store.antt =====
-- Purchases by their id: DurablePurchaseStore of hosted/work_economics/store.py. Each operation is one
-- transaction; what it raises leaves the table as it was. `at` is the value of `time.time()`. The
-- delivery `D` is the pair of texts that `execute_once` stores.
use inferrail.Common.{
  ℕ, Bool, true, false, String, List, [], ◌∷◌, Option, none, some, if◌then◌else◌, same_text,
}

pub data PurchaseStatus : Type 0 where
  quoted : PurchaseStatus
  payment_verified : PurchaseStatus
  executed : PurchaseStatus

pub record Quote : Type 0 where
  pub work_id : String
  pub quoted_amount_usd : ℕ
  pub quoted_currency : String
  pub rail : String

pub record Purchase (D : Type 0) : Type 0 where
  pub purchase_id : String
  pub quote : Quote
  pub status : PurchaseStatus
  pub payment_proof_ref : Option String
  pub delivery : Option D
  pub created_at : ℕ
  pub payment_recorded_at : Option ℕ
  pub executed_at : Option ℕ

-- The row and the flag that an operation answers with, or what it raises: `key_error` and
-- `permission_error` are Python's, `compute_raised` is what `compute_fn` raised.
pub data Answer (D : Type 0) : Type 0 where
  answers : Purchase D → Bool → Answer D
  key_error : Answer D
  permission_error : Answer D
  compute_raised : Answer D

module _ {D : Type 0} where
  unfoldable pub fetch : String → List (Purchase D) → Option (Purchase D)
  unfolding same_text
  fetch id [] = none
  fetch id (p ∷ ps) = if same_text p.purchase_id id then some p else fetch id ps

  abbrev pub insert_purchase : Purchase D → List (Purchase D) → List (Purchase D)
  insert_purchase p [] = p ∷ []
  insert_purchase p (q ∷ qs) = q ∷ insert_purchase p qs

  -- `UPDATE … WHERE purchase_id = ?`
  unfoldable pub update_purchase :
      String → (Purchase D → Purchase D) → List (Purchase D) → List (Purchase D)
  unfolding same_text
  update_purchase id f [] = []
  update_purchase id f (p ∷ ps) =
      (if same_text p.purchase_id id then f p else p) ∷ update_purchase id f ps

  abbrev pub new_purchase : String → Quote → ℕ → Purchase D
  new_purchase id quote at = record {
    purchase_id = id;
    quote = quote;
    status = quoted;
    payment_proof_ref = none;
    delivery = none;
    created_at = at;
    payment_recorded_at = none;
    executed_at = none;
  }

  abbrev pub quote_if_new :
      String → Quote → ℕ → List (Purchase D) → Option (Purchase D) → List (Purchase D)
  quote_if_new id quote at ps (some existing) = ps
  quote_if_new id quote at ps none = insert_purchase (new_purchase id quote at) ps

  -- The answer of the source is the row that is in the table then.
  unfoldable pub create_quote : String → Quote → ℕ → List (Purchase D) → List (Purchase D)
  unfolding fetch
  create_quote id quote at ps = quote_if_new id quote at ps (fetch id ps)

  abbrev pub pay : String → ℕ → Purchase D → Purchase D
  pay ref at p = record p {
    status = payment_verified;
    payment_proof_ref = some ref;
    payment_recorded_at = some at;
  }

  abbrev pub pay_row :
      String
      → String
      → ℕ
      → List (Purchase D)
      → Purchase D
      → PurchaseStatus
      → Answer D × List (Purchase D)
  pay_row id ref at ps p quoted = (answers (pay ref at p) true, update_purchase id (pay ref at) ps)
  pay_row id ref at ps p _ = (answers p false, ps)

  abbrev pub pay_if_found :
      String → String → ℕ → List (Purchase D) → Option (Purchase D) → Answer D × List (Purchase D)
  pay_if_found id ref at ps none = (key_error, ps)
  pay_if_found id ref at ps (some p) = pay_row id ref at ps p p.status

  unfoldable pub record_payment :
      String → String → ℕ → List (Purchase D) → Answer D × List (Purchase D)
  unfolding fetch update_purchase
  record_payment id ref at ps = pay_if_found id ref at ps (fetch id ps)

  abbrev pub deliver : D → ℕ → Purchase D → Purchase D
  deliver d at p = record p { status = executed; delivery = some d; executed_at = some at }

  abbrev pub deliver_computed :
      String → Option D → ℕ → List (Purchase D) → Purchase D → Answer D × List (Purchase D)
  deliver_computed id none at ps p = (compute_raised, ps)
  deliver_computed id (some d) at ps p =
      (answers (deliver d at p) true, update_purchase id (deliver d at) ps)

  abbrev pub execute_row :
      String
      → Option D
      → ℕ
      → List (Purchase D)
      → Purchase D
      → PurchaseStatus
      → Answer D × List (Purchase D)
  execute_row id computed at ps p quoted = (permission_error, ps)
  execute_row id computed at ps p payment_verified = deliver_computed id computed at ps p
  execute_row id computed at ps p executed = (answers p false, ps)

  abbrev pub execute_if_found :
      String → Option D → ℕ → List (Purchase D) → Option (Purchase D) → Answer D × List (Purchase D)
  execute_if_found id computed at ps none = (key_error, ps)
  execute_if_found id computed at ps (some p) = execute_row id computed at ps p p.status

  -- `computed` is what `compute_fn` would answer, `none` where it raises; it is used only by the
  -- call that delivers.
  unfoldable pub execute_once :
      String → Option D → ℕ → List (Purchase D) → Answer D × List (Purchase D)
  unfolding fetch update_purchase
  execute_once id computed at ps = execute_if_found id computed at ps (fetch id ps)
