-- ===== src/WorkEconomics/Lifecycle.antt =====
-- What the store of hosted/work_economics/store.py promises of a purchase, without its rows and times.
use inferrail.Common.{
  ℕ, ◌≡◌, refl, ap, subst, Bool, true, false, String, List, [], ◌∷◌, Option, none, some,
  if◌then◌else◌, same_text, same_text_iff, arith, Option-cases,
}
use inferrail.WorkEconomics.Store.{
  Quote, Purchase, PurchaseStatus, quoted, payment_verified, executed, fetch, insert_purchase,
  update_purchase, new_purchase, quote_if_new, create_quote, pay, pay_if_found, record_payment,
  deliver, execute_if_found, execute_once,
}

-- A purchase comes to be with its quote, is paid once and delivered once.
pub data Lifecycle (D : Type 0) : Type 0 where
  absent : Lifecycle D
  awaiting_payment : Quote → Lifecycle D
  paid : Quote → Option String → Lifecycle D
  delivered : Quote → Option String → Option D → Lifecycle D

abbrev or_else : {A : Type 0} → Option A → Option A → Option A
or_else none b = b
or_else (some a) b = some a

abbrev on_some : {A : Type 0} → (A → A) → Option A → Option A
on_some f none = none
on_some f (some a) = some (f a)

module _ {D : Type 0} where
  abbrev pub quote_spec : Quote → Lifecycle D → Lifecycle D
  quote_spec q absent = awaiting_payment q
  quote_spec q l = l

  abbrev pub pay_spec : String → Lifecycle D → Lifecycle D
  pay_spec ref (awaiting_payment q) = paid q (some ref)
  pay_spec ref l = l

  abbrev pub deliver_spec : Option D → Lifecycle D → Lifecycle D
  deliver_spec (some d) (paid q ref) = delivered q ref (some d)
  deliver_spec _ l = l

  abbrev pub lifecycle_at : Purchase D → PurchaseStatus → Lifecycle D
  lifecycle_at p quoted = awaiting_payment p.quote
  lifecycle_at p payment_verified = paid p.quote p.payment_proof_ref
  lifecycle_at p executed = delivered p.quote p.payment_proof_ref p.delivery

  abbrev pub lifecycle_of : Option (Purchase D) → Lifecycle D
  lifecycle_of none = absent
  lifecycle_of (some p) = lifecycle_at p p.status

  -- the abstract view of a table
  unfoldable pub view : List (Purchase D) → String → Lifecycle D
  unfolding fetch
  view ps id = lifecycle_of (fetch id ps)

  -- a change at one purchase only
  abbrev pub at_only :
      String → (Lifecycle D → Lifecycle D) → (String → Lifecycle D) → String → Lifecycle D
  at_only id f v j = if same_text id j then f (v j) else v j

  fetch-insert :
      (p : Purchase D) (ps : List (Purchase D)) (j : String)
      → fetch j (insert_purchase p ps)
        ≡ or_else (fetch j ps) (if same_text p.purchase_id j then some p else none)
  unfolding fetch
  fetch-insert p [] j = refl
  fetch-insert p (q ∷ qs) j = ground (arith, fetch-insert p qs j)

  -- one row of an updated table, by the tests that are made of it
  row_step :
      (f : Purchase D → Purchase D) (key : Purchase D → Bool) (a c b : Bool) (p : Purchase D)
      (rest old : Option (Purchase D))
      → key (f p) ≡ b
      → key p ≡ b
      → (a ≡ true → c ≡ b)
      → (a ≡ false → c ≡ true → b ≡ false)
      → rest ≡ (if c then on_some f old else old)
      → (if key (if a then f p else p) then some (if a then f p else p) else rest)
        ≡ (if c then on_some f (if key p then some p else old) else if key p then some p else old)
  row_step f key true c b p rest old kf kp h g r = rw (kf, kp, h refl, r) (ground arith)
  row_step f key false c b p rest old kf kp h g r = rw (kp, r) (ground (arith, g refl))

  pub fetch-update :
      (id : String) (f : Purchase D → Purchase D) (ps : List (Purchase D)) (j : String)
      → ((p : Purchase D) → (f p).purchase_id ≡ p.purchase_id)
      → fetch j (update_purchase id f ps)
        ≡ (if same_text id j then on_some f (fetch j ps) else fetch j ps)
  unfolding fetch update_purchase
  fetch-update id f [] j h = ground arith
  fetch-update id f (p ∷ ps) j h =
      row_step f (λ q. same_text q.purchase_id j) (same_text p.purchase_id id) (same_text id j)
        (same_text p.purchase_id j) p (fetch j (update_purchase id f ps)) (fetch j ps)
        (ap (λ z. same_text z j) (h p)) refl
        (ground (
          arith,
          same_text_iff p.purchase_id id,
          same_text_iff id j,
          same_text_iff p.purchase_id j,
        ))
        (ground (
          arith,
          same_text_iff p.purchase_id id,
          same_text_iff id j,
          same_text_iff p.purchase_id j,
        ))
        (fetch-update id f ps j h)

  fetch_same :
      (id j : String) (ps : List (Purchase D)) (o : Option (Purchase D))
      → fetch id ps ≡ o
      → same_text id j ≡ true
      → fetch j ps ≡ o
  fetch_same id j ps o h q = subst (λ z. fetch z ps ≡ o) ((same_text_iff id j).0 q) h

  quote_at :
      (id : String) (q : Quote) (at : ℕ) (ps : List (Purchase D)) (j : String)
      (o : Option (Purchase D))
      → fetch id ps ≡ o
      → view (quote_if_new id q at ps o) j ≡ at_only id (quote_spec q) (view ps) j
  unfolding view
  quote_at id q at ps j (some p) h = ground (arith, fetch_same id j ps (some p) h)
  quote_at id q at ps j none h =
      ground (arith, fetch_same id j ps none h, fetch-insert (new_purchase id q at) ps j)

  pay_at :
      (id ref : String) (at : ℕ) (ps : List (Purchase D)) (j : String) (o : Option (Purchase D))
      → fetch id ps ≡ o
      → view (pay_if_found id ref at ps o).1 j ≡ at_only id (pay_spec ref) (view ps) j
  unfolding view
  pay_at id ref at ps j none h = ground (arith, fetch_same id j ps none h)
  pay_at id ref at ps j (some p) h =
      ground (arith, fetch_same id j ps (some p) h, fetch-update id (pay ref at) ps j (λ x. refl))

  execute_at :
      (id : String) (computed : Option D) (at : ℕ) (ps : List (Purchase D)) (j : String)
      (o : Option (Purchase D))
      → fetch id ps ≡ o
      → view (execute_if_found id computed at ps o).1 j
        ≡ at_only id (deliver_spec computed) (view ps) j
  unfolding view
  execute_at id computed at ps j none h =
      ground (arith, fetch_same id j ps none h, Option-cases computed)
  execute_at id none at ps j (some p) h = ground (arith, fetch_same id j ps (some p) h)
  execute_at id (some d) at ps j (some p) h =
      ground (arith, fetch_same id j ps (some p) h, fetch-update id (deliver d at) ps j (λ x. refl))

  pub quote_refines :
      (id : String) (q : Quote) (at : ℕ) (ps : List (Purchase D)) (j : String)
      → view (create_quote id q at ps) j ≡ at_only id (quote_spec q) (view ps) j
  unfolding create_quote
  quote_refines id q at ps j = quote_at id q at ps j (fetch id ps) refl

  pub pay_refines :
      (id ref : String) (at : ℕ) (ps : List (Purchase D)) (j : String)
      → view (record_payment id ref at ps).1 j ≡ at_only id (pay_spec ref) (view ps) j
  unfolding record_payment
  pay_refines id ref at ps j = pay_at id ref at ps j (fetch id ps) refl

  pub execute_refines :
      (id : String) (computed : Option D) (at : ℕ) (ps : List (Purchase D)) (j : String)
      → view (execute_once id computed at ps).1 j ≡ at_only id (deliver_spec computed) (view ps) j
  unfolding execute_once
  execute_refines id computed at ps j = execute_at id computed at ps j (fetch id ps) refl

  -- The store refines the lifecycle: under the view of a table that forgets rows and times, quoting,
  -- paying and executing do to their own purchase what the lifecycle says, and leave every other
  -- purchase as it was, whatever the table holds.
  pub store_refines :
      (id : String) (q : Quote) (ref : String) (computed : Option D) (at : ℕ)
      (ps : List (Purchase D)) (j : String)
      → (view (create_quote id q at ps) j ≡ at_only id (quote_spec q) (view ps) j)
        × (view (record_payment id ref at ps).1 j ≡ at_only id (pay_spec ref) (view ps) j)
        × (view (execute_once id computed at ps).1 j
            ≡ at_only id (deliver_spec computed) (view ps) j)
  store_refines id q ref computed at ps j =
      (quote_refines id q at ps j, pay_refines id ref at ps j, execute_refines id computed at ps j)
