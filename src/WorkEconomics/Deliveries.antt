-- ===== src/WorkEconomics/Deliveries.antt =====
-- A delivery that is on record stays so, whatever is served: hosted/work_economics/store.py and
-- service.py.
use inferrail.Common.{
  ℕ, ◌≡◌, refl, sym, ap, Bool, true, false, String, List, Option, none, some, arith, Bool-cases,
  inl, inr, subst, [], ◌∷◌, same_text, non_empty, of_some, if◌then◌else◌,
}
use inferrail.Common.Json.{text, get_field}
use inferrail.WorkEconomics.Store.{
  Quote, Purchase, PurchaseStatus, create_quote, quoted, payment_verified, executed, Answer,
  answers, key_error, permission_error, compute_raised, fetch, record_payment,
}
use inferrail.WorkEconomics.Lifecycle.{
  Lifecycle, absent, awaiting_payment, paid, delivered, view, lifecycle_of, lifecycle_at,
  quote_spec, pay_spec, deliver_spec, quote_refines, pay_refines, execute_refines,
}
use inferrail.WorkEconomics.Sales.{serve}
use inferrail.WorkEconomics.Service.{
  Outside, Delivery, Invocation, execute_paid, quoted_table, compute, invoke_quoted, invoke_for,
  invoke_with, invoke, quote_for, or_json, or_unknown,
}

abbrev pub Table : Type 0
Table = List (Purchase Delivery)

-- The purchase is on record as delivered with `d`.
abbrev pub Delivered : String → Delivery → Table → Type 0
Delivered id d ps =
    (p : Purchase Delivery) × (fetch id ps ≡ some p) × (p.status ≡ executed) × (p.delivery ≡ some d)

-- The table shows a delivery of `d`.
abbrev pub IsDelivered : Delivery → Lifecycle Delivery → Type 0
IsDelivered d (delivered _ _ (some x)) = x ≡ d
IsDelivered d _ = ⊥

pub shows-Delivered :
    (id : String) (d : Delivery) (ps : Table) → Delivered id d ps → IsDelivered d (view ps id)
unfolding view
shows-Delivered id d ps (p, f, s, e) = rw (f, s, e) refl

at_delivered :
    (d : Delivery) (p : Purchase Delivery) (s : PurchaseStatus)
    → p.status ≡ s
    → IsDelivered d (lifecycle_at p s)
    → (p.status ≡ executed) × (p.delivery ≡ some d)
at_delivered d p quoted e h = absurd h
at_delivered d p payment_verified e h = absurd h
at_delivered d p executed e h = (e, stored p.delivery h)
  where
    stored :
        (o : Option Delivery) → IsDelivered d (delivered p.quote p.payment_proof_ref o) → o ≡ some d
    stored none k = absurd k
    stored (some x) k = ap some k

of_view :
    (id : String) (d : Delivery) (ps : Table) (o : Option (Purchase Delivery))
    → fetch id ps ≡ o
    → IsDelivered d (lifecycle_of o)
    → Delivered id d ps
of_view id d ps none f h = absurd h
of_view id d ps (some p) f h = let (s, e) = at_delivered d p p.status refl h in (p, f, s, e)

pub shown-Delivered :
    (id : String) (d : Delivery) (ps : Table) → IsDelivered d (view ps id) → Delivered id d ps
unfolding view
shown-Delivered id d ps h = of_view id d ps (fetch id ps) refl h

-- Nothing that the store does takes a delivery back.
quote_keeps :
    (d : Delivery) (t : Bool) (q : Quote) (l : Lifecycle Delivery)
    → IsDelivered d l
    → IsDelivered d (if t then quote_spec q l else l)
quote_keeps d true q (delivered _ _ _) h = h
quote_keeps d true q absent h = absurd h
quote_keeps d true q (awaiting_payment _) h = absurd h
quote_keeps d true q (paid _ _) h = absurd h
quote_keeps d false q l h = h

pay_keeps :
    (d : Delivery) (t : Bool) (ref : String) (l : Lifecycle Delivery)
    → IsDelivered d l
    → IsDelivered d (if t then pay_spec ref l else l)
pay_keeps d true ref (delivered _ _ _) h = h
pay_keeps d true ref absent h = absurd h
pay_keeps d true ref (awaiting_payment _) h = absurd h
pay_keeps d true ref (paid _ _) h = absurd h
pay_keeps d false ref l h = h

deliver_keeps :
    (d : Delivery) (t : Bool) (computed : Option Delivery) (l : Lifecycle Delivery)
    → IsDelivered d l
    → IsDelivered d (if t then deliver_spec computed l else l)
deliver_keeps d true none l h = h
deliver_keeps d true (some c) (delivered _ _ _) h = h
deliver_keeps d true (some c) absent h = absurd h
deliver_keeps d true (some c) (awaiting_payment _) h = absurd h
deliver_keeps d true (some c) (paid _ _) h = absurd h
deliver_keeps d false computed l h = h

module _ (j : String) (d : Delivery) where
  abbrev pub Shown : Table → Type 0
  Shown ps = IsDelivered d (view ps j)

  paid_shows :
      (computed : Option Delivery) (id : String) (at : ℕ) (r : Answer Delivery × Table)
      → Shown r.1
      → Shown (execute_paid computed id at r).1
  unfolding execute_paid
  paid_shows computed id at (answers p charged, ps) h =
      subst (λ l. IsDelivered d l) (sym (execute_refines id computed at ps j))
        (deliver_keeps d (same_text id j) computed (view ps j) h)
  paid_shows computed id at (key_error, ps) h = h
  paid_shows computed id at (permission_error, ps) h = h
  paid_shows computed id at (compute_raised, ps) h = h

  table_shows :
      (w : Option String) (id : String) (at : ℕ) (ps qs : Table) (o : Option (Purchase Delivery))
      → quoted_table w id at ps o ≡ some qs
      → Shown ps
      → Shown qs
  table_shows w id at ps qs (some p) e h = subst Shown (of_some ps qs e) h
  table_shows none id at ps qs none e h = absurd (ground (arith, e))
  table_shows (some w) id at ps qs none e h =
      subst Shown (of_some (create_quote id (quote_for w) at ps) qs e) (
        subst (λ l. IsDelivered d l) (sym (quote_refines id (quote_for w) at ps j))
          (quote_keeps d (same_text id j) (quote_for w) (view ps j) h))

  quoted_shows :
      (o : Outside) (id : String) (v : Invocation) (ps : Table) (t : Option Table)
      → ((qs : Table) → t ≡ some qs → Shown qs)
      → Shown ps
      → Shown (invoke_quoted o id v ps t).1
  unfolding invoke_quoted
  quoted_shows o id v ps none h k = k
  quoted_shows o id v ps (some qs) h k =
      let ref = or_unknown v.payment_ref in
      paid_shows (compute o id v.body) id v.at (record_payment id ref v.at qs) (
        subst (λ l. IsDelivered d l) (sym (pay_refines id ref v.at qs j))
          (pay_keeps d (same_text id j) ref (view qs j) (h qs refl)))

  invoke_shows :
      (o : Outside) (v : Invocation) (ps : Table) (id : Option String)
      → Shown ps
      → Shown (invoke_with o v ps id).1
  unfolding invoke_for
  invoke_shows o v ps none h = h
  invoke_shows o v ps (some id) h = elim (Bool-cases (non_empty id)) [
    | inl q ↦
        let w = o.bind_text (or_json (text "unknown") (get_field "work_id" v.body)) in
        rw q (
          quoted_shows o id v ps (quoted_table w id v.at ps (fetch id ps))
            (λ qs e. table_shows w id v.at ps qs (fetch id ps) e h) h)
    | inr q ↦ rw q h
  ]

  pub serve_shows :
      (o : Outside) (vs : List Invocation) (ps : Table) → Shown ps → Shown (serve o vs ps)
  unfolding serve invoke
  serve_shows o [] ps h = h
  serve_shows o (v ∷ vs) ps h =
      serve_shows o vs (invoke o v ps).1 (invoke_shows o v ps v.purchase_id h)
