-- ===== src/WorkEconomics/Repeats.antt =====
-- A purchase invoked again: hosted/work_economics/service.py.
use inferrail.Common.{
  ℕ, ◌≡◌, refl, sym, ap, ◌∙◌, Bool, true, false, String, List, Option, none, some, same_text_iff,
  arith, Option-cases,
}
use inferrail.Common.Json.{text, get_field}
use inferrail.WorkEconomics.Store.{
  Purchase, PurchaseStatus, quoted, payment_verified, executed, Answer, answers, key_error,
  permission_error, compute_raised, fetch, update_purchase, deliver, record_payment, execute_once,
  execute_if_found, execute_row, pay_if_found,
}
use inferrail.WorkEconomics.Lifecycle.{fetch-update}
use inferrail.WorkEconomics.Sales.{serve}
use inferrail.WorkEconomics.Service.{
  Outside, Delivery, Invocation, replied, code_of, reply, execute_paid, quoted_table, compute,
  invoke_quoted, invoke_for, or_json, or_unknown,
}
use inferrail.WorkEconomics.Deliveries.{
  Table, Delivered, shows-Delivered, shown-Delivered, serve_shows,
}

paid_again :
    (id ref : String) (at : ℕ) (ps : Table) (p : Purchase Delivery) (o : Option (Purchase Delivery))
    → o ≡ some p
    → p.status ≡ executed
    → pay_if_found id ref at ps o ≡ (answers p false, ps)
paid_again id ref at ps p o h s = ground (arith, h, s)

executed_again :
    (id : String) (computed : Option Delivery) (at : ℕ) (ps : Table) (p : Purchase Delivery)
    (o : Option (Purchase Delivery))
    → o ≡ some p
    → p.status ≡ executed
    → execute_if_found id computed at ps o ≡ (answers p false, ps)
executed_again id computed at ps p o h s = ground (arith, h, s)

quoted_again :
    (w : Option String) (id : String) (at : ℕ) (ps : Table) (p : Purchase Delivery)
    (o : Option (Purchase Delivery))
    → o ≡ some p
    → quoted_table w id at ps o ≡ some ps
quoted_again w id at ps p o h = ground (arith, h)

replied_again :
    (p : Purchase Delivery) (d : Delivery)
    → p.delivery ≡ some d
    → reply false (answers p false) ≡ replied (code_of d) d false false
replied_again p d e = ground (arith, e)

of_reply :
    (charged b f e : Bool) (p : Purchase Delivery) (c : ℕ) (d : Delivery)
    → reply charged (answers p e) ≡ replied c d b f
    → (p.delivery ≡ some d) × (c ≡ code_of d)
of_reply charged b f e p c d h = ground (arith, h, Option-cases p.delivery)

row_delivers :
    (id : String) (computed : Option Delivery) (at : ℕ) (ps : Table) (p : Purchase Delivery)
    (charged : Bool) (c : ℕ) (d : Delivery) (b f : Bool) (s : PurchaseStatus)
    → p.status ≡ s
    → fetch id ps ≡ some p
    → reply charged (execute_row id computed at ps p s).0 ≡ replied c d b f
    → Delivered id d (execute_row id computed at ps p s).1 × (c ≡ code_of d)
row_delivers id computed at ps p charged c d b f quoted q h r = absurd (ground (arith, r))
row_delivers id computed at ps p charged c d b f executed q h r =
    let (delivery, code) = of_reply charged b f false p c d r in ((p, h, q, delivery), code)
row_delivers id none at ps p charged c d b f payment_verified q h r = absurd (ground (arith, r))
row_delivers id (some x) at ps p charged c d b f payment_verified q h r =
    let (delivery, code) = of_reply charged b f true (deliver x at p) c d r in
    ((deliver x at p, found, refl, delivery), code)
  where
    found : fetch id (update_purchase id (deliver x at) ps) ≡ some (deliver x at p)
    found =
        fetch-update id (deliver x at) ps id (λ y. refl) ∙ ground (arith, h, same_text_iff id id)

invoked_again :
    (o : Outside) (id : String) (v : Invocation) (ps : Table) (d : Delivery)
    → Delivered id d ps
    → invoke_for o id v ps ≡ (replied (code_of d) d false false, ps)
unfolding invoke_for invoke_quoted execute_paid record_payment execute_once
invoked_again o id v ps d (p, f, s, e) =
    let w = o.bind_text (or_json (text "unknown") (get_field "work_id" v.body)) in
    let ref = or_unknown v.payment_ref in
    let computed = compute o id v.body in
    ap (λ z. invoke_quoted o id v ps z) (quoted_again w id v.at ps p (fetch id ps) f)
    ∙ ap (λ z. execute_paid computed id v.at z) (paid_again id ref v.at ps p (fetch id ps) f s)
    ∙ ap (λ z. (reply false z.0, z.1)) (executed_again id computed v.at ps p (fetch id ps) f s)
    ∙ ap (λ z. (z, ps)) (replied_again p d e)

-- What a reply leaves on record.
execute_delivers :
    (id : String) (computed : Option Delivery) (at : ℕ) (ps : Table)
    (o : Option (Purchase Delivery)) (charged : Bool) (c : ℕ) (d : Delivery) (b f : Bool)
    → fetch id ps ≡ o
    → reply charged (execute_if_found id computed at ps o).0 ≡ replied c d b f
    → Delivered id d (execute_if_found id computed at ps o).1 × (c ≡ code_of d)
execute_delivers id computed at ps none charged c d b f h r = absurd (ground (arith, r))
execute_delivers id computed at ps (some p) charged c d b f h r =
    row_delivers id computed at ps p charged c d b f p.status refl h r

execute_paid_delivers :
    (computed : Option Delivery) (id : String) (at : ℕ) (r : Answer Delivery × Table) (c : ℕ)
    (d : Delivery) (b f : Bool)
    → (execute_paid computed id at r).0 ≡ replied c d b f
    → Delivered id d (execute_paid computed id at r).1 × (c ≡ code_of d)
unfolding execute_paid execute_once
execute_paid_delivers computed id at (answers p charged, ps) c d b f h =
    execute_delivers id computed at ps (fetch id ps) charged c d b f refl h
execute_paid_delivers computed id at (key_error, ps) c d b f h = absurd (ground (arith, h))
execute_paid_delivers computed id at (permission_error, ps) c d b f h = absurd (ground (arith, h))
execute_paid_delivers computed id at (compute_raised, ps) c d b f h = absurd (ground (arith, h))

quoted_delivers :
    (o : Outside) (id : String) (v : Invocation) (ps : Table) (t : Option Table) (c : ℕ)
    (d : Delivery) (b f : Bool)
    → (invoke_quoted o id v ps t).0 ≡ replied c d b f
    → Delivered id d (invoke_quoted o id v ps t).1 × (c ≡ code_of d)
unfolding invoke_quoted
quoted_delivers o id v ps none c d b f h = absurd (ground (arith, h))
quoted_delivers o id v ps (some qs) c d b f h =
    execute_paid_delivers (compute o id v.body) id v.at
      (record_payment id (or_unknown v.payment_ref) v.at qs) c d b f h

-- Once an invocation has been answered with a delivery, and whatever invocations are served then, of
-- this purchase and of others: one more with its purchase id, with any body and payment, gets the
-- same delivery and code, is neither newly charged nor newly executed, and changes nothing.
pub invoke_repeats :
    (o : Outside) (id : String) (v : Invocation) (ps : Table) (c : ℕ) (d : Delivery) (b f : Bool)
    → (invoke_for o id v ps).0 ≡ replied c d b f
    → (vs : List Invocation) (v' : Invocation)
    → let qs = serve o vs (invoke_for o id v ps).1 in
      invoke_for o id v' qs ≡ (replied c d false false, qs)
unfolding invoke_for
invoke_repeats o id v ps c d b f h vs v' =
    let t =
      quoted_table (o.bind_text (or_json (text "unknown") (get_field "work_id" v.body))) id v.at ps
        (fetch id ps) in
    let (on_record, code) = quoted_delivers o id v ps t c d b f h in
    let after = (invoke_quoted o id v ps t).1 in
    let qs = serve o vs after in
    let shown = serve_shows id d o vs after (shows-Delivered id d after on_record) in
    invoked_again o id v' qs d (shown-Delivered id d qs shown)
    ∙ ap (λ z. (replied z d false false, qs)) (sym code)
