-- ===== src/WorkEconomics/Sales.antt =====
-- A purchase is charged and executed once: hosted/work_economics/service.py over any invocations.
use inferrail.Common.{
  ℕ, ◌+◌, ◌≤◌, ◌≡◌, refl, Bool, String, List, [], ◌∷◌, Option, none, some, if◌then◌else◌, arith,
}
use inferrail.Common.Json.{text, get_field}
use inferrail.WorkEconomics.Store.{
  Purchase, Answer, answers, key_error, permission_error, compute_raised, fetch, record_payment,
  execute_once,
}
use inferrail.WorkEconomics.Lifecycle.{Lifecycle, view, quote_refines}
use inferrail.WorkEconomics.Service.{
  Outside, Delivery, Invocation, Response, replied, reply, execute_paid, quote_for, quoted_table,
  compute, invoke_quoted, invoke_for, invoke_with, invoke, or_unknown, or_json,
}
use inferrail.WorkEconomics.Counting.{
  Table, is_charged, is_executed, flag_of, for_id, pay_counts, execute_counts,
}

abbrev charged_in : Response → ℕ
charged_in (replied _ _ charged _) = if charged then 1 else 0
charged_in _ = 0

abbrev executed_in : Response → ℕ
executed_in (replied _ _ _ delivers) = if delivers then 1 else 0
executed_in _ = 0

reply_flags :
    (charged : Bool) (a : Answer Delivery)
    → (charged_in (reply charged a) ≤ (if charged then 1 else 0))
      × (executed_in (reply charged a) ≤ flag_of a)
reply_flags charged a = ground arith

-- Over one invocation the answers say that a purchase is charged or executed no more often than its
-- lifecycle gets there.
abbrev Counts : String → String → Table → Response × Table → Type 0
Counts id j ps r =
    (for_id id j (charged_in r.0) + is_charged (view ps j) ≤ is_charged (view r.1 j))
    × (for_id id j (executed_in r.0) + is_executed (view ps j) ≤ is_executed (view r.1 j))

execute_paid-Counts :
    (computed : Option Delivery) (id j : String) (at : ℕ) (ps : Table) (r : Answer Delivery × Table)
    → for_id id j (flag_of r.0) + is_charged (view ps j) ≤ is_charged (view r.1 j)
    → is_executed (view ps j) ≤ is_executed (view r.1 j)
    → Counts id j ps (execute_paid computed id at r)
unfolding execute_paid
execute_paid-Counts computed id j at ps (answers p charged, qs) h k =
    let (executes, keeps) = execute_counts id j computed at qs in
    let flags = reply_flags charged (execute_once id computed at qs).0 in
    ground (arith, h, k, executes, keeps, flags)
execute_paid-Counts computed id j at ps (key_error, qs) h k = ground (arith, h, k)
execute_paid-Counts computed id j at ps (permission_error, qs) h k = ground (arith, h, k)
execute_paid-Counts computed id j at ps (compute_raised, qs) h k = ground (arith, h, k)

quoted_counts :
    (w : Option String) (id j : String) (at : ℕ) (ps : Table) (o : Option (Purchase Delivery))
    (qs : Table)
    → quoted_table w id at ps o ≡ some qs
    → (is_charged (view ps j) ≤ is_charged (view qs j))
      × (is_executed (view ps j) ≤ is_executed (view qs j))
quoted_counts w id j at ps (some p) qs h = ground (arith, h)
quoted_counts none id j at ps none qs h = absurd (ground (arith, h))
quoted_counts (some w) id j at ps none qs h =
    ground (arith, h, quote_refines id (quote_for w) at ps j)

invoke_quoted-Counts :
    (o : Outside) (id j : String) (v : Invocation) (ps : Table) (t : Option Table)
    → ((qs : Table)
        → t ≡ some qs
        → (is_charged (view ps j) ≤ is_charged (view qs j))
          × (is_executed (view ps j) ≤ is_executed (view qs j)))
    → Counts id j ps (invoke_quoted o id v ps t)
unfolding invoke_quoted
invoke_quoted-Counts o id j v ps none h = ground arith
invoke_quoted-Counts o id j v ps (some qs) h =
    let (charges, executes) = h qs refl in
    let (pays, keeps) = pay_counts id (or_unknown v.payment_ref) j v.at qs in
    execute_paid-Counts (compute o id v.body) id j v.at ps
      (record_payment id (or_unknown v.payment_ref) v.at qs) (omega (arith, charges, pays))
      (omega (arith, executes, keeps))

-- what an answer says of a purchase
abbrev says : Option String → String → ℕ → ℕ
says none j n = 0
says (some id) j n = for_id id j n

invoke_with_counts :
    (o : Outside) (v : Invocation) (j : String) (ps : Table) (id : Option String)
    → let r = invoke_with o v ps id in
      (says id j (charged_in r.0) + is_charged (view ps j) ≤ is_charged (view r.1 j))
      × (says id j (executed_in r.0) + is_executed (view ps j) ≤ is_executed (view r.1 j))
unfolding invoke_for
invoke_with_counts o v j ps none = ground arith
invoke_with_counts o v j ps (some id) =
    let counts =
      invoke_quoted-Counts o id j v ps
        (quoted_table (o.bind_text (or_json (text "unknown") (get_field "work_id" v.body))) id v.at
          ps (fetch id ps))
        (λ qs h.
          quoted_counts (o.bind_text (or_json (text "unknown") (get_field "work_id" v.body))) id j
            v.at ps (fetch id ps) qs h) in
    ground (arith, counts)

invoke_counts :
    (o : Outside) (v : Invocation) (j : String) (ps : Table)
    → let r = invoke o v ps in
      (says v.purchase_id j (charged_in r.0) + is_charged (view ps j) ≤ is_charged (view r.1 j))
      × (says v.purchase_id j (executed_in r.0) + is_executed (view ps j)
          ≤ is_executed (view r.1 j))
unfolding invoke
invoke_counts o v j ps = invoke_with_counts o v j ps v.purchase_id

-- a table after a list of invocations, and how many answers said so of a purchase
unfoldable pub serve : Outside → List Invocation → Table → Table
unfolding invoke
serve o [] ps = ps
serve o (v ∷ vs) ps = serve o vs (invoke o v ps).1

unfoldable pub times_charged : Outside → String → List Invocation → Table → ℕ
unfolding invoke
times_charged o j [] ps = 0
times_charged o j (v ∷ vs) ps =
    says v.purchase_id j (charged_in (invoke o v ps).0) + times_charged o j vs (invoke o v ps).1

unfoldable pub times_executed : Outside → String → List Invocation → Table → ℕ
unfolding invoke
times_executed o j [] ps = 0
times_executed o j (v ∷ vs) ps =
    says v.purchase_id j (executed_in (invoke o v ps).0) + times_executed o j vs (invoke o v ps).1

serve_counts :
    (o : Outside) (j : String) (vs : List Invocation) (ps : Table)
    → (times_charged o j vs ps + is_charged (view ps j) ≤ is_charged (view (serve o vs ps) j))
      × (times_executed o j vs ps + is_executed (view ps j) ≤ is_executed (view (serve o vs ps) j))
unfolding serve times_charged times_executed
serve_counts o j [] ps = ground arith
serve_counts o j (v ∷ vs) ps =
    let (charges, executes) = invoke_counts o v j ps in
    let (later, later') = serve_counts o j vs (invoke o v ps).1 in
    (omega (arith, charges, later), omega (arith, executes, later'))

at_most_one : (l : Lifecycle Delivery) → (is_charged l ≤ 1) × (is_executed l ≤ 1)
at_most_one l = ground arith

-- Over any invocations of the handler from any table, at most one answer says that a purchase is newly
-- charged and at most one that it is newly executed; for a purchase already paid or delivered
-- there is none of the first kind, and for a delivered one none of the second.
pub sold_once :
    (o : Outside) (j : String) (vs : List Invocation) (ps : Table)
    → (times_charged o j vs ps + is_charged (view ps j) ≤ 1)
      × (times_executed o j vs ps + is_executed (view ps j) ≤ 1)
sold_once o j vs ps =
    let (charges, executes) = serve_counts o j vs ps in
    let (one, one') = at_most_one (view (serve o vs ps) j) in
    (omega (arith, charges, one), omega (arith, executes, one'))
