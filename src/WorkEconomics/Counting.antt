-- ===== src/WorkEconomics/Counting.antt =====
-- What one payment and one execution add to a purchase: hosted/work_economics/store.py.
use inferrail.Common.{
  ℕ, ◌+◌, ◌≤◌, ◌≡◌, refl, Bool, true, false, String, List, Option, none, some, if◌then◌else◌,
  same_text, same_text_iff, arith, Option-cases, ap, ◌∙◌,
}
use inferrail.WorkEconomics.Store.{
  Purchase, Answer, answers, fetch, record_payment, execute_once, pay_if_found, execute_if_found,
}
use inferrail.WorkEconomics.Lifecycle.{
  Lifecycle, awaiting_payment, paid, delivered, view, pay_spec, deliver_spec, pay_refines,
  execute_refines,
}
use inferrail.WorkEconomics.Service.{Delivery}

abbrev pub Table : Type 0
Table = List (Purchase Delivery)

abbrev pub is_charged : Lifecycle Delivery → ℕ
is_charged (paid _ _) = 1
is_charged (delivered _ _ _) = 1
is_charged _ = 0

abbrev pub is_executed : Lifecycle Delivery → ℕ
is_executed (delivered _ _ _) = 1
is_executed _ = 0

abbrev pub flag_of : Answer Delivery → ℕ
flag_of (answers p flag) = if flag then 1 else 0
flag_of _ = 0

-- `n` counts for a purchase only
abbrev pub for_id : String → String → ℕ → ℕ
for_id id j n = if same_text id j then n else 0

abbrev is_waiting : Lifecycle Delivery → ℕ
is_waiting (awaiting_payment _) = 1
is_waiting _ = 0

abbrev is_due : Option Delivery → Lifecycle Delivery → ℕ
is_due (some d) (paid _ _) = 1
is_due _ _ = 0

pay_flag :
    (id ref : String) (at : ℕ) (ps : Table) (o : Option (Purchase Delivery))
    → fetch id ps ≡ o
    → flag_of (pay_if_found id ref at ps o).0 ≡ is_waiting (view ps id)
unfolding view
pay_flag id ref at ps none h = ground (arith, h)
pay_flag id ref at ps (some p) h = ground (arith, h)

execute_flag :
    (id : String) (computed : Option Delivery) (at : ℕ) (ps : Table)
    (o : Option (Purchase Delivery))
    → fetch id ps ≡ o
    → flag_of (execute_if_found id computed at ps o).0 ≡ is_due computed (view ps id)
unfolding view
execute_flag id computed at ps none h = ground (arith, h, Option-cases computed)
execute_flag id computed at ps (some p) h = ground (arith, h, Option-cases computed)

-- What a payment or an execution adds, by the lifecycles before and after it.
pay_step :
    (same : Bool) (ref : String) (f : ℕ) (l m : Lifecycle Delivery)
    → (same ≡ true → f ≡ is_waiting l)
    → m ≡ (if same then pay_spec ref l else l)
    → ((if same then f else 0) + is_charged l ≤ is_charged m) × (is_executed l ≤ is_executed m)
pay_step true ref f l m h e = ground (arith, e, h refl)
pay_step false ref f l m h e = ground (arith, e)

execute_step :
    (same : Bool) (computed : Option Delivery) (f : ℕ) (l m : Lifecycle Delivery)
    → (same ≡ true → f ≡ is_due computed l)
    → m ≡ (if same then deliver_spec computed l else l)
    → ((if same then f else 0) + is_executed l ≤ is_executed m) × (is_charged l ≤ is_charged m)
execute_step true computed f l m h e = ground (arith, e, h refl, Option-cases computed)
execute_step false computed f l m h e = ground (arith, e)

view_same : (id j : String) (ps : Table) → same_text id j ≡ true → view ps id ≡ view ps j
view_same id j ps q = ap (λ z. view ps z) ((same_text_iff id j).0 q)

pub pay_counts :
    (id ref j : String) (at : ℕ) (ps : Table)
    → let r = record_payment id ref at ps in
      (for_id id j (flag_of r.0) + is_charged (view ps j) ≤ is_charged (view r.1 j))
      × (is_executed (view ps j) ≤ is_executed (view r.1 j))
unfolding record_payment
pay_counts id ref j at ps =
    pay_step (same_text id j) ref (flag_of (record_payment id ref at ps).0) (view ps j)
      (view (record_payment id ref at ps).1 j)
      (λ q. pay_flag id ref at ps (fetch id ps) refl ∙ ap is_waiting (view_same id j ps q))
      (pay_refines id ref at ps j)

pub execute_counts :
    (id j : String) (computed : Option Delivery) (at : ℕ) (ps : Table)
    → let r = execute_once id computed at ps in
      (for_id id j (flag_of r.0) + is_executed (view ps j) ≤ is_executed (view r.1 j))
      × (is_charged (view ps j) ≤ is_charged (view r.1 j))
unfolding execute_once
execute_counts id j computed at ps =
    execute_step (same_text id j) computed (flag_of (execute_once id computed at ps).0) (view ps j)
      (view (execute_once id computed at ps).1 j)
      (λ q.
        execute_flag id computed at ps (fetch id ps) refl
        ∙ ap (is_due computed) (view_same id j ps q))
      (execute_refines id computed at ps j)
