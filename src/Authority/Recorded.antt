-- ===== src/Authority/Recorded.antt =====
-- An accepted call of hosted/a2a_economic_authority/core.py leaves its event in the table.
use inferrail.Common.{
  ℕ, ◌≡◌, ◌↔◌, ◌∙◌, refl, String, Bool, true, Option, none, some, inl, inr, arith, is_some,
  same_text_iff, Option-cases,
}
use inferrail.Common.Int.{ℤ, eqb_ℤ_iff}
use inferrail.Authority.State.{
  DelegationState, Delegations, Ledger, find, update, find_event, Payload, consumption,
  authority_grant, settlement, same_payload, same_amount?,
}
use inferrail.Authority.Events.{Result, ok, unless_seen, check_event, record_event}
use inferrail.Authority.Invariant.Forest.{known-update}
use inferrail.Authority.Spending.{
  add_unknown, add_consumed, add_authority, consume_fresh, fund_grant, write_grant, grant_fresh,
  grant_txn, consume_txn,
}
use inferrail.Authority.Opening.{add_child_reserved}
use inferrail.Authority.Closing.{
  close, free_slot, settle_parent, released_by, settle_fresh, settle_txn,
}

pub same_amount?_iff : (x y : Option ℤ) → (same_amount? x y ≡ true) ↔ (x ≡ y)
unfolding same_amount?
same_amount?_iff none none = ground arith
same_amount?_iff none (some y) = ground arith
same_amount?_iff (some x) none = ground arith
same_amount?_iff (some x) (some y) = ground (arith, eqb_ℤ_iff x y)

-- The delegation is there, and so is the event, with this payload.
abbrev pub IsRecorded : Ledger → String → String → Payload → Type 0
IsRecorded st d event_id payload =
    (is_some (find d st.delegations) ≡ true)
    × (find_event d event_id st.economic_events ≡ some payload)

module _ (event_id d : String) where
  record_event-IsRecorded :
      (now : ℕ) (status : String) (payload : Payload) (amount : Option ℤ) (rows : Delegations)
      (st : Ledger)
      → is_some (find d rows) ≡ true
      → IsRecorded (record_event now event_id d payload amount status rows st) d event_id payload
  unfolding record_event find_event
  record_event-IsRecorded now status payload amount rows st e =
      (e, ground (arith, same_text_iff d d, same_text_iff event_id event_id))

  check_event_seen :
      (payload : Payload) (st : Ledger)
      → ((p : Payload) → same_payload p payload ≡ true → p ≡ payload)
      → check_event d event_id payload st.economic_events ≡ ok true
      → find_event d event_id st.economic_events ≡ some payload
  unfolding check_event
  check_event_seen payload st eq h =
      elim (Option-cases (find_event d event_id st.economic_events)) [
        | inl missing ↦ absurd (ground arith)
        | inr (p, e) ↦ ground (arith, eq p)
      ]

  unless_seen-IsRecorded :
      (payload : Payload) (st : Ledger) (fresh : Result Bool × Ledger)
      → ((p : Payload) → same_payload p payload ≡ true → p ≡ payload)
      → is_some (find d st.delegations) ≡ true
      → (fresh.0 ≡ ok true → IsRecorded fresh.1 d event_id payload)
      → let out = unless_seen (check_event d event_id payload st.economic_events) st fresh in
        out.0 ≡ ok true → IsRecorded out.1 d event_id payload
  unfolding unless_seen
  unless_seen-IsRecorded payload st fresh eq there new answer =
      ground (arith, check_event_seen payload st eq, new)

-- A payload of one kind is the same as another only if they are equal.
consumption_eq :
    (d : String) (x : Option ℤ) (p : Payload)
    → same_payload p (consumption d x) ≡ true
    → p ≡ consumption d x
unfolding same_payload
consumption_eq d x (consumption d' x') h = ground (arith, same_text_iff d' d, same_amount?_iff x' x)
consumption_eq d x (authority_grant d' x') h = cc
consumption_eq d x _ h = cc

authority_grant_eq :
    (d : String) (x : ℤ) (p : Payload)
    → same_payload p (authority_grant d x) ≡ true
    → p ≡ authority_grant d x
unfolding same_payload
authority_grant_eq d x (authority_grant d' x') h =
    ground (arith, same_text_iff d' d, eqb_ℤ_iff x' x)
authority_grant_eq d x (consumption d' x') h = cc
authority_grant_eq d x _ h = cc

settlement_eq :
    (d o : String) (p : Payload) → same_payload p (settlement d o) ≡ true → p ≡ settlement d o
unfolding same_payload
settlement_eq d o (settlement d' o') h = ground (arith, same_text_iff d' d, same_text_iff o' o)
settlement_eq d o (consumption d' x') h = cc
settlement_eq d o _ h = cc

module _ (now : ℕ) (event_id d : String) (st : Ledger) (row : DelegationState)
    (there : is_some (find d st.delegations) ≡ true) where
  consume_fresh-IsRecorded :
      (x : Option ℤ)
      → (consume_fresh now event_id d x row st).0 ≡ ok true
      → IsRecorded (consume_fresh now event_id d x row st).1 d event_id (consumption d x)
  unfolding consume_fresh
  consume_fresh-IsRecorded none answer = ground (
    arith,
    record_event-IsRecorded event_id d now "unknown" (consumption d none) none
        (update d (add_unknown now) st.delegations) st,
    known-update d (add_unknown now) (λ _. (refl, refl)) d st.delegations,
  )
  consume_fresh-IsRecorded (some x) answer = ground (
    arith,
    record_event-IsRecorded event_id d now "accepted" (consumption d (some x)) (some x)
        (update d (add_consumed now x) st.delegations) st,
    known-update d (add_consumed now x) (λ _. (refl, refl)) d st.delegations,
  )

pub consume_txn-IsRecorded :
    (now : ℕ) (event_id d : String) (x : Option ℤ) (st : Ledger)
    → (consume_txn now event_id d x st).0 ≡ ok true
    → IsRecorded (consume_txn now event_id d x st).1 d event_id (consumption d x)
unfolding consume_txn
consume_txn-IsRecorded now event_id d x st answer = elim (Option-cases (find d st.delegations)) [
  | inl missing ↦ absurd (ground arith)
  | inr (row, e) ↦
      rw (e, consume_txn)
        (unless_seen-IsRecorded event_id d (consumption d x) st
          (consume_fresh now event_id d x row st) (consumption_eq d x) (rw e)
          (consume_fresh-IsRecorded now event_id d st row (rw e) x) (rw (e, consume_txn) at answer))
]

pub known-fund :
    (now : ℕ) (x : ℤ) (d : String) (o : Option String) (rows rows' : Delegations)
    → fund_grant now x o rows ≡ some rows'
    → is_some (find d rows') ≡ is_some (find d rows)
unfolding fund_grant
known-fund now x d none rows rows' e = ground arith
known-fund now x d (some p) rows rows' e =
    ground (arith, known-update p (add_child_reserved now x) (λ _. (refl, refl)) d rows)

pub known-settle_parent :
    (now : ℕ) (spent released : ℤ) (d : String) (o : Option String) (rows : Delegations)
    → is_some (find d (settle_parent now spent released o rows)) ≡ is_some (find d rows)
unfolding settle_parent
known-settle_parent now spent released d none rows = refl
known-settle_parent now spent released d (some p) rows =
    known-update p (free_slot now spent released) (λ _. (refl, refl)) d rows

module _ (now : ℕ) (event_id d : String) (st : Ledger) (row : DelegationState)
    (there : is_some (find d st.delegations) ≡ true) where
  write_grant-IsRecorded :
      (x : ℤ) (funded : Option Delegations)
      → fund_grant now x row.parent_delegation_id st.delegations ≡ funded
      → (write_grant now event_id d x st funded).0 ≡ ok true
      → IsRecorded (write_grant now event_id d x st funded).1 d event_id (authority_grant d x)
  unfolding write_grant
  write_grant-IsRecorded x none e answer = cc
  write_grant-IsRecorded x (some rows) e answer =
      record_event-IsRecorded event_id d now "accepted" (authority_grant d x) (some x)
        (update d (add_authority now x) rows) st
        (known-update d (add_authority now x) (λ _. (refl, refl)) d rows
          ∙ known-fund now x d row.parent_delegation_id st.delegations rows e
          ∙ there)

  grant_fresh-IsRecorded :
      (x : ℤ)
      → (grant_fresh now event_id d x row st).0 ≡ ok true
      → IsRecorded (grant_fresh now event_id d x row st).1 d event_id (authority_grant d x)
  unfolding grant_fresh
  grant_fresh-IsRecorded x answer = ground (
    arith,
    write_grant-IsRecorded x (fund_grant now x row.parent_delegation_id st.delegations) refl,
  )

  settle_fresh-IsRecorded :
      (outcome : String)
      → (settle_fresh now event_id d outcome row st).0 ≡ ok true
      → IsRecorded (settle_fresh now event_id d outcome row st).1 d event_id (settlement d outcome)
  unfolding settle_fresh
  settle_fresh-IsRecorded outcome answer =
      let closed = update d (close now outcome (released_by row)) st.delegations in
      ground (
        arith,
        record_event-IsRecorded event_id d now outcome (settlement d outcome) none
            (settle_parent now row.consumed_usd (released_by row) row.parent_delegation_id closed)
            st,
        known-settle_parent now row.consumed_usd (released_by row) d row.parent_delegation_id
            closed,
        known-update d (close now outcome (released_by row)) (λ _. (refl, refl)) d st.delegations,
      )

module _ (now : ℕ) (event_id d : String) (st : Ledger) where
  pub grant_txn-IsRecorded :
      (x : ℤ)
      → (grant_txn now event_id d x st).0 ≡ ok true
      → IsRecorded (grant_txn now event_id d x st).1 d event_id (authority_grant d x)
  unfolding grant_txn
  grant_txn-IsRecorded x answer = elim (Option-cases (find d st.delegations)) [
    | inl missing ↦ absurd (ground arith)
    | inr (row, e) ↦
        rw (e, grant_txn)
          (unless_seen-IsRecorded event_id d (authority_grant d x) st
            (grant_fresh now event_id d x row st) (authority_grant_eq d x) (rw e)
            (grant_fresh-IsRecorded now event_id d st row (rw e) x) (rw (e, grant_txn) at answer))
  ]

  pub settle_txn-IsRecorded :
      (outcome : String)
      → (settle_txn now event_id d outcome st).0 ≡ ok true
      → IsRecorded (settle_txn now event_id d outcome st).1 d event_id (settlement d outcome)
  unfolding settle_txn
  settle_txn-IsRecorded outcome answer = elim (Option-cases (find d st.delegations)) [
    | inl missing ↦ absurd (ground arith)
    | inr (row, e) ↦
        rw (e, settle_txn)
          (unless_seen-IsRecorded event_id d (settlement d outcome) st
            (settle_fresh now event_id d outcome row st) (settlement_eq d outcome) (rw e)
            (settle_fresh-IsRecorded now event_id d st row (rw e) outcome)
            (rw (e, settle_txn) at answer))
  ]
