-- ===== src/Authority/Lasting.antt =====
-- An event that is on record stays so, whatever calls follow: hosted/a2a_economic_authority/core.py
-- only ever adds events, and adds one under a new key only.
use inferrail.Common.{
  ℕ, ◌≡◌, refl, subst, ◌∙◌, String, Bool, true, false, ◌&&◌, Option, none, some, List, [], ◌∷◌, inl,
  inr, arith, is_some, same_text, same_text_iff, Option-cases, Bool-cases,
}
use inferrail.Common.Int.{ℤ, pos, ltb_ℤ}
use inferrail.Authority.State.{
  DelegationState, Delegations, Ledger, find, update, find_event, Payload, root, reservation,
  consumption, authority_grant, settlement,
}
use inferrail.Authority.Events.{
  Result, ok, err, created, unless_seen, conclude, check_event, record_event,
}
use inferrail.Authority.Opening.{
  new_row, create_root_txn, add_child_reserved, lacks_headroom, reserve_under, reserve_txn,
}
use inferrail.Authority.Spending.{
  add_unknown, add_consumed, add_authority, consume_amount, consume_fresh, fund_grant, write_grant,
  grant_fresh, grant_txn, consume_txn,
}
use inferrail.Authority.Closing.{
  close, settle_parent, released_by, settle_fresh, settle_txn, start_revocation,
  mark_revocation_started,
}
use inferrail.Authority.Api.{create_root, reserve, grant, consume, settle, with_valid}
use inferrail.Authority.Calls.{Call, opens, reserves, grants, consumes, settles, revokes, step, run}
use inferrail.Authority.Invariant.Forest.{known-update}
use inferrail.Authority.Invariant.Recording.{if-cases}
use inferrail.Authority.Recorded.{IsRecorded, known-fund, known-settle_parent}

unseen :
    (d e : String) (payload : Payload) (st : Ledger)
    → check_event d e payload st.economic_events ≡ ok false
    → find_event d e st.economic_events ≡ none
unfolding check_event
unseen d e payload st h = elim (Option-cases (find_event d e st.economic_events)) [
  | inl missing ↦ missing
  | inr (p, there) ↦ absurd (ground (arith, h, there))
]

module _ (d0 e0 : String) (p0 : Payload) where
  abbrev Stays : Ledger → Type 0
  Stays st = IsRecorded st d0 e0 p0

  record_event-Stays :
      (now : ℕ) (d e status : String) (payload : Payload) (amount : Option ℤ) (rows : Delegations)
      (st : Ledger)
      → Stays st
      → find_event d e st.economic_events ≡ none
      → is_some (find d0 rows) ≡ true
      → Stays (record_event now e d payload amount status rows st)
  unfolding record_event find_event
  record_event-Stays now d e status payload amount rows st v free there =
      elim (Bool-cases (same_text d d0 && same_text e e0)) [
        | inl q ↦
            let same_d = (same_text_iff d d0).0 (ground (arith, q)) in
            let same_e = (same_text_iff e e0).0 (ground (arith, q)) in
            let gone : find_event d0 e0 st.economic_events ≡ none =
              subst (λ x. find_event x e0 st.economic_events ≡ none) same_d
                (subst (λ x. find_event d x st.economic_events ≡ none) same_e free) in
            absurd (ground (arith, gone, v.1))
        | inr q ↦ (there, rw q (v.1))
      ]

  conclude-Stays :
      {A : Type 0} (now : ℕ) (d e status : String) (payload : Payload) (amount : Option ℤ)
      (rows : Delegations) (st : Ledger) (answer : A) (r : Result Bool)
      → check_event d e payload st.economic_events ≡ r
      → Stays st
      → is_some (find d0 rows) ≡ true
      → Stays
          (conclude r answer
            (record_event now e d payload amount status rows st)
            (record st { delegations = rows })
            st).1
  unfolding conclude
  conclude-Stays now d e status payload amount rows st answer (err x) h v there = v
  conclude-Stays now d e status payload amount rows st answer (ok true) h v there = (there, v.1)
  conclude-Stays now d e status payload amount rows st answer (ok false) h v there =
      record_event-Stays now d e status payload amount rows st v (unseen d e payload st h) there

  unless_seen-Stays :
      (d e : String) (payload : Payload) (st : Ledger) (fresh : Result Bool × Ledger)
      (r : Result Bool)
      → check_event d e payload st.economic_events ≡ r
      → Stays st
      → (find_event d e st.economic_events ≡ none → Stays fresh.1)
      → Stays (unless_seen r st fresh).1
  unfolding unless_seen
  unless_seen-Stays d e payload st fresh (err x) h v new = v
  unless_seen-Stays d e payload st fresh (ok true) h v new = v
  unless_seen-Stays d e payload st fresh (ok false) h v new = new (unseen d e payload st h)

  known-more :
      (row : DelegationState) (rows : Delegations)
      → is_some (find d0 rows) ≡ true
      → is_some (find d0 (row ∷ rows)) ≡ true
  unfolding find
  known-more row rows h = ground (arith, h)

  create_root_txn-Stays :
      (now : ℕ) (e d agent : String) (x : ℤ) (st : Ledger)
      → Stays st
      → Stays (create_root_txn now e d agent x st).1
  unfolding create_root_txn
  create_root_txn-Stays now e d agent x st v = elim (Option-cases (find d st.delegations)) [
    | inl missing ↦
        rw (missing, create_root_txn)
          (if-cases Stays (ltb_ℤ x (pos 0)) _ _ (λ _. v)
            (λ _.
              let row = new_row now d none agent x in
              conclude-Stays now d e "accepted" (root d agent x) (some x) (row ∷ st.delegations) st
                row _ refl v (known-more row st.delegations v.0)))
    | inr (row, there) ↦ rw (there, create_root_txn) (if-cases Stays _ _ _ (λ _. v) (λ _. v))
  ]

  reserve_under-Stays :
      (now : ℕ) (e p d agent : String) (x : ℤ) (parent : DelegationState) (st : Ledger)
      → Stays st
      → Stays (reserve_under now e p d agent x parent st).1
  unfolding reserve_under
  reserve_under-Stays now e p d agent x parent st v =
      if-cases Stays (lacks_headroom st.delegations p parent x) _ _ (λ _. v)
        (λ _.
          let row = new_row now d (some p) agent x in
          let rows = update p (add_child_reserved now x) st.delegations in
          conclude-Stays now d e "accepted" (reservation p d agent x) (some x) (row ∷ rows) st
            created _ refl v
            (known-more row rows (
              known-update p (add_child_reserved now x) (λ _. (refl, refl)) d0 st.delegations
              ∙ v.0)))

  reserve_txn-Stays :
      (now : ℕ) (e p d agent : String) (x : ℤ) (st : Ledger)
      → Stays st
      → Stays (reserve_txn now e p d agent x st).1
  unfolding reserve_txn
  reserve_txn-Stays now e p d agent x st v = elim (Option-cases (find d st.delegations)) [
    | inl missing ↦ elim (Option-cases (find p st.delegations)) [
      | inl none_there ↦
          rw (missing, none_there, reserve_txn) (if-cases Stays _ _ _ (λ _. v) (λ _. v))
      | inr (parent, there) ↦
          rw (missing, there, reserve_txn)
            (if-cases Stays _ _ _ (λ _. v) (λ _. reserve_under-Stays now e p d agent x parent st v))
    ]
    | inr (row, there) ↦ rw (there, reserve_txn) (if-cases Stays _ _ _ (λ _. v) (λ _. v))
  ]

  write_grant-Stays :
      (now : ℕ) (e d : String) (x : ℤ) (o : Option String) (st : Ledger)
      (funded : Option Delegations)
      → Stays st
      → find_event d e st.economic_events ≡ none
      → fund_grant now x o st.delegations ≡ funded
      → Stays (write_grant now e d x st funded).1
  unfolding write_grant
  write_grant-Stays now e d x o st none v free h = v
  write_grant-Stays now e d x o st (some rows) v free h =
      record_event-Stays now d e "accepted" (authority_grant d x) (some x)
        (update d (add_authority now x) rows) st v free
        (known-update d (add_authority now x) (λ _. (refl, refl)) d0 rows
          ∙ known-fund now x d0 o st.delegations rows h
          ∙ v.0)

  grant_fresh-Stays :
      (now : ℕ) (e d : String) (x : ℤ) (row : DelegationState) (st : Ledger)
      → Stays st
      → find_event d e st.economic_events ≡ none
      → Stays (grant_fresh now e d x row st).1
  unfolding grant_fresh
  grant_fresh-Stays now e d x row st v free =
      let funded = fund_grant now x row.parent_delegation_id st.delegations in
      ground (arith, v, write_grant-Stays now e d x row.parent_delegation_id st funded v free refl)

  consume_amount-Stays :
      (now : ℕ) (e d : String) (x : Option ℤ) (row : DelegationState) (st : Ledger)
      → Stays st
      → find_event d e st.economic_events ≡ none
      → Stays (consume_amount now e d x row st).1
  unfolding consume_amount
  consume_amount-Stays now e d none row st v free =
      record_event-Stays now d e "unknown" (consumption d none) none
        (update d (add_unknown now) st.delegations) st v free
        (known-update d (add_unknown now) (λ _. (refl, refl)) d0 st.delegations ∙ v.0)
  consume_amount-Stays now e d (some x) row st v free =
      let recorded =
        record_event-Stays now d e "accepted" (consumption d (some x)) (some x)
          (update d (add_consumed now x) st.delegations) st v free
          (known-update d (add_consumed now x) (λ _. (refl, refl)) d0 st.delegations ∙ v.0) in
      ground (arith, v, recorded)

  consume_fresh-Stays :
      (now : ℕ) (e d : String) (x : Option ℤ) (row : DelegationState) (st : Ledger)
      → Stays st
      → find_event d e st.economic_events ≡ none
      → Stays (consume_fresh now e d x row st).1
  unfolding consume_fresh
  consume_fresh-Stays now e d x row st v free =
      ground (arith, v, consume_amount-Stays now e d x row st v free)

  settle_fresh-Stays :
      (now : ℕ) (e d outcome : String) (row : DelegationState) (st : Ledger)
      → Stays st
      → find_event d e st.economic_events ≡ none
      → Stays (settle_fresh now e d outcome row st).1
  unfolding settle_fresh
  settle_fresh-Stays now e d outcome row st v free =
      let closed = update d (close now outcome (released_by row)) st.delegations in
      let recorded =
        record_event-Stays now d e outcome (settlement d outcome) none
          (settle_parent now row.consumed_usd (released_by row) row.parent_delegation_id closed) st
          v free
          (known-settle_parent now row.consumed_usd (released_by row) d0 row.parent_delegation_id
              closed
            ∙ known-update d (close now outcome (released_by row)) (λ _. (refl, refl)) d0
                st.delegations
            ∙ v.0) in
      ground (arith, v, recorded)

  consume_txn-Stays :
      (now : ℕ) (e d : String) (x : Option ℤ) (st : Ledger)
      → Stays st
      → Stays (consume_txn now e d x st).1
  unfolding consume_txn
  consume_txn-Stays now e d x st v = elim (Option-cases (find d st.delegations)) [
    | inl missing ↦ rw (missing, consume_txn) v
    | inr (row, there) ↦
        rw (there, consume_txn)
          (unless_seen-Stays d e (consumption d x) st (consume_fresh now e d x row st) _ refl v
            (consume_fresh-Stays now e d x row st v))
  ]

  grant_txn-Stays :
      (now : ℕ) (e d : String) (x : ℤ) (st : Ledger) → Stays st → Stays (grant_txn now e d x st).1
  unfolding grant_txn
  grant_txn-Stays now e d x st v = elim (Option-cases (find d st.delegations)) [
    | inl missing ↦ rw (missing, grant_txn) v
    | inr (row, there) ↦
        rw (there, grant_txn)
          (unless_seen-Stays d e (authority_grant d x) st (grant_fresh now e d x row st) _ refl v
            (grant_fresh-Stays now e d x row st v))
  ]

  settle_txn-Stays :
      (now : ℕ) (e d outcome : String) (st : Ledger)
      → Stays st
      → Stays (settle_txn now e d outcome st).1
  unfolding settle_txn
  settle_txn-Stays now e d outcome st v = elim (Option-cases (find d st.delegations)) [
    | inl missing ↦ rw (missing, settle_txn) v
    | inr (row, there) ↦
        rw (there, settle_txn)
          (unless_seen-Stays d e (settlement d outcome) st (settle_fresh now e d outcome row st) _
            refl v (settle_fresh-Stays now e d outcome row st v))
  ]

  mark_revocation_started-Stays :
      (now : ℕ) (d : String) (st : Ledger) → Stays st → Stays (mark_revocation_started now d st).1
  unfolding mark_revocation_started
  mark_revocation_started-Stays now d st v = elim (Option-cases (find d st.delegations)) [
    | inl missing ↦ ground (arith, v, missing)
    | inr (row, there) ↦
        let known = known-update d (start_revocation now) (λ _. (refl, refl)) d0 st.delegations in
        ground (arith, v, there, known)
  ]

  with_valid-Stays :
      {A B : Type 0} (valid : Bool) (amount : Result A) (body : A → Ledger → Result B × Ledger)
      (st : Ledger)
      → Stays st
      → ((x : A) → Stays (body x st).1)
      → Stays (with_valid valid amount body st).1
  unfolding with_valid
  with_valid-Stays false amount body st v h = v
  with_valid-Stays true (err x) body st v h = v
  with_valid-Stays true (ok x) body st v h = h x

  step-Stays : (now : ℕ) (c : Call) (st : Ledger) → Stays st → Stays (step now c st)
  unfolding step create_root reserve grant consume settle
  step-Stays now (opens e d agent x) st v =
      with_valid-Stays _ _ _ st v λ y. create_root_txn-Stays now e d agent y st v
  step-Stays now (reserves e p d agent x) st v =
      with_valid-Stays _ _ _ st v λ y. reserve_txn-Stays now e p d agent y st v
  step-Stays now (grants e d x) st v =
      with_valid-Stays _ _ _ st v λ y. grant_txn-Stays now e d y st v
  step-Stays now (consumes e d x) st v =
      with_valid-Stays _ _ _ st v λ y. consume_txn-Stays now e d y st v
  step-Stays now (settles e d outcome) st v =
      with_valid-Stays _ _ _ st v λ y. settle_txn-Stays now e d y st v
  step-Stays now (revokes d) st v = mark_revocation_started-Stays now d st v

  pub run-Stays : (calls : List (ℕ × Call)) (st : Ledger) → Stays st → Stays (run st calls)
  unfolding run
  run-Stays [] st v = v
  run-Stays ((now, c) ∷ calls) st v = run-Stays calls (step now c st) (step-Stays now c st v)
