-- ===== src/Authority/Idempotence.antt =====
-- A call that is delivered twice has one effect: the events of hosted/a2a_economic_authority/core.py.
use inferrail.Common.{
  ℕ, ◌≡◌, refl, String, Bool, true, Option, List, arith, same_text, same_text_iff, if◌then◌else◌,
}
use inferrail.Common.Int.{ℤ, eqb_ℤ}
use inferrail.Authority.State.{
  Ledger, Payload, consumption, authority_grant, settlement, same_payload, same_amount?,
}
use inferrail.Authority.Events.{Result, ok, err, conflict, check_event}
use inferrail.Authority.Spending.{grant_txn, consume_txn}
use inferrail.Authority.Closing.{settle_txn}
use inferrail.Authority.Calls.{Call, run}
use inferrail.Authority.Lasting.{run-Stays}
use inferrail.Authority.Recorded.{
  IsRecorded, consume_txn-IsRecorded, grant_txn-IsRecorded, settle_txn-IsRecorded,
}

-- The answer to an event whose key is taken.
abbrev pub replay_answer : Bool → Result Bool
replay_answer same = if same then ok true else err conflict

-- Whoever delivers an event under a key that is recorded gets the answer at once: `True` if the
-- request is the same, a conflict if it is not. The ledger is left as it is.
module _ (later : ℕ) (event_id d : String) (payload : Payload) (st : Ledger)
    (recorded : IsRecorded st d event_id payload) where
  pub consume-recorded :
      (x : Option ℤ)
      → consume_txn later event_id d x st
        ≡ (replay_answer (same_payload payload (consumption d x)), st)
  unfolding consume_txn check_event
  consume-recorded x = ground (arith, recorded.0, recorded.1)

  pub grant-recorded :
      (x : ℤ)
      → grant_txn later event_id d x st
        ≡ (replay_answer (same_payload payload (authority_grant d x)), st)
  unfolding grant_txn check_event
  grant-recorded x = ground (arith, recorded.0, recorded.1)

  pub settle-recorded :
      (outcome : String)
      → settle_txn later event_id d outcome st
        ≡ (replay_answer (same_payload payload (settlement d outcome)), st)
  unfolding settle_txn check_event
  settle-recorded outcome = ground (arith, recorded.0, recorded.1)

module _ (now later : ℕ) (event_id d : String) (st : Ledger) (calls : List (ℕ × Call)) where
  -- Once a `consume` has answered `True`, the same event delivered again, whatever calls of the store
  -- came in between, answers `True` for the same amount and a conflict for any other, and changes
  -- nothing.
  pub consume-replay :
      (x y : Option ℤ)
      → (consume_txn now event_id d x st).0 ≡ ok true
      → let st' = run (consume_txn now event_id d x st).1 calls in
        consume_txn later event_id d y st' ≡ (replay_answer (same_amount? x y), st')
  unfolding same_payload
  consume-replay x y answer = rw (
    consume-recorded later event_id d (consumption d x) _
        (run-Stays d event_id (consumption d x) calls (consume_txn now event_id d x st).1
          (consume_txn-IsRecorded now event_id d x st answer))
        y,
    (same_text_iff d d).1 refl,
  )

  -- Once a `grant` has answered `True`, the same event delivered again, whatever calls of the store
  -- came in between, answers `True` for the same amount and a conflict for any other, and changes
  -- nothing.
  pub grant-replay :
      (x y : ℤ)
      → (grant_txn now event_id d x st).0 ≡ ok true
      → let st' = run (grant_txn now event_id d x st).1 calls in
        grant_txn later event_id d y st' ≡ (replay_answer (eqb_ℤ x y), st')
  unfolding same_payload
  grant-replay x y answer = rw (
    grant-recorded later event_id d (authority_grant d x) _
        (run-Stays d event_id (authority_grant d x) calls (grant_txn now event_id d x st).1
          (grant_txn-IsRecorded now event_id d st x answer))
        y,
    (same_text_iff d d).1 refl,
  )

  -- Once a `settle` has answered `True`, the same event delivered again, whatever calls of the store
  -- came in between, answers `True` for the same outcome and a conflict for any other, and changes
  -- nothing.
  pub settle-replay :
      (o o' : String)
      → (settle_txn now event_id d o st).0 ≡ ok true
      → let st' = run (settle_txn now event_id d o st).1 calls in
        settle_txn later event_id d o' st' ≡ (replay_answer (same_text o o'), st')
  unfolding same_payload
  settle-replay o o' answer = rw (
    settle-recorded later event_id d (settlement d o) _
        (run-Stays d event_id (settlement d o) calls (settle_txn now event_id d o st).1
          (settle_txn-IsRecorded now event_id d st o answer))
        o',
    (same_text_iff d d).1 refl,
  )
