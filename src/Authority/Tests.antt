-- ===== src/Authority/Tests.antt =====
-- Runs of the ledger, and each theorem at a run.
use inferrail.Common.{
  ℕ, ◌*◌, ◌≡◌, ◌≢◌, refl, true, false, none, some, List, [], ◌∷◌, same_text, same_text?, ◌↔◌,
}
use inferrail.Common.Int.{pos, ◌+ℤ◌, ◌-ℤ◌, ◌≤ℤ◌}
use inferrail.Common.Money.{usd, finite, not_finite}
use inferrail.Common.Sums.{total}
use inferrail.Authority.State.{
  DelegationState, Ledger, empty, find, update, children, active_reservation_usd, find_event,
  same_payload, same_amount?,
}
use inferrail.Authority.Events.{
  ok, err, invalid, conflict, already_exists, rejected, validate_identifier, validate_amount,
  check_event,
}
use inferrail.Authority.Walks.{
  active_below, revoked_from, has_active_descendant, is_revocation_in_progress_in_lineage,
}
use inferrail.Authority.Walks.Lineage.{Above, self, up, in_progress_iff, IsFoundAbove}
use inferrail.Authority.Opening.{new_row, create_root_txn, reserve_txn}
use inferrail.Authority.Spending.{grant_txn, consume_txn}
use inferrail.Authority.Closing.{settle_txn, settle_fresh, mark_revocation_started}
use inferrail.Authority.Api.{
  with_valid, create_root, reserve, grant, consume, settle, invariant, violated,
}
use inferrail.Authority.Calls.{Call, opens, reserves, consumes, settles, revokes, step, run}
use inferrail.Authority.Invariant.{event_spend, root_authority, IsConserving}
use inferrail.Authority.Invariant.Bound.{
  step-IsConserving, run-IsConserving, empty-IsConserving, spending_bounded,
}
use inferrail.Authority.Report.{never_violated, settle_returns}
use inferrail.Authority.Revocation.{revocation_stops}
use inferrail.Authority.Idempotence.{consume-replay, grant-replay}

-- A root with ten dollars, a child with four, of which it spends three.
abbrev story : List (ℕ × Call)
story =
    (1, opens "e1" "root" "owner" (finite (pos (10 * usd))))
    ∷ (2, reserves "e2" "root" "job" "worker" (finite (pos (4 * usd))))
    ∷ (3, reserves "e3" "root" "big" "worker" (finite (pos (7 * usd))))
    ∷ (4, consumes "e4" "job" (some (finite (pos (3 * usd)))))
    ∷ (5, consumes "e5" "job" (some (finite (pos (2 * usd)))))
    ∷ (6, consumes "e6" "job" (some not_finite))
    ∷ []

abbrev opened : Ledger
opened = run empty story

-- Names what a run computes through.
computing : Unit {0}
unfolding new_row active_reservation_usd run step create_root reserve grant consume settle
    with_valid create_root_txn reserve_txn grant_txn consume_txn settle_txn mark_revocation_started
    find update children active_below revoked_from has_active_descendant
    is_revocation_in_progress_in_lineage check_event find_event same_payload validate_identifier
    validate_amount same_text same_text? ◌+ℤ◌ ◌-ℤ◌ total
computing = tt

-- The reservation of seven dollars, the second charge and the NaN are refused.
spent_so_far : total event_spend opened.economic_events ≡ pos (3 * usd)
unfolding computing
spent_so_far = refl

refusals :
    ((reserve 9 "e9" "root" "big" "worker" (finite (pos (7 * usd))) opened).0 ≡ ok rejected)
    × ((reserve 9 "e9" "root" "job" "worker" (finite (pos (4 * usd))) opened).0 ≡ ok already_exists)
    × ((reserve 9 "e9" "root" "job" "other" (finite (pos (4 * usd))) opened).0 ≡ err conflict)
    × ((consume 9 "e9" "job" (some (finite (pos (2 * usd)))) opened).0 ≡ ok false)
    × ((consume 9 "e4" "job" (some (finite (pos (2 * usd)))) opened).0 ≡ err conflict)
    × ((settle 9 "e9" "root" "done" opened).0 ≡ ok false)
    × ((grant 9 "" "root" (finite (pos usd)) opened).0 ≡ err invalid)
unfolding computing
refusals = (refl, refl, refl, refl, refl, refl, refl)

opened-IsConserving : IsConserving opened
opened-IsConserving = run-IsConserving story empty empty-IsConserving

spending_bounded_example :
    total event_spend (run empty story).economic_events
    ≤ℤ total root_authority (run empty story).delegations
spending_bounded_example = spending_bounded story

step-IsConserving_example : IsConserving (step 7 (settles "e7" "job" "done") opened)
step-IsConserving_example =
    step-IsConserving 7 (settles "e7" "job" "done") opened opened-IsConserving

never_violated_example : invariant "job" (run empty story) ≢ violated
never_violated_example = never_violated story "job"

job-Above : Above opened.delegations "root" "job"
unfolding computing
job-Above = up _ refl refl self

in_progress_iff_example :
    (is_revocation_in_progress_in_lineage opened.delegations "job" ≡ true)
    ↔ IsFoundAbove opened.delegations "job"
in_progress_iff_example = in_progress_iff opened.delegations "job" opened-IsConserving.table.forest

revocation_stops_example :
    let st' = (mark_revocation_started 8 "root" opened).1 in
    ((grant 9 "e9" "job" (finite (pos usd)) st').1 ≡ st')
    × ((consume 9 "e9" "job" none st').1 ≡ st')
    × ((reserve 9 "e9" "job" "sub" "worker" (finite (pos usd)) st').1 ≡ st')
unfolding computing
revocation_stops_example =
    revocation_stops 8 "root" "job" opened refl job-Above 9 "e9" "sub" "worker" (finite (pos usd))
      none

-- calls between an event and its redelivery, a revocation among them
abbrev between : List (ℕ × Call)
between = (8, consumes "e8" "job" none) ∷ (9, revokes "root") ∷ []

consume-replay_example :
    let st' = run (consume_txn 7 "e7" "job" (some (pos usd)) opened).1 between in
    consume_txn 10 "e7" "job" none st' ≡ (err conflict, st')
unfolding computing same_amount?
consume-replay_example = consume-replay 7 10 "e7" "job" opened between (some (pos usd)) none refl

grant-replay_example :
    let st' = run (grant_txn 7 "e7" "job" (pos usd) opened).1 between in
    grant_txn 10 "e7" "job" (pos usd) st' ≡ (ok true, st')
unfolding computing
grant-replay_example = grant-replay 7 10 "e7" "job" opened between (pos usd) (pos usd) refl

abbrev job_row : DelegationState
unfolding computing
job_row = record (new_row 2 "job" (some "root") "worker" (pos (4 * usd))) {
  consumed_usd = pos (3 * usd);
  updated_at = 4;
}

abbrev root_row : DelegationState
unfolding computing
root_row = record (new_row 1 "root" none "owner" (pos (10 * usd))) {
  child_reserved_usd = pos (4 * usd);
  updated_at = 2;
}

-- Six dollars were left in the root, and the job's unspent one comes back.
settle_returns_example :
    (q' : DelegationState) × (find "root"
        (settle_fresh 7 "e7" "job" "done" job_row opened).1.delegations
      ≡ some q')
    × (q'.consumed_usd ≡ pos (3 * usd))
    × (active_reservation_usd q' ≡ pos (7 * usd))
unfolding computing
settle_returns_example =
    settle_returns 7 "e7" "job" "root" "done" job_row root_row opened opened-IsConserving refl refl
      refl refl
