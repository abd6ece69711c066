-- ===== src/Authority/Invariant/Bound.antt =====
-- Whatever is called, in whatever order, the spending that the ledger has accepted is covered by the
-- authority of its roots.
use inferrail.Common.{ℕ, refl, Bool, true, false, List, [], ◌∷◌}
use inferrail.Common.Int.{◌+ℤ◌, ◌≤ℤ◌, int_laws}
use inferrail.Common.Sums.{total, All-map, total_mono, total_add}
use inferrail.Authority.State.{DelegationState, Ledger, empty}
use inferrail.Authority.Events.{Result, ok, err}
use inferrail.Authority.Api.{with_valid, create_root, reserve, grant, consume, settle}
use inferrail.Authority.Calls.{Call, opens, reserves, grants, consumes, settles, revokes, step, run}
use inferrail.Authority.Invariant.{
  balance_of_all, counted_spend, event_spend, root_authority, RowSound, IsConserving,
}
use inferrail.Authority.Invariant.Opening.{create_root_txn-IsConserving, reserve_txn-IsConserving}
use inferrail.Authority.Invariant.Spending.{consume_txn-IsConserving}
use inferrail.Authority.Invariant.Granting.{grant_txn-IsConserving}
use inferrail.Authority.Invariant.Settling.{
  settle_txn-IsConserving, mark_revocation_started-IsConserving,
}

with_valid-cases :
    {A B : Type 0} (valid : Bool) (amount : Result A) (body : A → Ledger → Result B × Ledger)
    (st : Ledger)
    → IsConserving st
    → ((x : A) → IsConserving (body x st).1)
    → IsConserving (with_valid valid amount body st).1
unfolding with_valid
with_valid-cases false amount body st v h = v
with_valid-cases true (err e) body st v h = v
with_valid-cases true (ok x) body st v h = h x

-- Every call of the store keeps the conservation laws, whether it succeeds, is refused or raises.
pub step-IsConserving :
    (now : ℕ) (c : Call) (st : Ledger) → IsConserving st → IsConserving (step now c st)
unfolding step create_root reserve grant consume settle
step-IsConserving now (opens e d agent x) st v =
    with_valid-cases _ _ _ st v λ y. create_root_txn-IsConserving now e d agent y st v
step-IsConserving now (reserves e p d agent x) st v =
    with_valid-cases _ _ _ st v λ y. reserve_txn-IsConserving now e p d agent y st v
step-IsConserving now (grants e d x) st v =
    with_valid-cases _ _ _ st v λ y. grant_txn-IsConserving now e d y st v
step-IsConserving now (consumes e d x) st v =
    with_valid-cases _ _ _ st v λ y. consume_txn-IsConserving now e d y st v
step-IsConserving now (settles e d outcome) st v =
    with_valid-cases _ _ _ st v λ y. settle_txn-IsConserving now e d y st v
step-IsConserving now (revokes d) st v = mark_revocation_started-IsConserving now d st v

pub run-IsConserving :
    (calls : List (ℕ × Call)) (st : Ledger) → IsConserving st → IsConserving (run st calls)
unfolding run
run-IsConserving [] st v = v
run-IsConserving ((now, c) ∷ calls) st v =
    run-IsConserving calls (step now c st) (step-IsConserving now c st v)

pub empty-IsConserving : IsConserving empty
unfolding total
empty-IsConserving = record {
  table = record {
    forest = tt;
    sound = tt;
    balanced = λ j. refl;
    balanced_over_all = refl;
    alive = λ j q e off. refl;
  };
  audited = refl;
}

row_covered :
    (r : DelegationState) → RowSound r → counted_spend r +ℤ balance_of_all r ≤ℤ root_authority r
row_covered r s = grind (int_laws, s.consumed_nonneg, s.released_nonneg, s.conserved, s.unreleased)

-- In a ledger that conserves, known spending is within the authority of the roots.
pub spend-le-authority :
    (st : Ledger)
    → IsConserving st
    → total event_spend st.economic_events ≤ℤ total root_authority st.delegations
spend-le-authority st v =
    let covered =
      total_mono (λ r. counted_spend r +ℤ balance_of_all r) root_authority st.delegations
        (All-map st.delegations row_covered v.table.sound) in
    let split = total_add counted_spend balance_of_all st.delegations in
    grind (int_laws, v.audited, v.table.balanced_over_all)

-- From an empty database, after any sequence of calls, the amounts of all accepted consumption events
-- together are at most the authority of the root delegations.
pub spending_bounded :
    (calls : List (ℕ × Call))
    → let st = run empty calls in
      total event_spend st.economic_events ≤ℤ total root_authority st.delegations
spending_bounded calls =
    spend-le-authority (run empty calls) (run-IsConserving calls empty empty-IsConserving)
