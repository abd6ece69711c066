-- ===== src/Recovery/Engine/Once.antt =====
-- At most one call of the adapter for a work: src/inferrail/ap/engine.py over all interleavings.
use inferrail.Common.{
  ℕ, zero, suc, ◌+◌, ◌≤◌, ◌≡◌, Bool, false, ◌||◌, String, List, [], ◌∷◌, any, same_text, arith,
}
use inferrail.Recovery.Store.{
  store_after, RecoveryStore, has_decision, record_outcome, delete_work_id,
}
use inferrail.Recovery.Store.Keeps.{has_decision-reaps, has_decision-reports, has_decision-deletes}
use inferrail.Recovery.Store.Reaping.{reap_stale_retry_lease}
use inferrail.Recovery.Engine.{Engine, Inputs, Stage}
use inferrail.Recovery.Engine.Stages.{advance}
use inferrail.Recovery.Engine.System.{
  System, Act, decides, ensures, advances, dies, reaps, reports, deletes, advance_at, remove_at,
  act, run, initial,
}
use inferrail.Recovery.Engine.Calls.{
  adapter_calls, about_to, decided, adapter_calls-append, advance-Counts,
}

-- The calls made and the calls to come are at most one, and none without a decision.
abbrev Accounted : String → System → Type 0
Accounted w y = adapter_calls w y.effects + about_to w y.calls ≤ decided w y.store

advance_at_counts :
    (w : String) (n : ℕ) (e : Engine) (i : Inputs) (y : System) (stages : List Stage)
    → let z = advance_at n e i y stages in
      adapter_calls w z.effects + about_to w z.calls + decided w y.store
      ≤ adapter_calls w y.effects + about_to w stages + decided w z.store
unfolding advance_at
advance_at_counts w n e i y [] = omega arith
advance_at_counts w zero e i y (stage ∷ stages) =
    let m = advance e i stage y.store in
    omega (arith, advance-Counts w e i stage y.store, adapter_calls-append w m.effects y.effects)
advance_at_counts w (suc n) e i y (stage ∷ stages) =
    omega (arith, advance_at_counts w n e i y stages)

about_to-remove_at :
    (w : String) (n : ℕ) (stages : List Stage) → about_to w (remove_at n stages) ≤ about_to w stages
unfolding remove_at
about_to-remove_at w n [] = omega arith
about_to-remove_at w zero (stage ∷ stages) = omega arith
about_to-remove_at w (suc n) (stage ∷ stages) = omega (arith, about_to-remove_at w n stages)

-- the acts that do not delete a work
abbrev pub is_deletion_of : String → Act → Bool
is_deletion_of w (deletes v) = same_text v w
is_deletion_of w _ = false

keeps_account :
    (w : String) (y : System) (t : RecoveryStore)
    → has_decision w t ≡ has_decision w y.store
    → Accounted w y
    → Accounted w (record y { store = t })
keeps_account w y t e h = ground (arith, e, h)

pub none_of : (a b : Bool) → (a || b) ≡ false → (a ≡ false) × (b ≡ false)
none_of a b h = ground (arith, h)

act-Accounted :
    (w : String) (a : Act) (y : System)
    → is_deletion_of w a ≡ false
    → Accounted w y
    → Accounted w (act a y)
unfolding act
act-Accounted w (decides case) y k h = omega (arith, h)
act-Accounted w (ensures case) y k h = omega (arith, h)
act-Accounted w (advances n e i) y k h = omega (arith, h, advance_at_counts w n e i y y.calls)
act-Accounted w (dies n) y k h = omega (arith, h, about_to-remove_at w n y.calls)
act-Accounted w (reaps v ts at) y k h =
    keeps_account w y (store_after y.store (reap_stale_retry_lease v ts at y.store))
      (has_decision-reaps w v ts at y.store) h
act-Accounted w (reports o) y k h =
    keeps_account w y (store_after y.store (record_outcome o y.store))
      (has_decision-reports w o y.store) h
act-Accounted w (deletes v) y k h =
    keeps_account w y (delete_work_id v y.store).1 (has_decision-deletes w v y.store k) h

run-Accounted :
    (w : String) (acts : List Act) (y : System)
    → any (is_deletion_of w) acts ≡ false
    → Accounted w y
    → Accounted w (run acts y)
unfolding run
run-Accounted w [] y k h = h
run-Accounted w (a ∷ acts) y k h =
    let (first, rest) = none_of (is_deletion_of w a) (any (is_deletion_of w) acts) k in
    run-Accounted w acts (act a y) rest (act-Accounted w a y first h)

at_most_one : (w : String) (y : System) → Accounted w y → adapter_calls w y.effects ≤ 1
at_most_one w y h = ground (arith, h)

-- However the stages of calls, crashes, expired leases and reported outcomes interleave, the retry
-- adapter is called at most once for a work that is not deleted.
pub called_at_most_once :
    (w : String) (acts : List Act)
    → any (is_deletion_of w) acts ≡ false
    → adapter_calls w (run acts initial).effects ≤ 1
called_at_most_once w acts k =
    at_most_one w (run acts initial) (run-Accounted w acts initial k (omega arith))
