-- ===== src/Recovery/Store/Reaping.antt =====
-- Leases that have run out: find_stale_retry_leases and reap_stale_retry_lease of
-- src/inferrail/ap/store.py.
use Prim.Native.String.{◌++◌}
use inferrail.Common.{
  ℕ, Bool, true, false, ◌&&◌, String, List, [], ◌∷◌, Option, none, some, filter, map, if◌then◌else◌,
  same_text, ltb, ◌⊎◌, inl, inr,
}
use inferrail.Recovery.Models.{
  ambiguous, DecisionStatus, retry_in_progress, retry_resolved, awaiting_human_review,
}
use inferrail.Recovery.Store.{
  Decision, Attempt, RecoveryStore, StoreError, integrity_error, assertion_failed, Attempted, done,
  raises, has_row, get_decision, get_retry_attempt, insert_row,
}

abbrev pub is_in_progress : DecisionStatus → Bool
is_in_progress retry_in_progress = true
is_in_progress _ = false

abbrev pub expired : ℕ → Option ℕ → Bool
expired ts none = false
expired ts (some lease) = ltb lease ts

unfoldable pub is_stale_lease : ℕ → Decision → Bool
is_stale_lease ts d = is_in_progress d.status && expired ts d.lease_expires_at

unfoldable pub find_stale_retry_leases : ℕ → RecoveryStore → List Decision
unfolding is_stale_lease
find_stale_retry_leases ts s = filter (is_stale_lease ts) s.decisions

pub data Kind : Type 0 where
  reconciled : Kind
  reaped : Kind

-- `UPDATE decisions SET status = ?, worker_id = NULL, lease_expires_at = NULL WHERE work_id = ?`
unfoldable pub close_decision : String → DecisionStatus → Decision → Decision
unfolding same_text
close_decision w status d =
    if same_text d.work_id w
    then record d { status = status; worker_id = none; lease_expires_at = none }
    else d

abbrev passed : Option Bool → Bool
passed (some true) = true
passed _ = false

unfoldable pub reconciled_status : Attempt → DecisionStatus
reconciled_status a = if passed a.validation_passed then retry_resolved else awaiting_human_review

unfoldable pub reaped_id : String → String
reaped_id w = "ret_reaped_" ++ w

unfoldable pub reaped_attempt : String → ℕ → Attempt
unfolding reaped_id
reaped_attempt w at = record {
  attempt_id = reaped_id w;
  work_id = w;
  status = ambiguous;
  cost_usd = none;
  confidence = none;
  provider = "lease_reaper";
  validation_passed = none;
  validator_version = none;
  created_at = at;
  pre_flight_estimate_usd = none;
}

abbrev pub Reaped : Type 0
Reaped = Option (Attempt × Kind)

unfoldable pub reap_attempt : String → ℕ → Option Attempt → RecoveryStore → Attempted Reaped
unfolding close_decision reconciled_status reaped_attempt same_text
reap_attempt w at (some a) s =
    done (some (a, reconciled))
      (record s { decisions = map (close_decision w (reconciled_status a)) s.decisions })
reap_attempt w at none s =
    let a = reaped_attempt w at in
    if has_row (λ (b : Attempt). b.attempt_id) a.attempt_id s.retry_attempts
    then raises integrity_error
    else done (some (a, reaped)) (record s {
      retry_attempts = insert_row a s.retry_attempts;
      decisions = map (close_decision w awaiting_human_review) s.decisions;
    })

unfoldable pub reap_decision : String → ℕ → ℕ → Option Decision → RecoveryStore → Attempted Reaped
unfolding reap_attempt get_retry_attempt is_stale_lease
reap_decision w ts at none s = done none s
reap_decision w ts at (some d) s =
    if is_stale_lease ts d then reap_attempt w at (get_retry_attempt w s) s else done none s

unfoldable pub reap_stale_retry_lease : String → ℕ → ℕ → RecoveryStore → Attempted Reaped
unfolding reap_decision get_decision
reap_stale_retry_lease w ts at s = reap_decision w ts at (get_decision w s) s

pub record ReapedRow : Type 0 where
  pub work_id : String
  pub decision_id : String
  pub reaped_attempt_id : String
  pub kind : Kind
  pub status : DecisionStatus

-- the row of the answer for one reaped decision; the source asserts that the decision is there
unfoldable pub reaped_row : Decision → Attempt × Kind → Option Decision → Option ReapedRow
reaped_row d (a, kind) none = none
reaped_row d (a, kind) (some now) = some record {
  work_id = d.work_id;
  decision_id = d.decision_id;
  reaped_attempt_id = a.attempt_id;
  kind = kind;
  status = now.status;
}

-- the answer of the loop, and the tables that its transactions have left, also where it raises
pub record Swept : Type 0 where
  pub answer : StoreError ⊎ List ReapedRow
  pub store : RecoveryStore

abbrev with_row : ReapedRow → StoreError ⊎ List ReapedRow → StoreError ⊎ List ReapedRow
with_row r (inl e) = inl e
with_row r (inr rs) = inr (r ∷ rs)

abbrev pub add_row : Option ReapedRow → RecoveryStore → Swept → Swept
add_row none s rest = record { answer = inl assertion_failed; store = s }
add_row (some r) s rest = record rest { answer = with_row r rest.answer }

-- one pass of the loop, `rest` being the remaining ones
abbrev pub reap_then : Decision → (RecoveryStore → Swept) → RecoveryStore → Attempted Reaped → Swept
reap_then d rest s (done none t) = rest t
reap_then d rest s (done (some r) t) =
    add_row (reaped_row d r (get_decision d.work_id t)) t (rest t)
reap_then d rest s (raises e) = record { answer = inl e; store = s }

-- The loop of RecoveryEngine.reap_stale_retries of src/inferrail/ap/engine.py, over the decisions
-- that were stale when it began.
unfoldable pub reap_each : ℕ → ℕ → List Decision → RecoveryStore → Swept
unfolding reap_stale_retry_lease reaped_row get_decision
reap_each ts at [] s = record { answer = inr []; store = s }
reap_each ts at (d ∷ ds) s =
    reap_then d (λ t. reap_each ts at ds t) s (reap_stale_retry_lease d.work_id ts at s)

unfoldable pub reap_stale_retries : ℕ → ℕ → RecoveryStore → Swept
unfolding reap_each find_stale_retry_leases
reap_stale_retries ts at s = reap_each ts at (find_stale_retry_leases ts s) s
