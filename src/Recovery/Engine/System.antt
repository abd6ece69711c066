-- ===== src/Recovery/Engine/System.antt =====
-- The recovery process as a whole: any number of calls of src/inferrail/ap/engine.py, in any number
-- of processes, with their stages in any order, and the other transactions on the same tables.
use inferrail.Common.{ℕ, zero, suc, String, List, [], ◌∷◌, ◌++◌}
use inferrail.Recovery.Models.{ExceptionCase}
use inferrail.Recovery.Store.{
  RecoveryStore, OutcomeRow, store_after, record_outcome, delete_work_id,
}
use inferrail.Recovery.Store.Reaping.{reap_stale_retry_lease}
use inferrail.Recovery.Engine.{Engine, Inputs, Stage, looking, ensuring, Effect}
use inferrail.Recovery.Engine.Stages.{advance}

pub record System : Type 0 where
  pub store : RecoveryStore
  pub calls : List Stage
  pub effects : List Effect

abbrev pub new_store : RecoveryStore
new_store = record {
  decisions = [];
  retry_attempts = [];
  handoffs = [];
  review_outcomes = [];
  late_retry_results = [];
}

abbrev pub initial : System
initial = record { store = new_store; calls = []; effects = [] }

-- A call is named by its place in the list. `dies` is a crash of its process.
pub data Act : Type 0 where
  decides : ExceptionCase → Act
  ensures : ExceptionCase → Act
  advances : ℕ → Engine → Inputs → Act
  dies : ℕ → Act
  reaps : String → ℕ → ℕ → Act
  reports : OutcomeRow → Act
  deletes : String → Act

unfoldable pub advance_at : ℕ → Engine → Inputs → System → List Stage → System
unfolding advance
advance_at n e i y [] = record y { calls = [] }
advance_at zero e i y (stage ∷ stages) =
    let m = advance e i stage y.store in
    record { store = m.store; calls = m.stage ∷ stages; effects = m.effects ++ y.effects }
advance_at (suc n) e i y (stage ∷ stages) =
    let z = advance_at n e i y stages in record z { calls = stage ∷ z.calls }

unfoldable pub remove_at : ℕ → List Stage → List Stage
remove_at n [] = []
remove_at zero (stage ∷ stages) = stages
remove_at (suc n) (stage ∷ stages) = stage ∷ remove_at n stages

unfoldable pub act : Act → System → System
unfolding advance_at remove_at reap_stale_retry_lease record_outcome delete_work_id
act (decides case) y = record y { calls = looking case ∷ y.calls }
act (ensures case) y = record y { calls = ensuring case ∷ y.calls }
act (advances n e i) y = advance_at n e i y y.calls
act (dies n) y = record y { calls = remove_at n y.calls }
act (reaps w ts at) y = record y {
  store = store_after y.store (reap_stale_retry_lease w ts at y.store);
}
act (reports o) y = record y { store = store_after y.store (record_outcome o y.store) }
act (deletes w) y = record y { store = (delete_work_id w y.store).1 }

unfoldable pub run : List Act → System → System
unfolding act
run [] y = y
run (a ∷ acts) y = run acts (act a y)
