-- ===== src/Authority/Calls.antt =====
-- A call of the store as data, and any sequence of calls, as the processes that share the database
-- file make them one after another.
use inferrail.Common.{ℕ, String, Option, List, [], ◌∷◌}
use inferrail.Common.Money.{Amount}
use inferrail.Authority.State.{Ledger}
use inferrail.Authority.Api.{create_root, reserve, grant, consume, settle}
use inferrail.Authority.Closing.{mark_revocation_started}

pub data Call : Type 0 where
  opens : String → String → String → Amount → Call
  reserves : String → String → String → String → Amount → Call
  grants : String → String → Amount → Call
  consumes : String → String → Option Amount → Call
  settles : String → String → String → Call
  revokes : String → Call

unfoldable pub step : ℕ → Call → Ledger → Ledger
step now (opens e d agent x) st = (create_root now e d agent x st).1
step now (reserves e p d agent x) st = (reserve now e p d agent x st).1
step now (grants e d x) st = (grant now e d x st).1
step now (consumes e d x) st = (consume now e d x st).1
step now (settles e d outcome) st = (settle now e d outcome st).1
step now (revokes d) st = (mark_revocation_started now d st).1

unfoldable pub run : Ledger → List (ℕ × Call) → Ledger
run st [] = st
run st ((now, c) ∷ calls) = run (step now c st) calls
