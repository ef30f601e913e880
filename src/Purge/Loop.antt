-- ===== src/Purge/Loop.antt =====
-- `load_org_plans` and `run` of app/workers/data_retention.py. A run sweeps once for each of the given
-- surroundings, after which the stop event is set. Seconds are whole.
use iotaps.Common.{ℕ, ◌*◌, min, String, Bool, true, false, Option, List, [], ◌∷◌}
use iotaps.Common.Exec.{Result, ok, err}
use iotaps.Purge.Plan.{
  Row, PurgeOp, PurgeError, timescale_unavailable, unknown_target, other_error, Answer, accepts,
  disconnects, refuses, purge_expired_telemetry,
}

-- What one sweep meets: how the query of the organizations is answered and what it reads, how each
-- statement is answered, and the time.
pub record Surroundings : Type 0 where
  pub query : Answer
  pub orgs : List (ℕ × Option String)
  pub answer : PurgeOp → Answer
  pub now : ℕ

abbrev pub sweep_interval : ℕ
sweep_interval = 3600

abbrev pub backoff_initial : ℕ
backoff_initial = 1

abbrev pub backoff_max : ℕ
backoff_max = 60

-- Unlike `delete_expired`, it passes on what the database raises.
unfoldable pub load_org_plans : Surroundings → Result PurgeError (List (ℕ × Option String))
load_org_plans around = elim around.query [
  | accepts ↦ ok around.orgs
  | disconnects ↦ err other_error
  | refuses ↦ err other_error
]

unfoldable pub sweep_once : Surroundings → List Row → Result PurgeError ℕ × List Row
unfolding load_org_plans
sweep_once around rows = elim (load_org_plans around) [
  | err e ↦ (err e, rows)
  | ok orgs ↦ purge_expired_telemetry around.answer orgs around.now rows
]

-- How a run ends, the times that it slept, and the rows that it leaves.
pub record RunResult : Type 0 where
  pub raised : Bool
  pub sleeps : List ℕ
  pub rows : List Row

unfoldable pub sleep_then : ℕ → RunResult → RunResult
sleep_then seconds r = record r { sleeps = seconds ∷ r.sleeps }

-- What a sweep leads to.
unfoldable pub continue :
    (ℕ → List Row → RunResult) → ℕ → Result PurgeError ℕ × List Row → RunResult
unfolding sleep_then
continue go backoff (err timescale_unavailable, rows) =
    sleep_then backoff (go (min (backoff * 2) backoff_max) rows)
continue go backoff (err unknown_target, rows) = record { raised = true; sleeps = []; rows = rows }
continue go backoff (err other_error, rows) = record { raised = true; sleeps = []; rows = rows }
continue go backoff (ok n, rows) = sleep_then sweep_interval (go backoff_initial rows)

unfoldable pub run : List Surroundings → ℕ → List Row → RunResult
unfolding continue sweep_once
run [] backoff rows = record { raised = false; sleeps = []; rows = rows }
run (around ∷ rest) backoff rows = continue (λ b r. run rest b r) backoff (sweep_once around rows)
