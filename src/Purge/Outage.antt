-- ===== src/Purge/Outage.antt =====
-- What an outage of the database does to app/workers/data_retention.py.
use iotaps.Common.{
  ℕ, zero, suc, ◌*◌, ◌^◌, min, ◌≡◌, refl, ap, String, true, false, not, Option, List, [], ◌∷◌,
  arith,
}
use native.Mathlib.Nat.{pow-suc}
use iotaps.Common.Rows.{keep}
use iotaps.Purge.Plan.{
  Row, accepts, disconnects, plan_purge_ops, is_known_target, execute, delete_expired, execute_all,
  purge_expired_telemetry,
}
use iotaps.Purge.Loop.{
  Surroundings, sweep_interval, backoff_initial, backoff_max, load_org_plans, sweep_once,
  sleep_then, continue, run,
}
use iotaps.Purge.Expired.{is_past_age, accepted, purges_exactly}

-- The organizations are read, and then every statement fails for want of a connection.
abbrev pub disconnected : List (ℕ × Option String) → ℕ → Surroundings
disconnected orgs now = record {
  query = accepts;
  orgs = orgs;
  answer = λ op. disconnects;
  now = now;
}

abbrev pub connected : List (ℕ × Option String) → ℕ → Surroundings
connected orgs now = record { query = accepts; orgs = orgs; answer = accepted; now = now }

-- `n` sweeps without a connection, and one with it.
abbrev pub outage : ℕ → List (ℕ × Option String) → ℕ → List Surroundings
outage zero orgs now = connected orgs now ∷ []
outage (suc n) orgs now = disconnected orgs now ∷ outage n orgs now

-- `n` delays from the `k`-th on.
abbrev pub delays : ℕ → ℕ → List ℕ
delays k zero = sweep_interval ∷ []
delays k (suc n) = min (2 ^ k) backoff_max ∷ delays (suc k) n

next_delay : (k : ℕ) → min (min (2 ^ k) backoff_max * 2) backoff_max ≡ min (2 ^ suc k) backoff_max
next_delay k = omega (arith, pow-suc 2 k)

-- A lost connection during the deletes is survived.
outage_from :
    (n k org_id : ℕ) (plan : Option String) (orgs : List (ℕ × Option String)) (now : ℕ)
    (rows : List Row)
    → run (outage n ((org_id, plan) ∷ orgs) now) (min (2 ^ k) backoff_max) rows ≡ record {
      raised = false;
      sleeps = delays k n;
      rows = keep (λ row. not (is_past_age ((org_id, plan) ∷ orgs) now row)) rows;
    }
unfolding run continue sweep_once load_org_plans sleep_then purge_expired_telemetry execute_all
    delete_expired plan_purge_ops is_known_target execute
outage_from zero k org_id plan orgs now rows =
    ap (continue (λ b r. run [] b r) (min (2 ^ k) backoff_max))
      (purges_exactly ((org_id, plan) ∷ orgs) now rows)
outage_from (suc n) k org_id plan orgs now rows =
    rw (next_delay k)
      (ap (sleep_then (min (2 ^ k) backoff_max)) (outage_from n (suc k) org_id plan orgs now rows))

-- A connection that is lost during the deletes of a sweep is waited for: after any number of such
-- sweeps, with delays that double from a second up to a minute, the worker has raised nothing and the
-- first sweep that is accepted leaves exactly the rows that are not past the age of their
-- organization's plan.
pub outage_survived :
    (n org_id : ℕ) (plan : Option String) (orgs : List (ℕ × Option String)) (now : ℕ)
    (rows : List Row)
    → run (outage n ((org_id, plan) ∷ orgs) now) backoff_initial rows ≡ record {
      raised = false;
      sleeps = delays 0 n;
      rows = keep (λ row. not (is_past_age ((org_id, plan) ∷ orgs) now row)) rows;
    }
outage_survived n = outage_from n 0

-- A connection that is lost while the organizations are read stops the worker, whatever is left to
-- sweep.
pub outage_stops :
    (around : Surroundings) (rest : List Surroundings) (backoff : ℕ) (rows : List Row)
    → around.query ≡ disconnects
    → run (around ∷ rest) backoff rows ≡ record { raised = true; sleeps = []; rows = rows }
unfolding run continue sweep_once load_org_plans
outage_stops around rest backoff rows h = rw h refl
