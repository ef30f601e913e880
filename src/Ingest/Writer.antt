-- ===== src/Ingest/Writer.antt =====
-- `run` of app/workers/batch_writer.py and the discovery of datastreams left aside: a run polls once
-- for each of the given surroundings, after which the stop event is set. Seconds are counted in
-- halves, so the backoff starts at 1 and is at most 60.
use iotaps.Common.{
  ℕ, zero, suc, ◌*◌, ◌^◌, min, ◌≡◌, refl, Bool, true, false, Option, none, some, List, [], ◌∷◌,
  arith, length,
}
use iotaps.Common.Exec.{Result, ok, err}
use iotaps.Ingest.Batch.{RowKey, WriteError, Pipeline, Surroundings, parse_all, process_batch}
use native.Mathlib.Nat.{pow-suc}
use iotaps.Ingest.Batch.WriteError.{timescale_unavailable, other_write_error}
use iotaps.Ingest.Drain.{quiet, drained, process_batch-drains, process_batch-refused}

abbrev pub backoff_initial : ℕ
backoff_initial = 1

abbrev pub backoff_max : ℕ
backoff_max = 60

abbrev pub empty_sleep : ℕ
empty_sleep = 120

-- How a run ends, the times that it slept, and the pipeline that it leaves.
pub record RunResult (R E : Type 0) : Type 0 where
  pub raised : Bool
  pub sleeps : List ℕ
  pub pipeline : Pipeline R E

abbrev sleep : {R E : Type 0} → ℕ → RunResult R E → RunResult R E
sleep seconds r = record r { sleeps = seconds ∷ r.sleeps }

module _ {R E : Type 0} where
  -- What a poll leads to, by what `process_batch` gave.
  unfoldable pub continue :
      (ℕ → Pipeline R E → RunResult R E) → ℕ → Result WriteError ℕ × Pipeline R E → RunResult R E
  continue go backoff (err timescale_unavailable, p) =
      sleep backoff (go (min (backoff * 2) backoff_max) p)
  continue go backoff (err other_write_error, p) = record {
    raised = true;
    sleeps = [];
    pipeline = p;
  }
  continue go backoff (ok zero, p) = sleep empty_sleep (go backoff_initial p)
  continue go backoff (ok (suc n), p) = go backoff_initial p

module _ {R E : Type 0} (parse : R → Option E) (row_key : E → RowKey) (batch_size : ℕ) where
  unfoldable pub run : List (Surroundings R) → ℕ → Pipeline R E → RunResult R E
  unfolding continue
  run [] backoff p = record { raised = false; sleeps = []; pipeline = p }
  run (around ∷ rest) backoff p =
      continue (λ b q. run rest b q) backoff (process_batch parse row_key batch_size around p)

  -- The database is unavailable for `n` polls and then accepts the write.
  abbrev pub outage : ℕ → List (Surroundings R)
  outage zero = quiet none ∷ []
  outage (suc n) = quiet (some timescale_unavailable) ∷ outage n

  -- `n` delays from the `k`-th on.
  abbrev pub delays : ℕ → ℕ → List ℕ
  delays k zero = []
  delays k (suc n) = min (2 ^ k) backoff_max ∷ delays (suc k) n

  next_delay : (k : ℕ) → min (min (2 ^ k) backoff_max * 2) backoff_max ≡ min (2 ^ suc k) backoff_max
  next_delay k = omega (arith, pow-suc 2 k)

  continue-some :
      (q : List R) (e : E) (es : List E)
      → parse_all parse row_key q ≡ e ∷ es
      → (backoff : ℕ) (p : Pipeline R E)
      → continue (λ b x. run [] b x) backoff (ok (length q), p)
        ≡ record { raised = false; sleeps = []; pipeline = p }
  unfolding run
  continue-some [] e es h backoff p = absurd (unfold parse_all in ground arith)
  continue-some (r ∷ rest) e es h backoff p = refl

  accepted :
      (backoff : ℕ) (p : Pipeline R E) (e : E) (es : List E)
      → parse_all parse row_key p.queue ≡ e ∷ es
      → run (quiet none ∷ []) backoff p
        ≡ record { raised = false; sleeps = []; pipeline = drained parse row_key p }
  unfolding run
  accepted backoff p e es h = rw (
    process_batch-drains parse row_key batch_size p,
    continue-some p.queue e es h backoff (drained parse row_key p),
  )

  recovers_from :
      (n k : ℕ) (p : Pipeline R E) (e : E) (es : List E)
      → parse_all parse row_key p.queue ≡ e ∷ es
      → run (outage n) (min (2 ^ k) backoff_max) p
        ≡ record { raised = false; sleeps = delays k n; pipeline = drained parse row_key p }
  unfolding run
  recovers_from zero k p e es h = accepted (min (2 ^ k) backoff_max) p e es h
  recovers_from (suc n) k p e es h = rw (
    process_batch-refused parse row_key batch_size timescale_unavailable p e es h,
    next_delay k,
    recovers_from n (suc k) p e es h,
  )

  -- However many polls find the database unavailable while nothing else arrives, a run that has a
  -- parsable message in its queue does not stop: it waits before each retry twice as long as before, from
  -- half a second up to thirty, and the first poll that is accepted drains the queue as if none had
  -- failed.
  pub run_recovers :
      (n : ℕ) (p : Pipeline R E) (e : E) (es : List E)
      → parse_all parse row_key p.queue ≡ e ∷ es
      → run (outage n) backoff_initial p
        ≡ record { raised = false; sleeps = delays 0 n; pipeline = drained parse row_key p }
  run_recovers n p e es h = recovers_from n 0 p e es h
