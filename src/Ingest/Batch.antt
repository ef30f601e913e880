-- ===== src/Ingest/Batch.antt =====
-- `process_batch` and `insert_telemetry` of app/workers/batch_writer.py. The queue has its newest
-- message at the head, where the listener pushes. Other messages may arrive between two of the
-- writer's Redis calls: they are arguments, the newest first. A message is its raw text, which the
-- parameter `parse` decodes (`_parse_envelope`), and `row_key` reads the columns `device_id` and `ts`
-- of a row. Times are compared as they are written.
use text.Mathlib.Text.{◌==◌ as str_eq}
use iotaps.Common.{
  ℕ, ltb, String, Bool, false, ◌&&◌, ◌||◌, Option, none, some, List, [], ◌∷◌, if◌then◌else◌, length,
  take, drop,
}
use iotaps.Common.Exec.{Result, ok, err}
use iotaps.Ingest.Listener.{max_queue_size}

-- Why a write fails.
pub data WriteError : Type 0 where
  timescale_unavailable other_write_error : WriteError

-- `index_elements=["device_id", "ts"]`
pub record RowKey : Type 0 where
  pub device_id : String
  pub ts : String

unfoldable pub same_key : RowKey → RowKey → Bool
same_key a b = str_eq a.device_id b.device_id && str_eq a.ts b.ts

-- The queue and the rows of the hypertable.
pub record Pipeline (R E : Type 0) : Type 0 where
  pub queue : List R
  pub rows : List E

-- What arrives in the queue before the second `LRANGE`, and before the `LTRIM`; whether the
-- database accepts the write.
pub record Surroundings (R : Type 0) : Type 0 where
  pub before_backlog : List R
  pub before_reread : List R
  pub before_trim : List R
  pub write_error : Option WriteError

-- The listener pushes one message after the other, the newest first here, and trims the queue after
-- each: `LPUSH` and `LTRIM`.
abbrev pub pushed : {R : Type 0} → List R → List R → List R
pushed [] q = q
pushed (m ∷ older) q = take max_queue_size (m ∷ pushed older q)

module _ {R E : Type 0} (parse : R → Option E) (row_key : E → RowKey) where
  unfoldable pub parse_all : List R → List E
  parse_all [] = []
  parse_all (raw ∷ rest) = elim (parse raw) [ none ↦ parse_all rest | some e ↦ e ∷ parse_all rest ]

  unfoldable pub has_key : RowKey → List E → Bool
  unfolding same_key
  has_key k [] = false
  has_key k (e ∷ es) = same_key (row_key e) k || has_key k es

  -- `INSERT ... ON CONFLICT (device_id, ts) DO NOTHING`
  unfoldable pub insert_rows : List E → List E → List E
  unfolding has_key
  insert_rows [] rows = rows
  insert_rows (e ∷ es) rows = insert_rows es (if has_key (row_key e) rows then rows else e ∷ rows)

  -- `insert_telemetry`, which is not called for no rows.
  unfoldable pub insert_telemetry :
      Option WriteError → List E → Pipeline R E → Result WriteError Unit × Pipeline R E
  unfolding insert_rows
  insert_telemetry failure [] p = (ok tt, p)
  insert_telemetry none (e ∷ es) p = (ok tt, record p { rows = insert_rows (e ∷ es) p.rows })
  insert_telemetry (some failure) (e ∷ es) p = (err failure, p)

  abbrev pub arrive : List R → Pipeline R E → Pipeline R E
  arrive new p = record p { queue = pushed new p.queue }

  -- `LTRIM queue n -1`, if the write succeeded.
  abbrev pub trim : ℕ → Result WriteError Unit × Pipeline R E → Result WriteError ℕ × Pipeline R E
  trim n (ok u, p) = (ok n, record p { queue = drop n p.queue })
  trim n (err e, p) = (err e, p)

  abbrev pub write_batch :
      Surroundings R → List R → Pipeline R E → Result WriteError ℕ × Pipeline R E
  write_batch around [] p = (ok 0, p)
  write_batch around (r ∷ rest) p =
      trim (length (r ∷ rest))
        (insert_telemetry around.write_error (parse_all (r ∷ rest)) (arrive around.before_trim p))

  unfoldable pub process_batch :
      ℕ → Surroundings R → Pipeline R E → Result WriteError ℕ × Pipeline R E
  unfolding insert_telemetry parse_all
  process_batch batch_size around p =
      let first = take batch_size p.queue in
      let p' = arrive around.before_backlog p in
      let backlog = length p'.queue in
      if ltb batch_size backlog
      then (let p'' = arrive around.before_reread p' in
          write_batch around (take backlog p''.queue) p'')
      else write_batch around first p'
