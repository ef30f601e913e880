-- ===== src/Ingest/Tests.antt =====
-- The pipeline on messages that are their own envelopes: a number, no envelope where it is 0.
use iotaps.Common.{
  ℕ, zero, suc, String, ◌==◌, if◌then◌else◌, ◌≡◌, refl, false, Option, none, some, [], ◌∷◌, arith,
}
use iotaps.Common.Exec.{ok}
use iotaps.Json.{string, number, object, Fields, end, field, get}
use iotaps.Ingest.Envelope.{
  Envelope, Reading, validate_telemetry_payload, validate_object, flat_readings,
}
use iotaps.Ingest.Batch.{
  RowKey, same_key, Pipeline, Surroundings, process_batch, parse_all, insert_rows, has_key,
}
use iotaps.Ingest.Batch.WriteError.{timescale_unavailable}
use iotaps.Ingest.Drain.{writing_while, process_batch_loses_arrivals}
use iotaps.Ingest.Writer.{run, outage, run_recovers, backoff_initial}

abbrev message : Fields ℕ
message = field "ts" (string "t1") (field "data" (object (field "temp" (number 21) end)) end)

abbrev reading : Reading ℕ
reading = record { ts = "t1"; readings = field "temp" (number 21) end }

abbrev envelope : Envelope ℕ
envelope = record {
  org_id = string "org";
  device_id = "dev";
  ts = "t1";
  readings = field "temp" (number 21) end;
}

-- A message without `ts` and `data` is read as flat, its texts left out.
validate_flat :
    validate_telemetry_payload {N = ℕ} "now"
      (some (field "temp" (number 21) (field "unit" (string "C") end)))
    ≡ some (record { ts = "now"; readings = field "temp" (number 21) end })
unfolding validate_telemetry_payload validate_object get flat_readings
validate_flat = refl

abbrev parse : ℕ → Option ℕ
parse zero = none
parse (suc n) = some n

abbrev stamp : ℕ → String
stamp n = if n == 2 then "2" else if n == 4 then "4" else ""

abbrev key : ℕ → RowKey
key n = record { device_id = "dev"; ts = stamp n }

abbrev full : Pipeline ℕ ℕ
full = record { queue = 5 ∷ 0 ∷ 3 ∷ []; rows = 2 ∷ [] }

abbrev busy : Surroundings ℕ
busy = record {
  before_backlog = 8 ∷ [];
  before_reread = 9 ∷ [];
  before_trim = [];
  write_error = some timescale_unavailable;
}

process_batch_loses_arrivals_example :
    process_batch parse key 9 (writing_while (7 ∷ []) none) full
    ≡ (ok 3, record { queue = 3 ∷ []; rows = 4 ∷ 2 ∷ [] })
unfolding parse_all insert_rows has_key same_key
process_batch_loses_arrivals_example =
    process_batch_loses_arrivals parse key 9 (7 ∷ []) 5 (0 ∷ 3 ∷ []) (2 ∷ []) (omega arith)
      (omega arith)

run_recovers_example : run parse key 2 (outage parse key 2 2) backoff_initial full ≡ record {
  raised = false;
  sleeps = 1 ∷ 2 ∷ [];
  pipeline = record { queue = []; rows = 4 ∷ 2 ∷ [] };
}
unfolding parse_all insert_rows has_key same_key
run_recovers_example = run_recovers parse key 2 2 full 4 (2 ∷ []) refl
