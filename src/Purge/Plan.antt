-- ===== src/Purge/Plan.antt =====
-- `plan_purge_ops`, `delete_expired` and `purge_expired_telemetry` of app/workers/data_retention.py,
-- with the policies of Plans. Times are seconds.
use text.Mathlib.Text.{◌==◌ as str_eq}
use iotaps.Common.{
  ℕ, ◌+◌, ◌-◌, ◌*◌, String, Bool, not, ◌&&◌, Option, List, [], ◌∷◌, ltb, ◌==◌, if◌then◌else◌,
}
use iotaps.Common.Exec.{Result, ok, err}
use iotaps.Common.Rows.{keep, count_where}
use iotaps.Plans.Limits.{policy_for_plan}

-- The columns of the hypertable `telemetry` that are read here.
pub record Row : Type 0 where
  pub org_id : ℕ
  pub ts : ℕ

pub record PurgeOp : Type 0 where
  pub table : String
  pub time_column : String
  pub org_id : ℕ
  pub cutoff : ℕ

pub data PurgeError : Type 0 where
  timescale_unavailable unknown_target other_error : PurgeError

-- What the database makes of a statement.
pub data Answer : Type 0 where
  accepts disconnects refuses : Answer

abbrev pub raw_table : String
raw_table = "telemetry"

abbrev pub raw_time_column : String
raw_time_column = "ts"

abbrev pub seconds_per_day : ℕ
seconds_per_day = 86400

-- The cutoff of an organization under its plan.
unfoldable pub cutoff_for : Option String → ℕ → ℕ
cutoff_for plan now = now - (policy_for_plan plan).raw_max_age * seconds_per_day

unfoldable pub plan_purge_ops : ℕ → Option String → ℕ → List PurgeOp
unfolding cutoff_for
plan_purge_ops org_id plan now =
    record {
      table = raw_table;
      time_column = raw_time_column;
      org_id = org_id;
      cutoff = cutoff_for plan now;
    }
    ∷ []

unfoldable pub is_known_target : PurgeOp → Bool
is_known_target op = str_eq op.table raw_table && str_eq op.time_column raw_time_column

-- The `WHERE` of the statement.
unfoldable pub is_expired : PurgeOp → Row → Bool
is_expired op row = row.org_id == op.org_id && ltb row.ts op.cutoff

unfoldable pub execute : Answer → PurgeOp → List Row → Result PurgeError ℕ × List Row
unfolding is_expired
execute accepts op rows =
    (ok (count_where (is_expired op) rows), keep (λ row. not (is_expired op row)) rows)
execute disconnects op rows = (err timescale_unavailable, rows)
execute refuses op rows = (err other_error, rows)

unfoldable pub delete_expired :
    (PurgeOp → Answer) → PurgeOp → List Row → Result PurgeError ℕ × List Row
unfolding is_known_target execute
delete_expired answer op rows =
    if is_known_target op then execute (answer op) op rows else (err unknown_target, rows)

unfoldable pub add_deleted : ℕ → Result PurgeError ℕ × List Row → Result PurgeError ℕ × List Row
add_deleted n (ok m, rows) = (ok (n + m), rows)
add_deleted n (err e, rows) = (err e, rows)

unfoldable pub execute_all :
    (PurgeOp → Answer) → List PurgeOp → List Row → Result PurgeError ℕ × List Row
unfolding delete_expired add_deleted
execute_all answer [] rows = (ok 0, rows)
execute_all answer (op ∷ ops) rows =
    let (result, rows') = delete_expired answer op rows in
    let rest = execute_all answer ops rows' in
    elim result [ err e ↦ (err e, rows') | ok n ↦ add_deleted n rest ]

unfoldable pub purge_expired_telemetry :
    (PurgeOp → Answer) → List (ℕ × Option String) → ℕ → List Row → Result PurgeError ℕ × List Row
unfolding execute_all add_deleted
purge_expired_telemetry answer [] now rows = (ok 0, rows)
purge_expired_telemetry answer ((org_id, plan) ∷ orgs) now rows =
    let (result, rows') = execute_all answer (plan_purge_ops org_id plan now) rows in
    let rest = purge_expired_telemetry answer orgs now rows' in
    elim result [ err e ↦ (err e, rows') | ok n ↦ add_deleted n rest ]
