-- ===== src/Purge/Expired.antt =====
-- Which rows app/workers/data_retention.py deletes.
use iotaps.Common.{
  ℕ, ◌+◌, ◌*◌, ◌≡◌, refl, sym, ap, String, Bool, true, false, not, ◌&&◌, ◌||◌, Option, List, [],
  ◌∷◌, ltb, ◌==◌, arith,
}
use iotaps.Common.Exec.{ok}
use iotaps.Common.Rows.{keep, count_where}
use iotaps.Plans.Limits.{limits_for_plan, plan_readings_agree}
use iotaps.Purge.Plan.{
  Row, PurgeOp, raw_table, raw_time_column, Answer, accepts, cutoff_for, plan_purge_ops,
  is_known_target, is_expired, execute, delete_expired, add_deleted, execute_all,
  purge_expired_telemetry,
}

-- A row of a listed organization is past the age that the organization's plan keeps.
abbrev pub is_past_age : List (ℕ × Option String) → ℕ → Row → Bool
is_past_age [] now row = false
is_past_age ((org_id, plan) ∷ orgs) now row =
    row.org_id == org_id && ltb (row.ts + (limits_for_plan plan).retention_days * 86400) now
    || is_past_age orgs now row

-- A sweep that the database accepts.
abbrev pub accepted : PurgeOp → Answer
accepted op = accepts

count-nothing : (rows : List Row) → count_where (λ row. false) rows ≡ 0
count-nothing [] = refl
count-nothing (row ∷ rows) = count-nothing rows

keep-everything : (rows : List Row) → keep (λ row. true) rows ≡ rows
keep-everything [] = refl
keep-everything (row ∷ rows) = ap (λ r. row ∷ r) (keep-everything rows)

-- The statement deletes what is past the age of the plan's limits.
is_expired_lem :
    (plan : Option String) (now org_id : ℕ) (row : Row)
    → is_expired
        (record {
          table = raw_table;
          time_column = raw_time_column;
          org_id = org_id;
          cutoff = cutoff_for plan now;
        })
        row
      ≡ (row.org_id == org_id && ltb (row.ts + (limits_for_plan plan).retention_days * 86400) now)
unfolding is_expired cutoff_for
is_expired_lem plan now org_id row = rw (sym (plan_readings_agree plan).1) (ground arith)

keep-cong :
    (p q : Row → Bool) (rows : List Row) → ((row : Row) → p row ≡ q row) → keep p rows ≡ keep q rows
keep-cong p q [] h = refl
keep-cong p q (row ∷ rows) h = rw (h row, keep-cong p q rows h) refl

count-cong :
    (p q : Row → Bool) (rows : List Row)
    → ((row : Row) → p row ≡ q row)
    → count_where p rows ≡ count_where q rows
count-cong p q [] h = refl
count-cong p q (row ∷ rows) h = rw (h row, count-cong p q rows h) refl

keep-split :
    (p q : Row → Bool) (rows : List Row)
    → keep (λ row. not (q row)) (keep (λ row. not (p row)) rows)
      ≡ keep (λ row. not (p row || q row)) rows
keep-split p q [] = refl
keep-split p q (row ∷ rows) = ground (arith, keep-split p q rows)

count-split :
    (p q : Row → Bool) (rows : List Row)
    → count_where p rows + count_where q (keep (λ row. not (p row)) rows)
      ≡ count_where (λ row. p row || q row) rows
count-split p q [] = ground arith
count-split p q (row ∷ rows) = ground (arith, count-split p q rows)

-- A sweep whose statements the database accepts deletes from the raw hypertable exactly the rows of
-- the listed organizations that are older than the age that the plan of their organization keeps, and
-- returns their number. The hourly rows have no part in it.
pub purges_exactly :
    (orgs : List (ℕ × Option String)) (now : ℕ) (rows : List Row)
    → purge_expired_telemetry accepted orgs now rows ≡ (
      ok (count_where (is_past_age orgs now) rows),
      keep (λ row. not (is_past_age orgs now row)) rows,
    )
unfolding purge_expired_telemetry execute_all delete_expired is_known_target execute is_expired
    plan_purge_ops add_deleted
purges_exactly [] now rows = rw (count-nothing rows, keep-everything rows) refl
purges_exactly ((org_id, plan) ∷ orgs) now rows =
    let op : PurgeOp = record {
      table = raw_table;
      time_column = raw_time_column;
      org_id = org_id;
      cutoff = cutoff_for plan now;
    } in
    let kept = keep (λ row. not (is_expired op row)) rows in
    let past = is_past_age ((org_id, plan) ∷ orgs) now in
    let either : Row → Bool = λ row. is_expired op row || is_past_age orgs now row in
    let same : (row : Row) → either row ≡ past row =
      λ row. ap (λ b. b || is_past_age orgs now row) (is_expired_lem plan now org_id row) in
    ground (
      arith,
      purges_exactly orgs now kept,
      keep-split (is_expired op) (is_past_age orgs now) rows,
      keep-cong (λ row. not (either row)) (λ row. not (past row)) rows (λ row. ap not (same row)),
      count-split (is_expired op) (is_past_age orgs now) rows,
      count-cong either past rows same,
    )
