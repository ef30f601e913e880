-- ===== src/Purge/Tests.antt =====
-- Two organizations, one on each plan.
use iotaps.Common.{ℕ, ◌*◌, ◌-◌, ◌≡◌, refl, String, not, Option, none, some, List, [], ◌∷◌}
use iotaps.Common.Exec.{ok}
use iotaps.Common.Rows.{keep, count_where}
use iotaps.Common.Text.{is_word}
use iotaps.Plans.Limits.{policy_for_plan}
use iotaps.Purge.Plan.{
  Row, plan_purge_ops, cutoff_for, is_known_target, is_expired, execute, delete_expired,
  add_deleted, execute_all, purge_expired_telemetry, seconds_per_day,
}
use iotaps.Purge.Expired.{accepted, is_past_age, purges_exactly}

abbrev orgs : List (ℕ × Option String)
orgs = (1, none) ∷ (2, some " Pro ") ∷ []

abbrev aged : ℕ → ℕ → Row
aged org days = record { org_id = org; ts = (100 - days) * seconds_per_day }

two_deleted :
    purge_expired_telemetry accepted orgs
      (100 * seconds_per_day)
      (aged 1 7 ∷ aged 1 8 ∷ aged 2 90 ∷ aged 2 91 ∷ aged 3 99 ∷ [])
    ≡ (ok 2, aged 1 7 ∷ aged 2 90 ∷ aged 3 99 ∷ [])
unfolding purge_expired_telemetry execute_all delete_expired is_known_target execute is_expired
    plan_purge_ops add_deleted cutoff_for policy_for_plan is_word
two_deleted = refl

purges_exactly_example :
    purge_expired_telemetry accepted orgs (100 * seconds_per_day) (aged 1 8 ∷ aged 2 90 ∷ []) ≡ (
      ok (count_where (is_past_age orgs (100 * seconds_per_day)) (aged 1 8 ∷ aged 2 90 ∷ [])),
      keep (λ row. not (is_past_age orgs (100 * seconds_per_day) row)) (aged 1 8 ∷ aged 2 90 ∷ []),
    )
purges_exactly_example = purges_exactly orgs (100 * seconds_per_day) (aged 1 8 ∷ aged 2 90 ∷ [])
