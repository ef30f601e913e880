-- ===== src/Plans/Limits.antt =====
-- `PlanLimits`, `limits_for_plan` and its uses (app/services/plan_limits.py),
-- `plan_active_rule_limit` (app/services/rule_service.py) and `policy_for_plan`
-- (app/workers/data_retention.py). An absent numeric limit is unlimited.
use iotaps.Common.{
  ℕ, ◌*◌, ◌≡◌, refl, String, Bool, true, false, not, Option, none, some, arith, if◌then◌else◌,
}
use iotaps.Common.Text.{is_word, is_word-other}

pub record PlanLimits : Type 0 where
  pub plan : String
  pub max_devices : Option ℕ
  pub max_messages_per_month : Option ℕ
  pub retention_days : ℕ
  pub max_sensors : Option ℕ
  pub max_rules : Option ℕ
  pub full_control : Bool

abbrev pub free_limits : PlanLimits
free_limits = record {
  plan = "free";
  max_devices = some 2;
  max_messages_per_month = some 20000;
  retention_days = 7;
  max_sensors = some 10;
  max_rules = some 2;
  full_control = false;
}

abbrev pub pro_limits : PlanLimits
pro_limits = record {
  plan = "pro";
  max_devices = none;
  max_messages_per_month = none;
  retention_days = 90;
  max_sensors = some 20;
  max_rules = none;
  full_control = true;
}

-- The lookup by the stripped, lower-case name; what is not recognised is free.
unfoldable pub limits_for_plan : Option String → PlanLimits
limits_for_plan none = free_limits
limits_for_plan (some p) =
    if is_word p "free" then free_limits else if is_word p "pro" then pro_limits else free_limits

unfoldable pub is_metered : Option String → Bool
unfolding limits_for_plan
is_metered plan = elim (limits_for_plan plan).max_messages_per_month [
  | none ↦ false
  | some n ↦ true
]

unfoldable pub has_full_control : Option String → Bool
unfolding limits_for_plan
has_full_control plan = (limits_for_plan plan).full_control

-- `plan_active_rule_limit`, which makes its own test of the plan.
unfoldable pub plan_active_rule_limit : Option String → Option ℕ
plan_active_rule_limit none = if is_word "" "pro" then none else some 2
plan_active_rule_limit (some p) = if is_word p "pro" then none else some 2

-- `RetentionPolicy`, with its ages in days.
pub record RetentionPolicy : Type 0 where
  pub plan : String
  pub raw_max_age : ℕ
  pub hourly_max_age : ℕ

abbrev pub free_policy : RetentionPolicy
free_policy = record { plan = "free"; raw_max_age = 7; hourly_max_age = 7 }

abbrev pub pro_policy : RetentionPolicy
pro_policy = record { plan = "pro"; raw_max_age = 3 * 30; hourly_max_age = 365 }

unfoldable pub policy_for_plan : Option String → RetentionPolicy
policy_for_plan none = free_policy
policy_for_plan (some p) =
    if is_word p "free" then free_policy else if is_word p "pro" then pro_policy else free_policy

-- The three readings of a plan agree on every plan text: the rules that may be active and the days
-- that raw telemetry is kept are those of the plan's limits, and full control goes with being
-- unmetered.
pub plan_readings_agree :
    (plan : Option String)
    → (plan_active_rule_limit plan ≡ (limits_for_plan plan).max_rules)
      × ((policy_for_plan plan).raw_max_age ≡ (limits_for_plan plan).retention_days)
      × (has_full_control plan ≡ not (is_metered plan))
unfolding plan_active_rule_limit policy_for_plan has_full_control is_metered
plan_readings_agree none = (unfold is_word in refl, refl, refl)
plan_readings_agree (some p) =
    ground (arith, is_word-other p "free" "pro", is_word-other p "pro" "free")
