-- ===== src/Plans/Tests.antt =====
-- The limits and the quota at concrete plans.
use iotaps.Common.{ℕ, ◌≡◌, refl, none, some, []}
use iotaps.Common.Text.{is_word}
use iotaps.Plans.Limits.{limits_for_plan, pro_limits, free_limits}
use iotaps.Plans.Quota.{Month, Meter}

plan_names :
    (limits_for_plan (some " PRO ") ≡ pro_limits) × (limits_for_plan (some "gold") ≡ free_limits)
unfolding limits_for_plan is_word
plan_names = (refl, refl)

abbrev july : Month
july = record { year = 2025; month = 7 }

abbrev meter : ℕ → Meter
meter c = record { counts = λ o t. c; expiries = λ o t. none; prompts = [] }
