-- ===== src/Plans/Quota.antt =====
-- `count_telemetry_message` of app/services/quota_service.py. A counter is kept for an organization
-- and a month; Redis drops it when the month has ended, so it is never read in another one.
use iotaps.Common.{
  ℕ, ◌+◌, String, Bool, true, false, ◌&&◌, Option, none, some, List, [], ◌∷◌, ◌++◌, ◌==◌,
  if◌then◌else◌,
}
use iotaps.Plans.Limits.{limits_for_plan, is_metered}

-- `MessageType` of app/core/mqtt_topics.py
pub data MessageType : Type 0 where
  telemetry command ack status : MessageType

-- `QUOTA_COUNTED_TYPES`
unfoldable pub is_counted_type : MessageType → Bool
is_counted_type telemetry = true
is_counted_type _ = false

pub record QuotaResult : Type 0 where
  pub counted : Bool
  pub count : ℕ
  pub limit : Option ℕ
  pub upgrade_prompt : Bool

-- A month, as the key has it.
pub record Month : Type 0 where
  pub year : ℕ
  pub month : ℕ

-- The month that begins at the end of the given one.
unfoldable pub end_of_billing_month : Month → Month
end_of_billing_month m =
    if m.month == 12
    then record { year = m.year + 1; month = 1 }
    else record { year = m.year; month = m.month + 1 }

pub record UpgradePrompt : Type 0 where
  pub org_id : ℕ
  pub count : ℕ
  pub limit : ℕ

-- The counters, when each expires, and the prompts that were published.
pub record Meter : Type 0 where
  pub counts : ℕ → Month → ℕ
  pub expiries : ℕ → Month → Option Month
  pub prompts : List UpgradePrompt

abbrev same_month : Month → Month → Bool
same_month a b = a.year == b.year && a.month == b.month

unfoldable pub count_one : ℕ → Month → Meter → Meter
unfolding end_of_billing_month
count_one org now m = record m {
  counts = λ o t. if o == org && same_month t now then m.counts org now + 1 else m.counts o t;
  expiries = λ o t.
      if o == org && same_month t now then some (end_of_billing_month now) else m.expiries o t;
}

-- `_emit_upgrade_prompt`, whose failures are logged and swallowed.
unfoldable pub emit_upgrade_prompt : Bool → ℕ → ℕ → ℕ → Meter → Meter
emit_upgrade_prompt published org count limit m =
    if published
    then record m {
      prompts = m.prompts ++ record { org_id = org; count = count; limit = limit } ∷ [];
    }
    else m

abbrev at_limit : ℕ → Option ℕ → Bool
at_limit count none = false
at_limit count (some limit) = count == limit

abbrev prompt_at : Bool → ℕ → ℕ → Option ℕ → Meter → Meter
prompt_at published org count none m = m
prompt_at published org count (some limit) m =
    if count == limit then emit_upgrade_prompt published org count limit m else m

unfoldable pub count_telemetry_message :
    Bool → ℕ → Option String → MessageType → Month → Meter → QuotaResult × Meter
unfolding is_counted_type
count_telemetry_message published org plan type now m =
    if is_counted_type type
    then (let limit = (limits_for_plan plan).max_messages_per_month in
        if is_metered plan
        then (let counted = count_one org now m in
            let count = counted.counts org now in
            (
              record {
                counted = true;
                count = count;
                limit = limit;
                upgrade_prompt = at_limit count limit;
              },
              prompt_at published org count limit counted,
            ))
        else (record { counted = false; count = 0; limit = limit; upgrade_prompt = false }, m))
    else (record { counted = false; count = 0; limit = none; upgrade_prompt = false }, m)
