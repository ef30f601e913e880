-- ===== src/Plans/Metering.antt =====
-- How the monthly counter and the upgrade prompts move as messages come in.
use iotaps.Common.{
  ℕ, zero, suc, ◌+◌, ◌≡◌, refl, String, Bool, true, false, ◌&&◌, Option, some, [], ◌∷◌, arith,
  length, leb, ltb, ◌==◌, if◌then◌else◌, length-append,
}
use iotaps.Plans.Limits.{limits_for_plan, is_metered}
use iotaps.Plans.Quota.{
  MessageType, is_counted_type, Month, Meter, count_one, emit_upgrade_prompt,
  count_telemetry_message,
}

-- `n` telemetry messages of one organization in one month.
abbrev pub count_many : ℕ → ℕ → Option String → Month → Meter → Meter
count_many zero org plan now m = m
count_many (suc n) org plan now m =
    count_many n org plan now (count_telemetry_message true org plan MessageType.telemetry now m).1

counts-count_one :
    (org : ℕ) (now : Month) (m : Meter)
    → (count_one org now m).counts org now ≡ m.counts org now + 1
unfolding count_one
counts-count_one org now m = ground arith

prompts-count_one : (org : ℕ) (now : Month) (m : Meter) → (count_one org now m).prompts ≡ m.prompts
unfolding count_one
prompts-count_one org now m = refl

metered :
    (limit : ℕ) (plan : Option String)
    → (limits_for_plan plan).max_messages_per_month ≡ some limit
    → is_metered plan ≡ true
unfolding is_metered
metered limit plan h = rw (h, is_metered)

-- The meter after one message of a plan with a limit.
abbrev after_one : ℕ → ℕ → Month → Meter → Meter
after_one org limit now m =
    if m.counts org now + 1 == limit
    then emit_upgrade_prompt true org (m.counts org now + 1) limit (count_one org now m)
    else count_one org now m

metered_one :
    (org limit : ℕ) (plan : Option String) (now : Month) (m : Meter)
    → (limits_for_plan plan).max_messages_per_month ≡ some limit
    → (count_telemetry_message true org plan MessageType.telemetry now m).1
      ≡ after_one org limit now m
unfolding count_telemetry_message
metered_one org limit plan now m h = rw (metered limit plan h, h, counts-count_one org now m)

metered_step :
    (org limit : ℕ) (plan : Option String) (now : Month) (m : Meter)
    → (limits_for_plan plan).max_messages_per_month ≡ some limit
    → let m' = (count_telemetry_message true org plan MessageType.telemetry now m).1 in
      (m'.counts org now ≡ m.counts org now + 1)
      × (length m'.prompts ≡ length m.prompts + (if m.counts org now + 1 == limit then 1 else 0))
metered_step org limit plan now m h = rw (metered_one org limit plan now m h) (
    unfold emit_upgrade_prompt count_one in
    ground (
      arith,
      length-append m.prompts
          (record { org_id = org; count = m.counts org now + 1; limit = limit } ∷ []),
    ))

-- However many messages a metered organization sends in a month, all are counted, and exactly one
-- upgrade prompt is published if the count passes from below the limit to it or beyond, and none
-- otherwise.
pub one_prompt :
    (n org limit : ℕ) (plan : Option String) (now : Month) (m : Meter)
    → (limits_for_plan plan).max_messages_per_month ≡ some limit
    → let m' = count_many n org plan now m in
      (m'.counts org now ≡ m.counts org now + n)
      × (length m'.prompts
          ≡ length m.prompts
            + (if ltb (m.counts org now) limit && leb limit (m.counts org now + n) then 1 else 0))
one_prompt zero org limit plan now m h = ground arith
one_prompt (suc n) org limit plan now m h =
    let m' = (count_telemetry_message true org plan MessageType.telemetry now m).1 in
    ground (arith, metered_step org limit plan now m h, one_prompt n org limit plan now m' h)

-- A message that is no telemetry, or whose plan has no limit, is not counted and changes nothing.
pub unmetered_unchanged :
    (published : Bool) (org : ℕ) (plan : Option String) (type : MessageType) (now : Month)
    (m : Meter)
    → is_counted_type type && is_metered plan ≡ false
    → let (result, m') = count_telemetry_message published org plan type now m in
      (result.counted ≡ false) × (result.upgrade_prompt ≡ false) × (m' ≡ m)
unfolding count_telemetry_message
unmetered_unchanged published org plan type now m h = ground arith
