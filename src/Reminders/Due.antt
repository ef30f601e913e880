-- ===== src/Reminders/Due.antt =====
-- `days_until` and `due_reminders` of app/workers/subscription_expiry.py. Times are microseconds, in
-- one time zone.
use iotaps.Common.{
  ℕ, zero, suc, ◌+◌, ◌-◌, ◌*◌, ◌/◌, ◌≤◌, ◌<◌, min, ◌≡◌, Bool, Option, none, some, List, [], ◌∷◌,
  leb, arith, if◌then◌else◌, ℤ, pos, negsuc,
}
use iotaps.Common.Rows.{keep}

abbrev pub second : ℕ
second = 1000000

abbrev pub day : ℕ
day = 86400 * second

unfoldable pub neg : ℕ → ℤ
neg zero = pos 0
neg (suc n) = negsuc n

-- The quotient is rounded up.
unfoldable pub days_until : ℕ → ℕ → ℤ
unfolding neg
days_until period_end now =
    if leb now period_end
    then pos ((period_end - now + (day - 1)) / day)
    else neg ((now - period_end) / day)

abbrev pub warning_thresholds : List ℕ
warning_thresholds = 7 ∷ 3 ∷ 1 ∷ []

-- The columns of `subscriptions` that are read here; `active` is whether the status is that word.
pub record Subscription : Type 0 where
  pub id : ℕ
  pub org_id : ℕ
  pub active : Bool
  pub current_period_end : Option ℕ
  pub device_count : Option ℕ

pub record Reminder : Type 0 where
  pub subscription_id : ℕ
  pub org_id : ℕ
  pub threshold : ℕ
  pub days_left : ℤ
  pub period_end : ℕ
  pub device_count : Option ℕ

-- `min(candidates)`, if there are any.
unfoldable pub least : List ℕ → Option ℕ
least [] = none
least (t ∷ ts) = elim (least ts) [ none ↦ some t | some m ↦ some (min t m) ]

unfoldable pub threshold_of : ℤ → Option ℕ
unfolding least
threshold_of (negsuc n) = some 0
threshold_of (pos zero) = some 0
threshold_of (pos (suc n)) = least (keep (leb (suc n)) warning_thresholds)

unfoldable pub reminder_at : Subscription → ℕ → ℕ → Option Reminder
unfolding days_until threshold_of
reminder_at sub period_end now = elim (threshold_of (days_until period_end now)) [
  | none ↦ none
  | some t ↦ some record {
    subscription_id = sub.id;
    org_id = sub.org_id;
    threshold = t;
    days_left = days_until period_end now;
    period_end = period_end;
    device_count = sub.device_count;
  }
]

unfoldable pub due_reminder : ℕ → Subscription → Option Reminder
unfolding reminder_at
due_reminder now sub = elim sub.current_period_end [
  | none ↦ none
  | some period_end ↦ if sub.active then reminder_at sub period_end now else none
]

unfoldable pub due_reminders : List Subscription → ℕ → List Reminder
unfolding due_reminder
due_reminders [] now = []
due_reminders (sub ∷ subs) now =
    let rest = due_reminders subs now in
    elim (due_reminder now sub) [ none ↦ rest | some r ↦ r ∷ rest ]

-- The threshold of a subscription with days left is the least that is not below them, and there is
-- none exactly if more than a week is left.
pub threshold_of_lem :
    (n : ℕ)
    → threshold_of (pos (suc n))
      ≡ (if leb n 0 then some 1 else if leb n 2 then some 3 else if leb n 6 then some 7 else none)
unfolding threshold_of least
threshold_of_lem n = ground arith

-- While a period has not ended, the days left bound the time left from above, by less than a day.
pub days_until_lem :
    (period_end now : ℕ)
    → now ≤ period_end
    → (n : ℕ) × (days_until period_end now ≡ pos n)
      × (period_end ≤ now + n * day)
      × (now + n * day < period_end + day)
unfolding days_until
days_until_lem period_end now h =
    ((period_end - now + (day - 1)) / day, ground (arith, h), omega (arith, h), omega (arith, h))
