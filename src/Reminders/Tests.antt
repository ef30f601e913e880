-- ===== src/Reminders/Tests.antt =====
-- One subscription with five days left.
use iotaps.Common.{ℕ, suc, ◌+◌, ◌*◌, ◌≡◌, refl, Bool, true, none, some, [], ◌∷◌, arith, pos}
use iotaps.Common.Rows.{count_where}
use iotaps.Reminders.Due.{
  second, day, Subscription, Reminder, days_until, threshold_of, least, reminder_at, due_reminder,
  due_reminders,
}
use iotaps.Reminders.Sweep.{
  working, missing, blocks, is_guarded, guard_of, already_sent, email_for, after_email, sweep_over,
  sweep,
}
use iotaps.Reminders.OneShot.{same_key, asked_in, reminded_once}

abbrev hour : ℕ
hour = 3600 * second

abbrev ending : Subscription
ending = record {
  id = 3;
  org_id = 7;
  active = true;
  current_period_end = some (10 * day);
  device_count = none;
}

abbrev warning : Reminder
warning = record {
  subscription_id = 3;
  org_id = 7;
  threshold = 7;
  days_left = pos 5;
  period_end = 10 * day;
  device_count = none;
}

five_days_left : due_reminders (ending ∷ []) (5 * day) ≡ warning ∷ []
unfolding due_reminders due_reminder reminder_at days_until threshold_of least
five_days_left = refl

abbrev mailed : Reminder → ℕ → Bool × ℕ
mailed r w = (true, suc w)

-- Without Redis every sweep sends the email again.
missing_redis_repeats :
    (sweep mailed mailed missing
      (5 * day + 6 * hour)
      (ending ∷ [])
      (sweep mailed mailed missing (5 * day) (ending ∷ []) [] 0).guards
      1).world
    ≡ 2
unfolding sweep sweep_over already_sent email_for after_email due_reminders due_reminder reminder_at
    days_until threshold_of least
missing_redis_repeats = refl

-- The guard of a threshold expires before the days that it stands for are over.
second_warning :
    count_where (same_key warning) (
      asked_in mailed mailed
        ((5 * day, ending ∷ [])
          ∷ (5 * day + 24 * hour, ending ∷ [])
          ∷ (5 * day + 30 * hour, ending ∷ [])
          ∷ [])
        []
        0)
    ≡ 2
unfolding sweep sweep_over already_sent email_for after_email due_reminders due_reminder reminder_at
    days_until threshold_of least is_guarded blocks guard_of
second_warning = refl

-- The next day: the guard still stands.
reminded_once_example :
    count_where (same_key warning) (
      asked_in mailed mailed
        ((5 * day + 24 * hour, ending ∷ []) ∷ [])
        (sweep mailed mailed working (5 * day) (ending ∷ []) [] 0).guards
        (sweep mailed mailed working (5 * day) (ending ∷ []) [] 0).world)
    ≡ 0
unfolding sweep sweep_over already_sent email_for after_email due_reminders due_reminder reminder_at
    days_until threshold_of least is_guarded
reminded_once_example =
    reminded_once mailed mailed warning (5 * day) (ending ∷ []) [] 0
      ((5 * day + 24 * hour, ending ∷ []) ∷ []) (omega arith) (omega arith, tt)
