-- ===== src/Reminders/Sweep.antt =====
-- `_already_sent` and `sweep` of app/workers/subscription_expiry.py. Redis keeps a guard for each
-- subscription and threshold until it expires. The two emails are parameters over a state of theirs
-- and answer whether they returned.
use iotaps.Common.{
  ℕ, suc, ◌+◌, ◌*◌, Bool, true, false, ◌&&◌, List, [], ◌∷◌, ltb, ◌==◌, if◌then◌else◌,
}
use iotaps.Common.Rows.{keep}
use iotaps.Reminders.Due.{second, Subscription, Reminder, due_reminders}

abbrev pub guard_ttl : ℕ
guard_ttl = 30 * 3600 * second

pub record Guard : Type 0 where
  pub subscription_id : ℕ
  pub threshold : ℕ
  pub until : ℕ

-- How Redis answers: there is no client, a call raises, or it works.
pub data Redis : Type 0 where
  missing failing working : Redis

unfoldable pub blocks : Reminder → ℕ → Guard → Bool
blocks r now g =
    (g.subscription_id == r.subscription_id && g.threshold == r.threshold) && ltb now g.until

unfoldable pub is_guarded : Reminder → ℕ → List Guard → Bool
unfolding blocks
is_guarded r now [] = false
is_guarded r now (g ∷ gs) = if blocks r now g then true else is_guarded r now gs

unfoldable pub guard_of : Reminder → ℕ → Guard
guard_of r now = record {
  subscription_id = r.subscription_id;
  threshold = r.threshold;
  until = now + guard_ttl;
}

-- `SET key NX EX`, which answers whether the key was set.
unfoldable pub already_sent : Redis → ℕ → Reminder → List Guard → Bool × List Guard
unfolding is_guarded guard_of
already_sent missing now r guards = (false, guards)
already_sent failing now r guards = (false, guards)
already_sent working now r guards =
    if is_guarded r now guards then (true, guards) else (false, guard_of r now ∷ guards)

-- The reminders that an email was asked for, with the count of the emails that were sent.
pub record Swept (W : Type 0) : Type 0 where
  pub asked : List Reminder
  pub sent : ℕ
  pub guards : List Guard
  pub world : W

module _ {W : Type 0} (notify_expired notify_expiring : Reminder → W → Bool × W) where
  unfoldable pub email_for : Reminder → W → Bool × W
  email_for r w = if r.threshold == 0 then notify_expired r w else notify_expiring r w

  unfoldable pub after_email : Reminder → Bool → Swept W → Swept W
  after_email r true rest = record rest { asked = r ∷ rest.asked; sent = suc rest.sent }
  after_email r false rest = record rest { asked = r ∷ rest.asked }

  unfoldable pub sweep_over : Redis → ℕ → List Reminder → List Guard → W → Swept W
  unfolding already_sent email_for after_email
  sweep_over redis now [] guards w = record { asked = []; sent = 0; guards = guards; world = w }
  sweep_over redis now (r ∷ rest) guards w =
      let (skipped, guards') = already_sent redis now r guards in
      let (returned, w') = email_for r w in
      let next = sweep_over redis now rest guards' (if skipped then w else w') in
      if skipped then next else after_email r returned next

  unfoldable pub sweep : Redis → ℕ → List Subscription → List Guard → W → Swept W
  unfolding sweep_over due_reminders
  sweep redis now rows guards w =
      sweep_over redis now (due_reminders (keep (λ row. row.active) rows) now) guards w
