-- ===== src/Reminders/OneShot.antt =====
-- How often app/workers/subscription_expiry.py reminds of one subscription and threshold.
use iotaps.Common.{
  ℕ, ◌+◌, ◌<◌, ◌≡◌, refl, Bool, true, false, ◌&&◌, List, [], ◌∷◌, ◌++◌, ◌==◌, arith, if◌then◌else◌,
  All,
}
use iotaps.Common.Rows.{keep, count_where, count_where-append}
use iotaps.Reminders.Due.{Subscription, Reminder, due_reminders}
use iotaps.Reminders.Sweep.{
  Guard, guard_ttl, Redis, missing, failing, working, blocks, is_guarded, guard_of, already_sent,
  email_for, after_email, sweep_over, sweep,
}

abbrev pub same_key : Reminder → Reminder → Bool
same_key r s = r.subscription_id == s.subscription_id && r.threshold == s.threshold

-- What a guard blocks depends on the subscription and the threshold only.
is_guarded-same_key :
    (r s : Reminder) (now : ℕ) (guards : List Guard)
    → same_key r s ≡ true
    → is_guarded r now guards ≡ is_guarded s now guards
unfolding is_guarded blocks
is_guarded-same_key r s now [] h = refl
is_guarded-same_key r s now (g ∷ gs) h = ground (arith, is_guarded-same_key r s now gs h)

-- A guard stays when another is set.
is_guarded-already_sent :
    (redis : Redis) (r s : Reminder) (now at : ℕ) (guards : List Guard)
    → is_guarded r at guards ≡ true
    → is_guarded r at (already_sent redis now s guards).1 ≡ true
unfolding already_sent is_guarded
is_guarded-already_sent missing r s now at guards h = h
is_guarded-already_sent failing r s now at guards h = h
is_guarded-already_sent working r s now at guards h = ground (arith, h)

-- A reminder whose email may be asked for is guarded from then on, until the time to live is over.
guarded_once_asked :
    (r s : Reminder) (now at : ℕ) (guards : List Guard)
    → same_key r s ≡ true
    → (already_sent working now s guards).0 ≡ false
    → at < now + guard_ttl
    → is_guarded r at (already_sent working now s guards).1 ≡ true
unfolding already_sent is_guarded blocks guard_of
guarded_once_asked r s now at guards h k before = ground (arith, h, k, before)

module _ {W : Type 0} (notify_expired notify_expiring : Reminder → W → Bool × W) where
  guarded-sweep_over :
      (redis : Redis) (r : Reminder) (now at : ℕ) (rest : List Reminder) (guards : List Guard)
      (w : W)
      → is_guarded r at guards ≡ true
      → is_guarded r at (sweep_over notify_expired notify_expiring redis now rest guards w).guards
        ≡ true
  unfolding sweep_over after_email
  guarded-sweep_over redis r now at [] guards w h = h
  guarded-sweep_over redis r now at (s ∷ rest) guards w h =
      let kept = is_guarded-already_sent redis r s now at guards h in
      let skipped = (already_sent redis now s guards).0 in
      let w' = if skipped then w else (email_for notify_expired notify_expiring s w).1 in
      ground
        (arith, guarded-sweep_over redis r now at rest (already_sent redis now s guards).1 w' kept)

  -- Nothing is asked for a reminder that is guarded.
  unasked-sweep_over :
      (r : Reminder) (now : ℕ) (rest : List Reminder) (guards : List Guard) (w : W)
      → is_guarded r now guards ≡ true
      → count_where
          (same_key r)
          (sweep_over notify_expired notify_expiring working now rest guards w).asked
        ≡ 0
  unfolding sweep_over after_email already_sent
  unasked-sweep_over r now [] guards w h = refl
  unasked-sweep_over r now (s ∷ rest) guards w h =
      let kept = is_guarded-already_sent working r s now now guards h in
      let skipped = (already_sent working now s guards).0 in
      let w' = if skipped then w else (email_for notify_expired notify_expiring s w).1 in
      ground (
        arith,
        unasked-sweep_over r now rest (already_sent working now s guards).1 w' kept,
        is_guarded-same_key r s now guards,
      )

  -- A reminder that is asked for is guarded after the sweep.
  asked-sweep_over :
      (r : Reminder) (now at : ℕ) (rest : List Reminder) (guards : List Guard) (w : W)
      → 0
        < count_where
            (same_key r)
            (sweep_over notify_expired notify_expiring working now rest guards w).asked
      → at < now + guard_ttl
      → is_guarded r at (sweep_over notify_expired notify_expiring working now rest guards w).guards
        ≡ true
  unfolding sweep_over after_email already_sent
  asked-sweep_over r now at [] guards w h before = ground arith
  asked-sweep_over r now at (s ∷ rest) guards w h before =
      let skipped = (already_sent working now s guards).0 in
      let w' = if skipped then w else (email_for notify_expired notify_expiring s w).1 in
      ground (
        arith,
        h,
        before,
        asked-sweep_over r now at rest (already_sent working now s guards).1 w',
        guarded-sweep_over working r now at rest (already_sent working now s guards).1 w',
        guarded_once_asked r s now at guards,
      )

  -- What one sweep after the other asks for.
  abbrev pub asked_in : List (ℕ × List Subscription) → List Guard → W → List Reminder
  asked_in [] guards w = []
  asked_in ((now, subs) ∷ later) guards w =
      let swept = sweep notify_expired notify_expiring working now subs guards w in
      swept.asked ++ asked_in later swept.guards swept.world

  unasked_in :
      (r : Reminder) (until : ℕ) (later : List (ℕ × List Subscription)) (guards : List Guard)
      (w : W)
      → ((at : ℕ) → at < until → is_guarded r at guards ≡ true)
      → All (λ s. s.0 < until) later
      → count_where (same_key r) (asked_in later guards w) ≡ 0
  unfolding sweep
  unasked_in r until [] guards w h before = refl
  unasked_in r until ((now, subs) ∷ later) guards w h (early, before) =
      let due = due_reminders (keep (λ row. row.active) subs) now in
      let swept = sweep_over notify_expired notify_expiring working now due guards w in
      omega (
        arith,
        count_where-append (same_key r) swept.asked (asked_in later swept.guards swept.world),
        unasked-sweep_over r now due guards w (h now early),
        unasked_in r until later swept.guards swept.world
            (λ at soon. guarded-sweep_over working r now at due guards w (h at soon)) before,
      )

  -- While Redis works, a sweep that asks for the email of a subscription and threshold is followed by
  -- no other email of the two until thirty hours have passed, whatever happens to the email and
  -- whatever subscriptions the later sweeps read.
  pub reminded_once :
      (r : Reminder) (now : ℕ) (subs : List Subscription) (guards : List Guard) (w : W)
      (later : List (ℕ × List Subscription))
      → 0
        < count_where
            (same_key r)
            (sweep notify_expired notify_expiring working now subs guards w).asked
      → All (λ s. s.0 < now + guard_ttl) later
      → let swept = sweep notify_expired notify_expiring working now subs guards w in
        count_where (same_key r) (asked_in later swept.guards swept.world) ≡ 0
  unfolding sweep
  reminded_once r now subs guards w later h before =
      let start = sweep notify_expired notify_expiring working now subs guards w in
      unasked_in r (now + guard_ttl) later start.guards start.world
        (λ at early.
          asked-sweep_over r now at (due_reminders (keep (λ row. row.active) subs) now) guards w h
            early)
        before
