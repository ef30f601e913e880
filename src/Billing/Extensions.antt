-- ===== src/Billing/Extensions.antt =====
-- How far a capture extends the subscription.
use iotaps.Common.{
  ℕ, ◌≡◌, refl, ap, sym, subst, ◌∙◌, true, false, Option, some, arith, Bool-cases, inl, inr,
  if◌then◌else◌,
}
use iotaps.Common.Store.{put_self}
use iotaps.Billing.Prices.{Cycle}
use iotaps.Billing.Calendar.{DateTime, IsValid, later, add_period}
use iotaps.Billing.Periods.{add_period_lem}
use iotaps.Billing.Payments.{
  Payment, Subscription, SubscriptionStatus, Books, WebhookEvent, Outcome, find_payment,
  period_base, cycle_of, extend, is_captured, extend_subscription, process_webhook_event,
}
use iotaps.Billing.Captures.{capture_step, captured_now}
use iotaps.Billing.Payments.EventType.{payment_captured}

later_trans : (a b c : DateTime) → later a b ≡ true → later b c ≡ true → later a c ≡ true
unfolding later
later_trans a b c h k = ground arith

later_over : (a b c : DateTime) → later a b ≡ true → later c b ≡ false → later a c ≡ true
unfolding later
later_over a b c h k = ground arith

base_ahead :
    (now end_at : DateTime) → later end_at now ≡ true → period_base now (some end_at) ≡ end_at
unfolding period_base
base_ahead now end_at h = rw h

base_over : (now end_at : DateTime) → later end_at now ≡ false → period_base now (some end_at) ≡ now
unfolding period_base
base_over now end_at h = rw h

period_later :
    (now end_at : DateTime) (cycle : Cycle)
    → IsValid now
    → IsValid end_at
    → let n = add_period (period_base now (some end_at)) cycle in
      (later n now ≡ true) × (later n end_at ≡ true)
period_later now end_at cycle vn ve = elim (Bool-cases (later end_at now)) [
  | inl ahead ↦
      (let (valid, after, index, day, second) = add_period_lem end_at cycle ve in
        subst
          (λ x.
            (later (add_period x cycle) now ≡ true) × (later (add_period x cycle) end_at ≡ true))
          (sym (base_ahead now end_at ahead))
          (later_trans (add_period end_at cycle) end_at now after ahead, after))
  | inr over ↦
      (let (valid, after, index, day, second) = add_period_lem now cycle vn in
        subst
          (λ x.
            (later (add_period x cycle) now ≡ true) × (later (add_period x cycle) end_at ≡ true))
          (sym (base_over now end_at over))
          (after, later_over (add_period now cycle) now end_at after over))
]

pub extended :
    (now : DateTime) (k : ℕ) (s : Subscription) (subs : ℕ → Option Subscription)
    → subs k ≡ some s
    → extend_subscription now (some k) subs k ≡ some (extend now s)
unfolding extend_subscription
extended now k s subs h = rw (h, extend_subscription, put_self k (extend now s) subs)

-- The first capture of a payment whose subscription runs to a given date makes the subscription
-- active for one period of its cycle, monthly where it has none, that is counted from the end before, or from the time of the event
-- if that is not earlier. The new end is later than both.
pub capture_extends :
    (paid_at now end_at : DateTime) (e : WebhookEvent) (b : Books) (p : Payment) (k : ℕ)
    (s : Subscription)
    → IsValid now
    → IsValid end_at
    → e.event ≡ payment_captured
    → find_payment e.order_id e.entity_id b.payments ≡ some p
    → is_captured p.status ≡ false
    → p.subscription_id ≡ some k
    → b.subscriptions k ≡ some s
    → s.current_period_end ≡ some end_at
    → let (outcome, b') = process_webhook_event paid_at now e b in
      (s' : Subscription) × (new_end : DateTime) × (outcome ≡ Outcome.captured)
      × (b'.subscriptions k ≡ some s')
      × (s'.status ≡ SubscriptionStatus.active)
      × (s'.current_period_end ≡ some new_end)
      × (new_end ≡ add_period (if later end_at now then end_at else now) (cycle_of s.billing_cycle))
      × (later new_end now ≡ true)
      × (later new_end end_at ≡ true)
capture_extends paid_at now end_at e b p k s vn ve ev f c sub found ends =
    let step = capture_step paid_at now e b p ev f in
    let done = captured_now paid_at now e.entity_id p b c in
    let (one, two) = period_later now end_at (cycle_of s.billing_cycle) vn ve in
    (
      extend now s,
      add_period (period_base now (some end_at)) (cycle_of s.billing_cycle),
      ap (λ r. r.0) step,
      ap (λ r. r.1.subscriptions k) step
          ∙ ap (λ x. x.subscriptions k) done
          ∙ ap (λ i. extend_subscription now i b.subscriptions k) sub
          ∙ extended now k s b.subscriptions found,
      unfold extend in refl,
      unfold extend in
          ap (λ x. some (add_period (period_base now x) (cycle_of s.billing_cycle))) ends,
      unfold period_base in refl,
      one,
      two,
    )
