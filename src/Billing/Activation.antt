-- ===== src/Billing/Activation.antt =====
-- From `subscribe` to the webhook event of app/services/subscription_service.py that its payment
-- leads to, and what a coupon takes off.
use iotaps.Common.{
  ℕ, ◌≤◌, ◌≡◌, refl, ap, ◌∙◌, false, String, Option, none, some, List, arith, inl, inr,
}
use iotaps.Common.Exec.{ok, Result-cases}
use iotaps.Common.Store.{put_self}
use iotaps.Command.Service.{TenantScope}
use iotaps.Devices.Tables.{Device}
use iotaps.Billing.Prices.{Cycle, normalize_cycle, unit_price, cycle_name}
use iotaps.Billing.Calendar.{DateTime, add_period}
use iotaps.Billing.Payments.{
  Subscription, SubscriptionStatus, Books, WebhookEvent, Outcome, find_payment, first_where,
  period_base, extend, is_captured, process_webhook_event,
}
use iotaps.Billing.Payments.EventType.{payment_captured}
use iotaps.Billing.Extensions.{extended}
use iotaps.Billing.Captures.{capture_step, captured_now}
use iotaps.Billing.Orders.{
  DiscountType, percent, fixed, unknown, Coupon, round_half_even, discounted, apply_coupon_discount,
  Checkout, Order, new_payment, new_subscription, written, order_for, subscribe_at, subscribe,
  resolve_coupon,
}

bound : (kind : DiscountType) (value total : ℕ) → discounted total kind value ≤ total
unfolding discounted round_half_even
bound percent value total = ground arith
bound fixed value total = ground arith
bound unknown value total = omega arith

-- A coupon never makes a purchase dearer.
pub discount_bound :
    (total : ℕ) (coupon : Option Coupon) → apply_coupon_discount total coupon ≤ total
unfolding apply_coupon_discount
discount_bound total none = omega arith
discount_bound total (some c) = bound c.discount_type c.value total

order_for-ok :
    (org : ℕ) (checkout : Checkout) (count : ℕ) (cycle : Cycle) (price : ℕ) (coupon : Option Coupon)
    (b b' : Books) (order : Order)
    → order_for org checkout count cycle price coupon b ≡ (ok order, b')
    → b' ≡ written org checkout order b
unfolding order_for
order_for-ok org checkout count cycle price coupon b b' order h = ground (arith, h)

module _ (scope : TenantScope) (devices : List Device) (coupons : List Coupon) where
  subscribe_at-ok :
      (checkout : Checkout) (count : ℕ) (cycle : Cycle) (price : ℕ) (device code : Option ℕ)
      (b b' : Books) (order : Order)
      → subscribe_at scope devices coupons checkout count cycle price device code b ≡ (ok order, b')
      → b' ≡ written scope.org_id checkout order b
  unfolding subscribe_at
  subscribe_at-ok checkout count cycle price device code b b' order h =
      let last : (c : Option Coupon)
          → order_for scope.org_id checkout count cycle price c b ≡ (ok order, b')
          → b' ≡ written scope.org_id checkout order b =
        λ c. order_for-ok scope.org_id checkout count cycle price c b b' order in
      elim (Result-cases (resolve_coupon checkout.now coupons code)) [
        | inl (c, e) ↦ ground (arith, h, e, last c)
        | inr (e, k) ↦ ground (arith, h, k)
      ]

  subscribe-ok :
      (checkout : Checkout) (count : ℕ) (text : String) (device code : Option ℕ) (b b' : Books)
      (order : Order)
      → subscribe scope devices coupons checkout count text device code b ≡ (ok order, b')
      → b' ≡ written scope.org_id checkout order b
  unfolding subscribe
  subscribe-ok checkout count text device code b b' order h =
      elim (Result-cases (normalize_cycle text)) [
        | inl (cycle, e) ↦ elim (Result-cases (unit_price count (cycle_name cycle))) [
          | inl (price, k) ↦
              ground
                (arith, h, e, k, subscribe_at-ok checkout count cycle price device code b b' order)
          | inr (x, k) ↦ ground (arith, h, e, k)
        ]
        | inr (x, e) ↦ ground (arith, h, e)
      ]

-- The event finds the payment that was written.
finds_written :
    (org : ℕ) (checkout : Checkout) (order : Order) (b : Books) (e : WebhookEvent)
    → e.order_id ≡ some order.order_id
    → find_payment e.order_id e.entity_id (written org checkout order b).payments
      ≡ some (new_payment org checkout order)
unfolding find_payment first_where written new_payment
finds_written org checkout order b e h = rw h (ground arith)

activates_written :
    (org : ℕ) (checkout : Checkout) (order : Order) (b : Books) (paid_at now : DateTime)
    (e : WebhookEvent)
    → e.event ≡ payment_captured
    → e.order_id ≡ some order.order_id
    → let (outcome, after) = process_webhook_event paid_at now e (written org checkout order b) in
      (outcome ≡ Outcome.captured)
      × (after.subscriptions order.subscription_id
          ≡ some (extend now (new_subscription order.billing_cycle)))
unfolding new_payment
activates_written org checkout order b paid_at now e kind h =
    let p = new_payment org checkout order in
    let start = written org checkout order b in
    let step = capture_step paid_at now e start p kind (finds_written org checkout order b e h) in
    let stored : start.subscriptions order.subscription_id
        ≡ some (new_subscription order.billing_cycle) =
      unfold written in
      put_self order.subscription_id (new_subscription order.billing_cycle) b.subscriptions in
    let fresh : is_captured p.status ≡ false = unfold is_captured in refl in
    let done = captured_now paid_at now e.entity_id p start fresh in
    (
      ap (λ r. r.0) step,
      ap (λ r. r.1.subscriptions order.subscription_id) step
          ∙ ap (λ x. x.subscriptions order.subscription_id) done
          ∙ extended now order.subscription_id (new_subscription order.billing_cycle)
              start.subscriptions stored,
    )

-- A purchase that succeeds leads to an active subscription: the event that its order was paid, on the
-- tables that the purchase left, is answered as captured, and the subscription of the order is active
-- and runs for one period of the order's cycle from the time of the event.
pub purchase_activates :
    (scope : TenantScope) (devices : List Device) (coupons : List Coupon) (checkout : Checkout)
    (count : ℕ) (text : String) (device code : Option ℕ) (b b' : Books) (order : Order)
    (paid_at now : DateTime) (e : WebhookEvent)
    → subscribe scope devices coupons checkout count text device code b ≡ (ok order, b')
    → e.event ≡ payment_captured
    → e.order_id ≡ some order.order_id
    → let (outcome, after) = process_webhook_event paid_at now e b' in
      (s : Subscription) × (outcome ≡ Outcome.captured)
      × (after.subscriptions order.subscription_id ≡ some s)
      × (s.status ≡ SubscriptionStatus.active)
      × (s.current_period_start ≡ some now)
      × (s.current_period_end ≡ some (add_period now order.billing_cycle))
purchase_activates scope devices coupons checkout count text device code b b' order paid_at now e h
      kind id =
    let left = subscribe-ok scope devices coupons checkout count text device code b b' order h in
    let (answer, found) = activates_written scope.org_id checkout order b paid_at now e kind id in
    (
      extend now (new_subscription order.billing_cycle),
      ap (λ x. (process_webhook_event paid_at now e x).0) left ∙ answer,
      ap (λ x. (process_webhook_event paid_at now e x).1.subscriptions order.subscription_id) left
          ∙ found,
      unfold extend in refl,
      unfold extend new_subscription in refl,
      unfold extend new_subscription period_base in refl,
    )
