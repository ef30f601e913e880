-- ===== src/Billing/Orders.antt =====
-- `apply_coupon_discount`, `_resolve_coupon` and `subscribe` of app/services/subscription_service.py.
-- The value of a coupon is in hundredths of a percent or of a rupee, and what Python computes in floats
-- is computed exactly. Of the row of a subscription, only what the webhook events read is kept.
use iotaps.Common.{
  ℕ, suc, ◌+◌, ◌*◌, ◌-◌, ◌/◌, ◌%◌, Bool, true, false, String, Option, none, some, List, ◌∷◌, ltb,
  leb, ◌==◌, if◌then◌else◌,
}
use iotaps.Common.Exec.{Result, ok, err}
use iotaps.Common.Rows.{find_where}
use iotaps.Common.Store.{put}
use iotaps.Command.Service.{TenantScope}
use iotaps.Devices.Tables.{Device, owned_device}
use iotaps.Billing.Prices.{Cycle, BillingError, normalize_cycle, unit_price, cycle_name}
use iotaps.Billing.Calendar.{DateTime, later}
use iotaps.Billing.Payments.{PaymentStatus, SubscriptionStatus, Payment, Subscription, Books}

pub data DiscountType : Type 0 where
  percent fixed unknown : DiscountType

pub record Coupon : Type 0 where
  pub id : ℕ
  pub code : ℕ
  pub discount_type : DiscountType
  pub value : ℕ
  pub max_redemptions : Option ℕ
  pub redemptions : ℕ
  pub valid_until : Option DateTime
  pub active : Bool

pub data SubscribeError : Type 0 where
  billing : BillingError → SubscribeError
  device_not_found coupon_not_found coupon_inactive coupon_expired : SubscribeError
  coupon_exhausted order_failed : SubscribeError

-- `round(n / d)`, with halves to the even side.
unfoldable pub round_half_even : ℕ → ℕ → ℕ
round_half_even n d =
    if ltb (2 * (n % d)) d
    then n / d
    else if ltb d (2 * (n % d))
    then suc (n / d)
    else n / d + (n / d) % 2

unfoldable pub discounted : ℕ → DiscountType → ℕ → ℕ
unfolding round_half_even
discounted total percent value = round_half_even (total * 10000 - total * value) 10000
discounted total fixed value = round_half_even (total * 100 - value) 100
discounted total unknown value = total

unfoldable pub apply_coupon_discount : ℕ → Option Coupon → ℕ
unfolding discounted
apply_coupon_discount total none = total
apply_coupon_discount total (some c) = discounted total c.discount_type c.value

unfoldable pub is_past : DateTime → Option DateTime → Bool
is_past now none = false
is_past now (some until) = later now until

unfoldable pub is_exhausted : Coupon → Bool
is_exhausted c = elim c.max_redemptions [ none ↦ false | some most ↦ leb most c.redemptions ]

unfoldable pub usable : DateTime → Coupon → Result SubscribeError (Option Coupon)
unfolding is_past is_exhausted
usable now c =
    if c.active
    then if is_past now c.valid_until
      then err SubscribeError.coupon_expired
      else if is_exhausted c
      then err SubscribeError.coupon_exhausted
      else ok (some c)
    else err SubscribeError.coupon_inactive

-- An absent code stands for an empty one, too.
unfoldable pub resolve_coupon :
    DateTime → List Coupon → Option ℕ → Result SubscribeError (Option Coupon)
unfolding usable
resolve_coupon now coupons none = ok none
resolve_coupon now coupons (some code) =
    elim (find_where (λ (c : Coupon). c.code == code) coupons) [
      | none ↦ err SubscribeError.coupon_not_found
      | some c ↦ usable now c
    ]

-- The device that a purchase is for, if it is for one, is the caller's.
unfoldable pub device_given : TenantScope → List Device → Option ℕ → Bool
unfolding owned_device
device_given scope devices none = true
device_given scope devices (some id) = elim (owned_device scope id devices) [
  | none ↦ false
  | some d ↦ true
]

-- The time, the ids that the database gives out, and the order that the provider creates for an amount
-- in paise, where it does not raise.
pub record Checkout : Type 0 where
  pub now : DateTime
  pub subscription_id : ℕ
  pub payment_id : ℕ
  pub create_order : ℕ → Option ℕ

pub record Order : Type 0 where
  pub subscription_id : ℕ
  pub order_id : ℕ
  pub device_count : ℕ
  pub billing_cycle : Cycle
  pub unit_price : ℕ
  pub gross_total : ℕ
  pub amount_due : ℕ
  pub coupon_applied : Option ℕ

abbrev paise_per_rupee : ℕ
paise_per_rupee = 100

unfoldable pub new_payment : ℕ → Checkout → Order → Payment
new_payment org checkout order = record {
  id = checkout.payment_id;
  org_id = org;
  subscription_id = some order.subscription_id;
  amount = order.amount_due;
  status = PaymentStatus.created;
  razorpay_order_id = some order.order_id;
  razorpay_payment_id = none;
  paid_at = none;
  refunded_at = none;
}

unfoldable pub new_subscription : Cycle → Subscription
new_subscription cycle = record {
  billing_cycle = some cycle;
  status = SubscriptionStatus.created;
  current_period_start = none;
  current_period_end = none;
}

unfoldable pub code_of : Option Coupon → Option ℕ
code_of none = none
code_of (some c) = some c.code

-- Both rows are committed together.
unfoldable pub written : ℕ → Checkout → Order → Books → Books
unfolding new_payment new_subscription
written org checkout order b = record b {
  payments = new_payment org checkout order ∷ b.payments;
  subscriptions = put order.subscription_id (new_subscription order.billing_cycle) b.subscriptions;
}

-- The order, if the provider creates it; a failure leaves the tables as they were.
unfoldable pub order_for :
    ℕ → Checkout → ℕ → Cycle → ℕ → Option Coupon → Books → Result SubscribeError Order × Books
unfolding apply_coupon_discount code_of written
order_for org checkout count cycle price coupon b =
    let due = apply_coupon_discount (count * price) coupon in
    elim (checkout.create_order (due * paise_per_rupee)) [
      | none ↦ (err SubscribeError.order_failed, b)
      | some order_id ↦
          (let order : Order = record {
            subscription_id = checkout.subscription_id;
            order_id = order_id;
            device_count = count;
            billing_cycle = cycle;
            unit_price = price;
            gross_total = count * price;
            amount_due = due;
            coupon_applied = code_of coupon;
          } in
            (ok order, written org checkout order b))
    ]

module _ (scope : TenantScope) (devices : List Device) (coupons : List Coupon) where
  unfoldable pub subscribe_at :
      Checkout → ℕ → Cycle → ℕ → Option ℕ → Option ℕ → Books → Result SubscribeError Order × Books
  unfolding device_given resolve_coupon order_for
  subscribe_at checkout count cycle price device code b =
      if device_given scope devices device
      then elim (resolve_coupon checkout.now coupons code) [
        | err e ↦ (err e, b)
        | ok coupon ↦ order_for scope.org_id checkout count cycle price coupon b
      ]
      else (err SubscribeError.device_not_found, b)

  unfoldable pub subscribe :
      Checkout → ℕ → String → Option ℕ → Option ℕ → Books → Result SubscribeError Order × Books
  unfolding subscribe_at normalize_cycle unit_price
  subscribe checkout count text device code b = elim (normalize_cycle text) [
    | err e ↦ (err (billing e), b)
    | ok cycle ↦ elim (unit_price count (cycle_name cycle)) [
      | err e ↦ (err (billing e), b)
      | ok price ↦ subscribe_at checkout count cycle price device code b
    ]
  ]
