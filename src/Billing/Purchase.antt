-- ===== src/Billing/Purchase.antt =====
-- A purchase with a coupon, and the event that it was paid.
use iotaps.Common.{ℕ, ◌≡◌, refl, true, false, none, some, [], ◌∷◌}
use iotaps.Common.Text.{is_word}
use iotaps.Common.Store.{empty}
use iotaps.Common.Exec.{ok, err}
use iotaps.Command.Service.{TenantScope}
use iotaps.Billing.Prices.{
  Cycle, normalize_cycle, validate_device_count, tier_price, unit_price_monthly, unit_price,
}
use iotaps.Billing.Calendar.{DateTime, add_period, later}
use iotaps.Billing.Payments.{
  Subscription, SubscriptionStatus, Books, EventType, WebhookEvent, Outcome, process_webhook_event,
}
use iotaps.Billing.Orders.{
  percent, Coupon, SubscribeError, round_half_even, discounted, apply_coupon_discount, is_past,
  is_exhausted, usable, resolve_coupon, device_given, Checkout, Order, code_of, written, order_for,
  subscribe_at, subscribe,
}
use iotaps.Billing.Activation.{purchase_activates}

abbrev date : ℕ → ℕ → ℕ → DateTime
date y m d = record { year = y; month = m; day = d; second = 0 }

abbrev half_off : ℕ → Coupon
half_off used = record {
  id = 1;
  code = 77;
  discount_type = percent;
  value = 5000;
  max_redemptions = some 3;
  redemptions = used;
  valid_until = some (date 2025 6 1);
  active = true;
}

abbrev caller : TenantScope
caller = record { org_id = 5; bypass = false }

abbrev checkout : Checkout
checkout = record {
  now = date 2025 1 31;
  subscription_id = 8;
  payment_id = 9;
  create_order = λ amount. some 4;
}

abbrev books : Books
books = record { payments = []; subscriptions = empty; users = λ org. []; notifications = [] }

abbrev order : Order
order = record {
  subscription_id = 8;
  order_id = 4;
  device_count = 3;
  billing_cycle = Cycle.monthly;
  unit_price = 99;
  gross_total = 297;
  amount_due = 148;
  coupon_applied = some 77;
}

-- Half of 297 is rounded to the even side.
half_is_due :
    subscribe caller [] (half_off 2 ∷ []) checkout 3 "monthly" none (some 77) books
    ≡ (ok order, written 5 checkout order books)
unfolding subscribe subscribe_at normalize_cycle unit_price validate_device_count unit_price_monthly
    tier_price is_word device_given resolve_coupon usable is_past is_exhausted later order_for
    apply_coupon_discount discounted round_half_even code_of
half_is_due = refl

used_up :
    resolve_coupon (date 2025 1 31) (half_off 3 ∷ []) (some 77)
    ≡ err SubscribeError.coupon_exhausted
unfolding resolve_coupon usable is_past is_exhausted later
used_up = refl

abbrev paid : WebhookEvent
paid = record { event = EventType.payment_captured; order_id = some 4; entity_id = some 6 }

purchase_activates_example :
    let (outcome, after) =
      process_webhook_event (date 2025 2 1) (date 2025 2 1) paid (written 5 checkout order books) in
    (s : Subscription) × (outcome ≡ Outcome.captured)
    × (after.subscriptions 8 ≡ some s)
    × (s.status ≡ SubscriptionStatus.active)
    × (s.current_period_start ≡ some (date 2025 2 1))
    × (s.current_period_end ≡ some (add_period (date 2025 2 1) Cycle.monthly))
unfolding subscribe subscribe_at normalize_cycle unit_price validate_device_count unit_price_monthly
    tier_price is_word device_given resolve_coupon usable is_past is_exhausted later order_for
    apply_coupon_discount discounted round_half_even code_of
purchase_activates_example =
    purchase_activates caller [] (half_off 2 ∷ []) checkout 3 "monthly" none (some 77) books
      (written 5 checkout order books) order (date 2025 2 1) (date 2025 2 1) paid refl refl refl
