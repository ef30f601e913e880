-- ===== src/Billing/Payments.antt =====
-- The payments of app/services/subscription_service.py: the webhook events and refunds. Ids are
-- numbers; an absent one stands for `None` and for an empty text. The e-mails are best-effort and left
-- aside. Amounts are whole rupees.
use iotaps.Common.{
  ℕ, Bool, true, false, Option, none, some, List, [], ◌∷◌, ◌++◌, map, ◌==◌, if◌then◌else◌,
}
use iotaps.Common.Store.{Store, put}
use iotaps.Billing.Prices.{Cycle}
use iotaps.Billing.Calendar.{DateTime, add_period, later}

pub data PaymentStatus : Type 0 where
  created captured failed refunded : PaymentStatus

pub data SubscriptionStatus : Type 0 where
  created active past_due : SubscriptionStatus

pub record Payment : Type 0 where
  pub id : ℕ
  pub org_id : ℕ
  pub subscription_id : Option ℕ
  pub amount : ℕ
  pub status : PaymentStatus
  pub razorpay_order_id : Option ℕ
  pub razorpay_payment_id : Option ℕ
  pub paid_at : Option DateTime
  pub refunded_at : Option DateTime

pub record Subscription : Type 0 where
  pub billing_cycle : Option Cycle
  pub status : SubscriptionStatus
  pub current_period_start : Option DateTime
  pub current_period_end : Option DateTime

-- The tables, and the users of each organization; a notification names its organization and user.
pub record Books : Type 0 where
  pub payments : List Payment
  pub subscriptions : Store Subscription
  pub users : ℕ → List ℕ
  pub notifications : List (ℕ × ℕ)

pub data EventType : Type 0 where
  payment_captured payment_failed other_event : EventType

-- A webhook event and the ids in its payment entity.
pub record WebhookEvent : Type 0 where
  pub event : EventType
  pub order_id : Option ℕ
  pub entity_id : Option ℕ

pub data Outcome : Type 0 where
  ignored unmatched captured failed : Outcome

abbrev pub same_id : Option ℕ → Option ℕ → Bool
same_id (some a) (some b) = a == b
same_id _ _ = false

unfoldable pub first_where : (Payment → Bool) → List Payment → Option Payment
first_where test [] = none
first_where test (p ∷ ps) = let rest = first_where test ps in if test p then some p else rest

abbrev pub or_else_find : Option Payment → Option Payment → Option Payment
or_else_find (some p) other = some p
or_else_find none other = other

-- By the order, and where it finds none by the payment id.
unfoldable pub find_payment : Option ℕ → Option ℕ → List Payment → Option Payment
find_payment order payment ps =
    or_else_find (first_where (λ p. same_id p.razorpay_order_id order) ps)
      (first_where (λ p. same_id p.razorpay_payment_id payment) ps)

-- The row of the payment is written.
unfoldable pub update_payment : Payment → List Payment → List Payment
update_payment p' ps = map (λ p. if p.id == p'.id then p' else p) ps

abbrev pub or_keep : {A : Type 0} → Option A → Option A → Option A
or_keep (some a) old = some a
or_keep none old = old

-- What the next period is counted from.
unfoldable pub period_base : DateTime → Option DateTime → DateTime
period_base now none = now
period_base now (some end_at) = if later end_at now then end_at else now

abbrev pub cycle_of : Option Cycle → Cycle
cycle_of none = Cycle.monthly
cycle_of (some c) = c

unfoldable pub extend : DateTime → Subscription → Subscription
extend now s = record {
  billing_cycle = s.billing_cycle;
  status = SubscriptionStatus.active;
  current_period_start = or_keep s.current_period_start (some now);
  current_period_end =
      some (add_period (period_base now s.current_period_end) (cycle_of s.billing_cycle));
}

unfoldable pub is_captured : PaymentStatus → Bool
is_captured PaymentStatus.captured = true
is_captured _ = false

unfoldable pub capture : DateTime → Option ℕ → Payment → Payment
capture paid_at payment_id p = record p {
  status = PaymentStatus.captured;
  paid_at = some paid_at;
  razorpay_payment_id = or_keep payment_id p.razorpay_payment_id;
}

-- The subscription of a payment, where there is one, is extended.
unfoldable pub extend_subscription : DateTime → Option ℕ → Store Subscription → Store Subscription
extend_subscription now none subs = subs
extend_subscription now (some k) subs = elim (subs k) [
  | none ↦ subs
  | some s ↦ put k (extend now s) subs
]

-- `_handle_capture`, which reads the clock twice.
unfoldable pub handle_capture : DateTime → DateTime → Option ℕ → Payment → Books → Books
handle_capture paid_at now payment_id p b = if is_captured p.status then b else record b {
  payments = update_payment (capture paid_at payment_id p) b.payments;
  subscriptions = extend_subscription now p.subscription_id b.subscriptions;
}

-- `_notify_org`
unfoldable pub notify_org : ℕ → Books → Books
notify_org org b = record b {
  notifications = b.notifications ++ map (λ user. (org, user)) (b.users org);
}

unfoldable pub handle_failure : Payment → Books → Books
handle_failure p b =
    if is_captured p.status
    then b
    else notify_org p.org_id (record b {
      payments = update_payment (record p { status = PaymentStatus.failed }) b.payments;
    })

abbrev pub matched : DateTime → DateTime → Option ℕ → EventType → Payment → Books → Outcome × Books
matched paid_at now payment_id payment_captured p b =
    (Outcome.captured, handle_capture paid_at now payment_id p b)
matched paid_at now payment_id payment_failed p b = (Outcome.failed, handle_failure p b)
matched paid_at now payment_id other_event p b = (Outcome.ignored, b)

abbrev pub if_found :
    DateTime → DateTime → Option ℕ → EventType → Option Payment → Books → Outcome × Books
if_found paid_at now payment_id other_event found b = (Outcome.ignored, b)
if_found paid_at now payment_id kind none b = (Outcome.unmatched, b)
if_found paid_at now payment_id kind (some p) b = matched paid_at now payment_id kind p b

unfoldable pub process_webhook_event : DateTime → DateTime → WebhookEvent → Books → Outcome × Books
process_webhook_event paid_at now e b =
    if_found paid_at now e.entity_id e.event (find_payment e.order_id e.entity_id b.payments) b
