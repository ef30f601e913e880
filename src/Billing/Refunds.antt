-- ===== src/Billing/Refunds.antt =====
-- `refund` of `SubscriptionService` in app/services/subscription_service.py. The payment
-- provider takes the refund or raises, which is a parameter of the call.
use iotaps.Common.{
  ℕ, zero, suc, ◌+◌, ◌*◌, ◌-◌, ◌/◌, Bool, Option, none, some, List, leb, ◌==◌, ◌||◌, if◌then◌else◌,
}
use iotaps.Common.Exec.{Result, ok, err}
use iotaps.Command.Service.{TenantScope}
use iotaps.Billing.Calendar.{DateTime, days_in_month}
use iotaps.Billing.Payments.{Payment, PaymentStatus, Books, first_where, update_payment}

pub data RefundError : Type 0 where
  not_authorized already_refunded payment_not_refundable refund_window_elapsed : RefundError
  provider_failed : RefundError

-- The days of the months before the given one.
abbrev days_before : ℕ → ℕ → ℕ
days_before y zero = 0
days_before y (suc m) = (if m == 0 then 0 else days_before y m + days_in_month y m)

-- Seconds since the calendar's first day, as `datetime` counts them.
unfoldable pub moment : DateTime → ℕ
moment d =
    let y = d.year - 1 in
    let days = y * 365 + y / 4 - y / 100 + y / 400 + days_before d.year d.month + d.day in
    days * 86400 + d.second

abbrev pub refund_window : ℕ
refund_window = 14 * 86400

unfoldable pub within_refund_window : DateTime → DateTime → Bool
within_refund_window paid_at requested_at =
    leb (moment requested_at) (moment paid_at + refund_window)

abbrev pub paise_per_rupee : ℕ
paise_per_rupee = 100

-- What the provider is asked for.
pub record RefundRequest : Type 0 where
  pub payment_id : ℕ
  pub amount : ℕ

unfoldable pub owned_payment : TenantScope → ℕ → List Payment → Option Payment
owned_payment scope id ps = elim (first_where (λ p. p.id == id) ps) [
  | none ↦ none
  | some p ↦ if scope.bypass || p.org_id == scope.org_id then some p else none
]

abbrev ask_for : ℕ → Option ℕ → Result RefundError RefundRequest
ask_for amount none = err RefundError.payment_not_refundable
ask_for amount (some id) = ok (record { payment_id = id; amount = amount * paise_per_rupee })

-- The checks on a payment's parts, in the code's order: the request, or why it is refused.
unfoldable pub request_by :
    DateTime → ℕ → PaymentStatus → Option DateTime → Option ℕ → Result RefundError RefundRequest
request_by now amount PaymentStatus.refunded paid_at id = err RefundError.already_refunded
request_by now amount PaymentStatus.captured none id = err RefundError.payment_not_refundable
request_by now amount PaymentStatus.captured (some paid_at) id =
    if within_refund_window paid_at now
    then ask_for amount id
    else err RefundError.refund_window_elapsed
request_by now amount PaymentStatus.created paid_at id = err RefundError.payment_not_refundable
request_by now amount PaymentStatus.failed paid_at id = err RefundError.payment_not_refundable

unfoldable pub refund_request : DateTime → Payment → Result RefundError RefundRequest
refund_request now p = request_by now p.amount p.status p.paid_at p.razorpay_payment_id

abbrev pub refunded_payment : DateTime → Payment → Payment
refunded_payment now p = record p { status = PaymentStatus.refunded; refunded_at = some now }

-- Ask the provider and write the payment.
unfoldable pub ask_provider :
    (RefundRequest → Bool)
    → DateTime
    → Payment
    → Result RefundError RefundRequest
    → Books
    → Result RefundError RefundRequest × Books
ask_provider accepts now p (err e) b = (err e, b)
ask_provider accepts now p (ok request) b =
    if accepts request
    then (ok request, record b { payments = update_payment (refunded_payment now p) b.payments })
    else (err RefundError.provider_failed, b)

unfoldable pub refund :
    (RefundRequest → Bool)
    → DateTime
    → TenantScope
    → ℕ
    → Books
    → Result RefundError RefundRequest × Books
refund accepts now scope id b = elim (owned_payment scope id b.payments) [
  | none ↦ (err RefundError.not_authorized, b)
  | some p ↦ ask_provider accepts now p (refund_request now p) b
]
