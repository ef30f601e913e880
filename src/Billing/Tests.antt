-- ===== src/Billing/Tests.antt =====
-- Prices, periods, payments and wallets at concrete values.
use iotaps.Common.{pos, ℕ, ◌≡◌, refl, true, false, none, some, List, [], ◌∷◌, arith}
use iotaps.Common.Store.{empty, put}
use iotaps.Common.Exec.{err}
use iotaps.Command.Service.{TenantScope}
use iotaps.Billing.Prices.{Cycle}
use iotaps.Billing.Calendar.{DateTime, IsValid, is_leap, days_in_month, later, add_period}
use iotaps.Billing.Payments.{
  Payment, PaymentStatus, Subscription, SubscriptionStatus, Books, EventType, WebhookEvent, Outcome,
  find_payment, first_where, update_payment, is_captured, cycle_of, process_webhook_event,
}
use iotaps.Billing.Captures.{webhook_idempotent}
use iotaps.Billing.Extensions.{capture_extends}
use iotaps.Billing.Refunds.{
  RefundError, RefundRequest, moment, within_refund_window, owned_payment, request_by,
  refund_request, ask_provider, refund, refunded_payment,
}
use iotaps.Billing.Refunded.{IsRefundable, Asked, refund_all, refund_once}
use iotaps.Billing.Wallets.{
  PayoutStatus, Payout, Bank, find_payout, approve_from, is_pending, approve_payout,
}
use iotaps.Billing.Balance.{WalletOp, credit_op, request_op, approve_op}
use iotaps.Billing.Approvals.{IsPaidOut, approve_payout_pays}

abbrev date : ℕ → ℕ → ℕ → DateTime
date y m d = record { year = y; month = m; day = d; second = 0 }

abbrev january : DateTime
january = date 2025 1 31

january-IsValid : IsValid january
unfolding days_in_month
january-IsValid = (omega arith, omega arith, omega arith, omega arith)

abbrev payment : PaymentStatus → Payment
payment status = record {
  id = 1;
  org_id = 5;
  subscription_id = some 7;
  amount = 869;
  status = status;
  razorpay_order_id = some 20;
  razorpay_payment_id = none;
  paid_at = none;
  refunded_at = none;
}

abbrev subscription : Subscription
subscription = record {
  billing_cycle = some Cycle.monthly;
  status = SubscriptionStatus.active;
  current_period_start = some (date 2024 12 31);
  current_period_end = some january;
}

abbrev books : PaymentStatus → Books
books status = record {
  payments = payment status ∷ [];
  subscriptions = put 7 subscription empty;
  users = λ o. 9 ∷ [];
  notifications = [];
}

abbrev captured_event : WebhookEvent
captured_event = record {
  event = EventType.payment_captured;
  order_id = some 20;
  entity_id = some 30;
}

abbrev captured_books : Books
captured_books =
    (process_webhook_event (date 2025 1 20) (date 2025 1 20) captured_event
      (books PaymentStatus.created)).1

webhook_idempotent_example :
    process_webhook_event (date 2025 2 1) (date 2025 2 1) captured_event captured_books
    ≡ (Outcome.captured, captured_books)
unfolding process_webhook_event find_payment first_where
webhook_idempotent_example =
    webhook_idempotent (date 2025 1 20) (date 2025 1 20) (date 2025 2 1) (date 2025 2 1)
      captured_event (books PaymentStatus.created) captured_books refl refl

capture_extends_example :
    let (outcome, b') =
      process_webhook_event
        (date 2025 1 31)
        january
        captured_event
        (books PaymentStatus.refunded) in
    (s' : Subscription) × (new_end : DateTime) × (outcome ≡ Outcome.captured)
    × (b'.subscriptions 7 ≡ some s')
    × (s'.status ≡ SubscriptionStatus.active)
    × (s'.current_period_end ≡ some new_end)
    × (new_end ≡ add_period january (cycle_of subscription.billing_cycle))
    × (later new_end january ≡ true)
    × (later new_end january ≡ true)
unfolding find_payment first_where is_captured put later
capture_extends_example =
    capture_extends january january january captured_event (books PaymentStatus.refunded)
      (payment PaymentStatus.refunded) 7 subscription january-IsValid january-IsValid refl refl refl
      refl refl refl

abbrev paid_books : Books
paid_books = record (books PaymentStatus.captured) {
  payments =
      record (payment PaymentStatus.captured) {
        razorpay_payment_id = some 30;
        paid_at = some january;
      }
      ∷ [];
}

abbrev member : TenantScope
member = record { org_id = 5; bypass = false }

abbrev request : RefundRequest
request = record { payment_id = 30; amount = 86900 }

abbrev refunded_books : Books
refunded_books = (refund (λ r. true) (date 2025 2 14) member 1 paid_books).1

abbrev again : List Asked
again = record { accepts = λ r. true; now = date 2025 2 14; scope = member; id = 1 } ∷ []

refund_once_example :
    (p : Payment) × (owned_payment member 1 paid_books.payments ≡ some p)
    × IsRefundable (date 2025 2 14) p request
    × (true ≡ true)
    × (refunded_books ≡ record paid_books {
      payments = update_payment (refunded_payment (date 2025 2 14) p) paid_books.payments;
    })
    × (refund (λ r. true) (date 2025 2 15) member 1 (refund_all again refunded_books)
        ≡ (err RefundError.already_refunded, refund_all again refunded_books))
unfolding refund owned_payment first_where refund_request request_by within_refund_window moment
    days_in_month is_leap ask_provider
refund_once_example =
    refund_once (λ r. true) (λ r. true) (date 2025 2 14) (date 2025 2 15) member 1 paid_books
      refunded_books request again refl

abbrev bank : Bank
bank = record {
  organizations = put 5 none empty;
  balances = empty;
  payouts = [];
  commissions = [];
  transfers = [];
}

-- A commission of 50 rupees, a payout of 12.34 rupees, its approval, and one that is not covered.
abbrev ops : List WalletOp
ops =
    credit_op 5
    ∷ request_op 1 5 (pos 1234)
    ∷ approve_op (λ t. true) 1
    ∷ request_op 2 5 (pos 4000)
    ∷ []

abbrev requested : Bank
requested = record bank {
  balances = put 5 5000 empty;
  payouts = record { id = 1; org_id = 5; amount = 1234; status = PayoutStatus.pending } ∷ [];
}

approve_payout_pays_example :
    let b' = (approve_payout (λ t. true) 1 requested).1 in
    (p : Payout) × (balance : ℕ) × (find_payout 1 requested.payouts ≡ some p)
    × IsPaidOut p balance requested b'
unfolding approve_payout find_payout is_pending approve_from put
approve_payout_pays_example =
    approve_payout_pays (λ t. true) 1 1 requested (approve_payout (λ t. true) 1 requested).1 refl
