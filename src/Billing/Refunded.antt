-- ===== src/Billing/Refunded.antt =====
-- When `refund` goes through, and what a later one meets.
use iotaps.Common.{
  ℕ, ◌+◌, ◌*◌, ◌≤◌, ◌≡◌, refl, sym, subst, ◌∙◌, ap, Bool, true, Option, none, some, List, ◌==◌,
  ◌||◌, ◌⊎◌, arith, Option-cases, Bool-cases, inl, inr, false, [], ◌∷◌,
}
use iotaps.Common.Exec.{Result, ok, err, Result-cases}
use iotaps.Command.Service.{TenantScope}
use iotaps.Billing.Calendar.{DateTime}
use iotaps.Billing.Payments.{Payment, PaymentStatus, Books, first_where, update_payment}
use iotaps.Billing.Captures.{first_where-update, first_where-test}
use iotaps.Billing.Refunds.{
  RefundError, RefundRequest, moment, refund_window, within_refund_window, paise_per_rupee,
  owned_payment, refund_request, request_by, refunded_payment, ask_provider, refund,
}

-- A payment that `refund_request` accepts.
abbrev pub IsRefundable : DateTime → Payment → RefundRequest → Type 0
IsRefundable now p request =
    (paid_at : DateTime) × (p.status ≡ PaymentStatus.captured)
    × (p.paid_at ≡ some paid_at)
    × (moment now ≤ moment paid_at + refund_window)
    × (p.razorpay_payment_id ≡ some request.payment_id)
    × (request.amount ≡ p.amount * paise_per_rupee)

-- The same of the parts.
abbrev Fits : DateTime → ℕ → PaymentStatus → Option DateTime → Option ℕ → RefundRequest → Type 0
Fits now amount status paid id request =
    (paid_at : DateTime) × (status ≡ PaymentStatus.captured)
    × (paid ≡ some paid_at)
    × (moment now ≤ moment paid_at + refund_window)
    × (id ≡ some request.payment_id)
    × (request.amount ≡ amount * paise_per_rupee)

fitting :
    (now : DateTime) (amount : ℕ) (paid_at : DateTime) (id : Option ℕ) (request : RefundRequest)
    → request_by now amount PaymentStatus.captured (some paid_at) id ≡ ok request
    → Fits now amount PaymentStatus.captured (some paid_at) id request
unfolding request_by within_refund_window
fitting now amount paid_at id request h =
    (paid_at, refl, refl, ground arith, ground arith, ground arith)

request_by-Fits :
    (now : DateTime) (amount : ℕ) (status : PaymentStatus) (paid : Option DateTime) (id : Option ℕ)
    (request : RefundRequest)
    → request_by now amount status paid id ≡ ok request
    → Fits now amount status paid id request
request_by-Fits now amount PaymentStatus.refunded paid id request h =
    absurd (unfold request_by in ground arith)
request_by-Fits now amount PaymentStatus.created paid id request h =
    absurd (unfold request_by in ground arith)
request_by-Fits now amount PaymentStatus.failed paid id request h =
    absurd (unfold request_by in ground arith)
request_by-Fits now amount PaymentStatus.captured none id request h =
    absurd (unfold request_by in ground arith)
request_by-Fits now amount PaymentStatus.captured (some paid_at) id request h =
    fitting now amount paid_at id request h

request-IsRefundable :
    (now : DateTime) (p : Payment) (request : RefundRequest)
    → refund_request now p ≡ ok request
    → IsRefundable now p request
unfolding refund_request
request-IsRefundable now p request h =
    request_by-Fits now p.amount p.status p.paid_at p.razorpay_payment_id request h

owned-found :
    (scope : TenantScope) (id : ℕ) (ps : List Payment) (p : Payment)
    → owned_payment scope id ps ≡ some p
    → (first_where (λ q. q.id == id) ps ≡ some p)
      × ((scope.bypass || p.org_id == scope.org_id) ≡ true)
unfolding owned_payment
owned-found scope id ps p h = ground arith

owned-again :
    (now : DateTime) (scope : TenantScope) (id : ℕ) (ps : List Payment) (p : Payment)
    → owned_payment scope id ps ≡ some p
    → owned_payment scope id (update_payment (refunded_payment now p) ps)
      ≡ some (refunded_payment now p)
unfolding owned_payment
owned-again now scope id ps p h =
    let (found, owns) = owned-found scope id ps p h in
    let named = first_where-test (λ q. q.id == id) ps p found in
    let again =
      first_where-update (λ q. q.id == id) ps p (refunded_payment now p) refl named found in
    rw (again, owned_payment, owns)

ask-ok :
    (accepts : RefundRequest → Bool) (now : DateTime) (p : Payment)
    (r : Result RefundError RefundRequest) (b b' : Books) (request : RefundRequest)
    → ask_provider accepts now p r b ≡ (ok request, b')
    → (r ≡ ok request)
      × (accepts request ≡ true)
      × (b' ≡ record b { payments = update_payment (refunded_payment now p) b.payments })
unfolding ask_provider
ask-ok accepts now p (err e) b b' request h = absurd (ground arith)
ask-ok accepts now p (ok q) b b' request h = ground arith

refund_step :
    (accepts : RefundRequest → Bool) (now : DateTime) (scope : TenantScope) (id : ℕ) (b : Books)
    (p : Payment)
    → owned_payment scope id b.payments ≡ some p
    → refund accepts now scope id b ≡ ask_provider accepts now p (refund_request now p) b
unfolding refund
refund_step accepts now scope id b p f = rw (f, refund)

refund_missing :
    (accepts : RefundRequest → Bool) (now : DateTime) (scope : TenantScope) (id : ℕ) (b : Books)
    → owned_payment scope id b.payments ≡ none
    → refund accepts now scope id b ≡ (err RefundError.not_authorized, b)
unfolding refund
refund_missing accepts now scope id b f = rw (f, refund)

-- What `refund` is asked.
pub record Asked : Type 0 where
  pub accepts : RefundRequest → Bool
  pub now : DateTime
  pub scope : TenantScope
  pub id : ℕ

-- One refund after the other, whether they go through or not.
abbrev pub refund_all : List Asked → Books → Books
refund_all [] b = b
refund_all (a ∷ later) b = refund_all later (refund a.accepts a.now a.scope a.id b).1

-- The caller finds the payment, and it is refunded.
abbrev IsSpent : TenantScope → ℕ → Books → Type 0
IsSpent scope id b =
    (p : Payment) × (owned_payment scope id b.payments ≡ some p)
    × (p.status ≡ PaymentStatus.refunded)

spent_refused :
    (accepts : RefundRequest → Bool) (now : DateTime) (scope : TenantScope) (id : ℕ) (b : Books)
    → IsSpent scope id b
    → refund accepts now scope id b ≡ (err RefundError.already_refunded, b)
spent_refused accepts now scope id b (p, f, spent) =
    refund_step accepts now scope id b p f
    ∙ (unfold refund_request request_by ask_provider in rw spent refl)

-- Another payment's row is changed.
first_where-other :
    (id : ℕ) (ps : List Payment) (p' : Payment)
    → (p'.id == id) ≡ false
    → first_where (λ q. q.id == id) (update_payment p' ps) ≡ first_where (λ q. q.id == id) ps
unfolding first_where update_payment
first_where-other id [] p' h = refl
first_where-other id (q ∷ ps) p' h = ground (arith, h, first_where-other id ps p' h)

owned-other :
    (scope : TenantScope) (id : ℕ) (ps : List Payment) (p' : Payment)
    → (p'.id == id) ≡ false
    → owned_payment scope id (update_payment p' ps) ≡ owned_payment scope id ps
unfolding owned_payment
owned-other scope id ps p' h = rw (owned_payment, first_where-other id ps p' h) refl

ask_granted :
    (accepts : RefundRequest → Bool) (now : DateTime) (p : Payment) (request : RefundRequest)
    (b : Books)
    → accepts request ≡ true
    → ask_provider accepts now p (ok request) b
      ≡ (ok request, record b { payments = update_payment (refunded_payment now p) b.payments })
unfolding ask_provider
ask_granted accepts now p request b h = rw h refl

ask_refused :
    (accepts : RefundRequest → Bool) (now : DateTime) (p : Payment) (request : RefundRequest)
    (b : Books)
    → accepts request ≡ false
    → ask_provider accepts now p (ok request) b ≡ (err RefundError.provider_failed, b)
unfolding ask_provider
ask_refused accepts now p request b h = rw h refl

-- A refund that goes through, and one that does not.
refund-cases :
    (a : Asked) (b : Books)
    → ((refund a.accepts a.now a.scope a.id b).1 ≡ b)
      ⊎ ((p : Payment) × (owned_payment a.scope a.id b.payments ≡ some p)
          × (p.status ≡ PaymentStatus.captured)
          × ((refund a.accepts a.now a.scope a.id b).1
              ≡ record b { payments = update_payment (refunded_payment a.now p) b.payments }))
refund-cases a b = elim (Option-cases (owned_payment a.scope a.id b.payments)) [
  | inl missing ↦ inl (ap (λ r. r.1) (refund_missing a.accepts a.now a.scope a.id b missing))
  | inr (p, f) ↦
      let step = refund_step a.accepts a.now a.scope a.id b p f in
      elim (Result-cases (refund_request a.now p)) [
        | inr (e, bad) ↦ inl (ap (λ r. r.1) step ∙ rw bad (unfold ask_provider in refl))
        | inl (request, good) ↦ elim (Bool-cases (a.accepts request)) [
          | inl granted ↦
              (let (paid_at, captured, _, _, _, _) = request-IsRefundable a.now p request good in
                inr (
                  p,
                  f,
                  captured,
                  ap (λ r. r.1) step
                      ∙ rw (good, ask_granted a.accepts a.now p request b granted) refl,
                ))
          | inr refused ↦
              inl (
                ap (λ r. r.1) step
                ∙ rw (good, ask_refused a.accepts a.now p request b refused) refl)
        ]
      ]
]

-- A refund of whatever payment leaves a refunded one refunded.
refund-IsSpent :
    (scope : TenantScope) (id : ℕ) (a : Asked) (b : Books)
    → IsSpent scope id b
    → IsSpent scope id (refund a.accepts a.now a.scope a.id b).1
refund-IsSpent scope id a b (p, f, spent) = elim (refund-cases a b) [
  | inl same ↦ subst (IsSpent scope id) (sym same) (p, f, spent)
  | inr (p2, f2, captured, same) ↦
      let (found2, _) = owned-found a.scope a.id b.payments p2 f2 in
      let (found, _) = owned-found scope id b.payments p f in
      let named = first_where-test (λ q. q.id == a.id) b.payments p2 found2 in
      elim (Bool-cases (p2.id == id)) [
        | inl own ↦
            (let e : a.id ≡ id = ground (arith, named, own) in
              let both : some p2 ≡ some p = sym (rw e at found2) ∙ found in
              absurd (ground (arith, both, captured, spent)))
        | inr other ↦
            subst (IsSpent scope id) (sym same)
              (p, owned-other scope id b.payments (refunded_payment a.now p2) other ∙ f, spent)
      ]
]

refund_all-IsSpent :
    (scope : TenantScope) (id : ℕ) (later : List Asked) (b : Books)
    → IsSpent scope id b
    → IsSpent scope id (refund_all later b)
refund_all-IsSpent scope id [] b h = h
refund_all-IsSpent scope id (a ∷ later) b h =
    refund_all-IsSpent scope id later (refund a.accepts a.now a.scope a.id b).1
      (refund-IsSpent scope id a b h)

-- A refund that goes through is of a payment that the caller may access, that is captured,
-- that was paid no more than fourteen days ago and that has a provider's id: the provider was asked
-- for its whole amount in paise and took it, and only this payment's row changes. Whatever
-- refunds are asked for next, of this payment or of others, a refund of it is then refused as already
-- refunded and changes nothing. Nothing is said of webhook events in between: a repeated capture event
-- makes the payment refundable again.
pub refund_once :
    (accepts accepts' : RefundRequest → Bool) (now now' : DateTime) (scope : TenantScope) (id : ℕ)
    (b b' : Books) (request : RefundRequest) (later : List Asked)
    → refund accepts now scope id b ≡ (ok request, b')
    → let after = refund_all later b' in
      (p : Payment) × (owned_payment scope id b.payments ≡ some p)
      × IsRefundable now p request
      × (accepts request ≡ true)
      × (b' ≡ record b { payments = update_payment (refunded_payment now p) b.payments })
      × (refund accepts' now' scope id after ≡ (err RefundError.already_refunded, after))
refund_once accepts accepts' now now' scope id b b' request later h =
    elim (Option-cases (owned_payment scope id b.payments)) [
      | inl missing ↦
          (let told : err RefundError.not_authorized ≡ ok request =
              ap (λ r. r.0) (sym (refund_missing accepts now scope id b missing) ∙ h) in
            absurd (ground arith))
      | inr (p, f) ↦
          (let (granted, taken, same) =
              ask-ok accepts now p (refund_request now p) b b' request
                (sym (refund_step accepts now scope id b p f) ∙ h) in
            let spent : IsSpent scope id b' =
              subst (IsSpent scope id) (sym same)
                (refunded_payment now p, owned-again now scope id b.payments p f, refl) in
            (
              p,
              f,
              request-IsRefundable now p request granted,
              taken,
              same,
              spent_refused accepts' now' scope id (refund_all later b')
                  (refund_all-IsSpent scope id later b' spent),
            ))
    ]
