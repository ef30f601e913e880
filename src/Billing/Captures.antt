-- ===== src/Billing/Captures.antt =====
-- What the webhook events do to payments and subscriptions.
use iotaps.Common.{
  ℕ, ◌≡◌, refl, ap, sym, ◌∙◌, Bool, true, false, Option, none, some, List, [], ◌∷◌, arith, ==_refl,
  Bool-cases, Option-cases, inl, inr,
}
use iotaps.Billing.Calendar.{DateTime}
use iotaps.Billing.Payments.{
  Payment, Books, WebhookEvent, Outcome, same_id, first_where, find_payment, update_payment,
  or_keep, is_captured, capture, extend_subscription, handle_capture, process_webhook_event,
}
use iotaps.Billing.Payments.EventType.{payment_captured}

pub first_where-test :
    (test : Payment → Bool) (ps : List Payment) (p : Payment)
    → first_where test ps ≡ some p
    → test p ≡ true
unfolding first_where
first_where-test test [] p h = ground arith
first_where-test test (x ∷ ps) p h = ground (arith, first_where-test test ps p)

pub first_where-update :
    (test : Payment → Bool) (ps : List Payment) (p p' : Payment)
    → p'.id ≡ p.id
    → test p' ≡ true
    → first_where test ps ≡ some p
    → first_where test (update_payment p' ps) ≡ some p'
unfolding first_where update_payment
first_where-update test [] p p' i t h = ground arith
first_where-update test (x ∷ ps) p p' i t h = ground (arith, first_where-update test ps p p' i t)

first_where-other :
    (test other : Payment → Bool) (ps : List Payment) (p : Payment)
    → first_where test ps ≡ none
    → first_where other ps ≡ some p
    → test p ≡ false
unfolding first_where
first_where-other test other [] p n h = ground arith
first_where-other test other (x ∷ ps) p n h = ground (arith, first_where-other test other ps p)

update-none :
    (test : Payment → Bool) (ps : List Payment) (p' : Payment)
    → test p' ≡ false
    → first_where test ps ≡ none
    → first_where test (update_payment p' ps) ≡ none
unfolding first_where update_payment
update-none test [] p' t h = refl
update-none test (x ∷ ps) p' t h = ground (arith, update-none test ps p' t)

kept_id :
    (old payment : Option ℕ)
    → same_id old payment ≡ true
    → same_id (or_keep payment old) payment ≡ true
kept_id old (some b) h = ==_refl b
kept_id none none h = absurd (ground arith)
kept_id (some a) none h = absurd (ground arith)

abbrev by_order : Option ℕ → Payment → Bool
by_order order p = same_id p.razorpay_order_id order

abbrev by_payment : Option ℕ → Payment → Bool
by_payment payment p = same_id p.razorpay_payment_id payment

-- The event finds the payment that it has captured.
found_again :
    (order payment : Option ℕ) (at : DateTime) (ps : List Payment) (p : Payment)
    → find_payment order payment ps ≡ some p
    → find_payment order payment (update_payment (capture at payment p) ps)
      ≡ some (capture at payment p)
unfolding find_payment capture
found_again order payment at ps p h =
    let p' = capture at payment p in
    elim (Option-cases (first_where (by_order order) ps)) [
      | inl none_by ↦
          (let second : first_where (by_payment payment) ps ≡ some p = rw none_by at h in
            let other : by_order order p ≡ false =
              first_where-other (by_order order) (by_payment payment) ps p none_by second in
            rw (
              update-none (by_order order) ps p' other none_by,
              first_where-update (by_payment payment) ps p p' refl
                  (kept_id p.razorpay_payment_id payment
                    (first_where-test (by_payment payment) ps p second))
                  second,
            ))
      | inr (x, first) ↦
          (let found : first_where (by_order order) ps ≡ some p = first ∙ (rw first at h) in
            let again =
              first_where-update (by_order order) ps p p' refl
                (first_where-test (by_order order) ps p found) found in
            rw again)
    ]

pub capture_step :
    (paid_at now : DateTime) (e : WebhookEvent) (b : Books) (p : Payment)
    → e.event ≡ payment_captured
    → find_payment e.order_id e.entity_id b.payments ≡ some p
    → process_webhook_event paid_at now e b
      ≡ (Outcome.captured, handle_capture paid_at now e.entity_id p b)
unfolding process_webhook_event
capture_step paid_at now e b p k f = rw (f, k)

capture_unmatched :
    (paid_at now : DateTime) (e : WebhookEvent) (b : Books)
    → e.event ≡ payment_captured
    → find_payment e.order_id e.entity_id b.payments ≡ none
    → process_webhook_event paid_at now e b ≡ (Outcome.unmatched, b)
unfolding process_webhook_event
capture_unmatched paid_at now e b k f = rw (f, k)

captured_before :
    (paid_at now : DateTime) (payment : Option ℕ) (p : Payment) (b : Books)
    → is_captured p.status ≡ true
    → handle_capture paid_at now payment p b ≡ b
unfolding handle_capture
captured_before paid_at now payment p b c = rw c

pub captured_now :
    (paid_at now : DateTime) (payment : Option ℕ) (p : Payment) (b : Books)
    → is_captured p.status ≡ false
    → handle_capture paid_at now payment p b ≡ record b {
      payments = update_payment (capture paid_at payment p) b.payments;
      subscriptions = extend_subscription now p.subscription_id b.subscriptions;
    }
unfolding handle_capture
captured_now paid_at now payment p b c = rw c

-- What the event finds after it has been processed is captured.
captured_after :
    (paid_at now : DateTime) (e : WebhookEvent) (b : Books) (p : Payment)
    → find_payment e.order_id e.entity_id b.payments ≡ some p
    → (p' : Payment) × (find_payment e.order_id e.entity_id
          (handle_capture paid_at now e.entity_id p b).payments
        ≡ some p')
      × (is_captured p'.status ≡ true)
captured_after paid_at now e b p f = elim (Bool-cases (is_captured p.status)) [
  | inl c ↦ (
    p,
    ap (λ x. find_payment e.order_id e.entity_id x.payments)
          (captured_before paid_at now e.entity_id p b c)
        ∙ f,
    c,
  )
  | inr c ↦ (
    capture paid_at e.entity_id p,
    ap (λ x. find_payment e.order_id e.entity_id x.payments)
          (captured_now paid_at now e.entity_id p b c)
        ∙ found_again e.order_id e.entity_id paid_at b.payments p f,
    unfold is_captured capture in refl,
  )
]

-- Once a capture event has been processed, processing it again, at whatever times, changes nothing
-- and is answered alike: neither the payment nor the subscription's period moves twice.
pub webhook_idempotent :
    (paid_at now paid_at' now' : DateTime) (e : WebhookEvent) (b b' : Books)
    → e.event ≡ payment_captured
    → process_webhook_event paid_at now e b ≡ (Outcome.captured, b')
    → process_webhook_event paid_at' now' e b' ≡ (Outcome.captured, b')
webhook_idempotent paid_at now paid_at' now' e b b' k h =
    elim (Option-cases (find_payment e.order_id e.entity_id b.payments)) [
      | inl missing ↦
          (let told : Outcome.unmatched ≡ Outcome.captured =
              ap (λ r. r.0) (sym (capture_unmatched paid_at now e b k missing) ∙ h) in
            absurd (ground arith))
      | inr (p, f) ↦
          (let after : handle_capture paid_at now e.entity_id p b ≡ b' =
              ap (λ r. r.1) (sym (capture_step paid_at now e b p k f) ∙ h) in
            let (p', f', c') = captured_after paid_at now e b p f in
            let found : find_payment e.order_id e.entity_id b'.payments ≡ some p' =
              rw after at f' in
            capture_step paid_at' now' e b' p' k found
            ∙ ap (λ x. (Outcome.captured, x)) (captured_before paid_at' now' e.entity_id p' b' c'))
    ]
