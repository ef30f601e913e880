-- ===== src/Webhooks/Attempts.antt =====
-- How a delivery of app/workers/webhook_dispatcher.py ends, by the first attempt that is answered well.
use iotaps.Common.{
  ℕ, zero, suc, ◌+◌, ◌-◌, ◌≤◌, ◌<◌, ◌≡◌, refl, ap, ◌∙◌, Bool, true, false, not, Option, none, some,
  List, [], ◌∷◌, arith, if◌then◌else◌, ◌⊎◌, inl, inr, Bool-cases,
}
use iotaps.Webhooks.Policy.{Numbers, RetryPolicy, backoff_for_retry}
use iotaps.Webhooks.Event.{WebhookEvent, policy}
use iotaps.Webhooks.Published.{attempts_positive}
use iotaps.Webhooks.Delivery.{
  DeliveryResult, Delivery, answered_well, is_success, slept, back_off, attempt_from, deliver,
  deliver_webhook,
}

-- An attempt that raised, or was answered with a status below 200 or from 300 on.
abbrev pub Fails : Option ℕ → Type 0
Fails none = Unit
Fails (some status) = (status < 200) ⊎ (300 ≤ status)

Fails-answered_well : (o : Option ℕ) → Fails o → answered_well o ≡ false
unfolding answered_well is_success
Fails-answered_well none h = refl
Fails-answered_well (some status) h = ground (arith, h)

in_range_well :
    (o : Option ℕ) (status : ℕ)
    → o ≡ some status
    → 200 ≤ status
    → status < 300
    → answered_well o ≡ true
unfolding answered_well is_success
in_range_well o status e lo hi = rw e (ground (arith, lo, hi))

module _ {N : Type 0} (numbers : Numbers N) where
  -- The waits before `n` retries from this index on; a wait of nothing is skipped.
  abbrev pub waits : (ℕ → N) → ℕ → ℕ → List N
  waits delay i zero = []
  waits delay i (suc n) =
      let rest = waits delay (suc i) n in
      if numbers.is_positive (delay i) then delay i ∷ rest else rest

  abbrev pub ends : Bool → ℕ → Option ℕ → List N → Delivery N
  ends delivered attempts status sleeps = record {
    returned = some (record { delivered = delivered; attempts = attempts; last_status = status });
    sleeps = sleeps;
    recorded = not delivered;
  }

  module _ (p : RetryPolicy N) (answer : ℕ → Option ℕ) where
    -- Every attempt after the `a`-th, up to `n` more, is answered badly.
    abbrev pub AllBad : ℕ → ℕ → Type 0
    AllBad a n = (j : ℕ) → a < j → j ≤ a + n → Fails (answer j)

    bad_first :
        (left a : ℕ) (delay : N)
        → answered_well (answer (suc a)) ≡ false
        → backoff_for_retry numbers p a ≡ some delay
        → attempt_from numbers p answer (suc left) (suc a) ≡ (
            if numbers.is_positive delay
            then slept delay (attempt_from numbers p answer left (suc (suc a)))
            else attempt_from numbers p answer left (suc (suc a)))
    unfolding attempt_from back_off
    bad_first left a delay bad wait = let e : suc a - 1 ≡ a = omega arith in rw (bad, e, wait) refl

    -- The waits of a delivery come after the wait before its first retry.
    wait_first :
        (a n : ℕ) (delay : ℕ → N) (delivered : Bool) (k : ℕ) (status : Option ℕ)
        → (if numbers.is_positive (delay a)
            then slept (delay a) (ends delivered k status (waits delay (suc a) n))
            else ends delivered k status (waits delay (suc a) n))
          ≡ ends delivered k status (waits delay a (suc n))
    wait_first a n delay delivered k status = elim (Bool-cases (numbers.is_positive (delay a))) [
      | inl h ↦ rw h refl
      | inr h ↦ rw h refl
    ]

    succeeds_from :
        (before left a k : ℕ) (delay : ℕ → N)
        → ((i : ℕ) → suc i < k → backoff_for_retry numbers p i ≡ some (delay i))
        → before ≤ left
        → k ≡ suc (a + before)
        → AllBad a before
        → answered_well (answer k) ≡ true
        → attempt_from numbers p answer left (suc a) ≡ ends true k (answer k) (waits delay a before)
    unfolding attempt_from
    succeeds_from zero zero a k delay calm le e bad well =
        let e' : k ≡ suc a = omega arith in rw (← e', well) refl
    succeeds_from zero (suc left) a k delay calm le e bad well =
        let e' : k ≡ suc a = omega arith in rw (← e', well) refl
    succeeds_from (suc before) zero a k delay calm le e bad well = absurd (omega arith)
    succeeds_from (suc before) (suc left) a k delay calm le e bad well =
        let ih =
          succeeds_from before left (suc a) k delay calm (omega arith) (omega arith)
            (λ j lo hi. bad j (omega arith) (omega arith)) well in
        bad_first left a (delay a) (Fails-answered_well _ (bad (suc a) (omega arith) (omega arith)))
          (calm a (omega arith))
        ∙ ap (λ d. if numbers.is_positive (delay a) then slept (delay a) d else d) ih
        ∙ wait_first a before delay true k (answer k)

    fails_from :
        (left a k : ℕ) (delay : ℕ → N)
        → ((i : ℕ) → suc i < k → backoff_for_retry numbers p i ≡ some (delay i))
        → k ≡ suc (a + left)
        → AllBad a (suc left)
        → attempt_from numbers p answer left (suc a) ≡ ends false k (answer k) (waits delay a left)
    unfolding attempt_from
    fails_from zero a k delay calm e bad =
        let e' : k ≡ suc a = omega arith in
        rw (← e', Fails-answered_well _ (bad k (omega arith) (omega arith))) refl
    fails_from (suc left) a k delay calm e bad =
        let ih =
          fails_from left (suc a) k delay calm (omega arith)
            (λ j lo hi. bad j (omega arith) (omega arith)) in
        bad_first left a (delay a) (Fails-answered_well _ (bad (suc a) (omega arith) (omega arith)))
          (calm a (omega arith))
        ∙ ap (λ d. if numbers.is_positive (delay a) then slept (delay a) d else d) ih
        ∙ wait_first a left delay false k (answer k)

  delivers :
      (n : ℕ) (p : RetryPolicy N) (answer : ℕ → Option ℕ) (delay : ℕ → N) (before : ℕ)
      → ((i : ℕ) → i < before → backoff_for_retry numbers p i ≡ some (delay i))
      → before < n
      → AllBad p answer 0 before
      → answered_well (answer (suc before)) ≡ true
      → deliver numbers p answer n
        ≡ ends true (suc before) (answer (suc before)) (waits delay 0 before)
  unfolding deliver
  delivers zero p answer delay before calm within bad well = absurd (omega arith)
  delivers (suc left) p answer delay before calm within bad well =
      succeeds_from p answer before left 0 (suc before) delay (λ i h. calm i (omega arith))
        (omega arith) (omega arith) bad well

  -- If some attempt within the policy's number is answered with a status from 200 to 299, where those
  -- before it raised or were answered otherwise and no backoff between these overflows, the delivery
  -- ends with the first such attempt, as delivered, and `on_failed` is not called. Before each retry it waited the backoff of its index,
  -- unless that is 0, and there were as many attempts as that attempt's number.
  pub delivered_at_first_success :
      (event : WebhookEvent N) (p : RetryPolicy N) (answer : ℕ → Option ℕ) (delay : ℕ → N)
      (before status : ℕ)
      → policy numbers event ≡ some p
      → ((i : ℕ) → i < before → backoff_for_retry numbers p i ≡ some (delay i))
      → before < p.max_attempts
      → AllBad p answer 0 before
      → answer (suc before) ≡ some status
      → 200 ≤ status
      → status < 300
      → deliver_webhook numbers event answer
        ≡ ends true (suc before) (some status) (waits delay 0 before)
  unfolding deliver_webhook
  delivered_at_first_success event p answer delay before status h calm within bad well lo hi =
      let good = in_range_well (answer (suc before)) status well lo hi in
      rw (h, deliver_webhook, ← well)
        (delivers p.max_attempts p answer delay before calm within bad good)

  fails_all :
      (n left : ℕ) (p : RetryPolicy N) (answer : ℕ → Option ℕ) (delay : ℕ → N)
      → ((i : ℕ) → i < left → backoff_for_retry numbers p i ≡ some (delay i))
      → n ≡ suc left
      → AllBad p answer 0 n
      → deliver numbers p answer n ≡ ends false n (answer n) (waits delay 0 left)
  unfolding deliver
  fails_all n left p answer delay calm e bad = rw e (
      fails_from p answer left 0 (suc left) delay (λ i h. calm i (omega arith)) (omega arith)
        (λ j lo hi. bad j lo (omega arith)))

  -- If none of the attempts, as many as the policy has, is answered with a status from 200 to 299, and no backoff between
  -- two of them overflows, the delivery ends after the last of them, as failed and
  -- with the status of the last, and calls `on_failed`. It waited before each retry and not after the
  -- last attempt.
  pub failed_after_all :
      (event : WebhookEvent N) (p : RetryPolicy N) (answer : ℕ → Option ℕ) (delay : ℕ → N)
      (left : ℕ)
      → policy numbers event ≡ some p
      → ((i : ℕ) → i < left → backoff_for_retry numbers p i ≡ some (delay i))
      → p.max_attempts ≡ suc left
      → AllBad p answer 0 p.max_attempts
      → deliver_webhook numbers event answer
        ≡ ends false p.max_attempts (answer p.max_attempts) (waits delay 0 left)
  unfolding deliver_webhook deliver
  failed_after_all event p answer delay left h calm e bad =
      rw (h, deliver_webhook) (fails_all p.max_attempts left p answer delay calm e bad)

  -- A result that is returned, after no more than so many attempts, and recorded if it is a failure.
  abbrev pub IsEnd : ℕ → Delivery N → Type 0
  IsEnd most d =
      (r : DeliveryResult) × (d.returned ≡ some r)
      × (1 ≤ r.attempts)
      × (r.attempts ≤ most)
      × (d.recorded ≡ not r.delivered)

  back_off-IsEnd :
      (most : ℕ) (wait : Option N) (delay : N) (p : RetryPolicy N) (answer : ℕ → Option ℕ)
      (d : Delivery N)
      → wait ≡ some delay
      → IsEnd most d
      → IsEnd most (back_off numbers p answer wait d)
  unfolding back_off
  back_off-IsEnd most wait delay p answer d h (r, given, lo, hi, told) =
      elim (Bool-cases (numbers.is_positive delay)) [
        | inl long ↦ rw (h, long) (r, given, lo, hi, told)
        | inr short ↦ rw (h, short) (r, given, lo, hi, told)
      ]

  attempts-IsEnd :
      (left a most : ℕ) (p : RetryPolicy N) (answer : ℕ → Option ℕ) (delay : ℕ → N)
      → ((i : ℕ) → suc i < most → backoff_for_retry numbers p i ≡ some (delay i))
      → suc (a + left) ≤ most
      → IsEnd most (attempt_from numbers p answer left (suc a))
  unfolding attempt_from
  attempts-IsEnd zero a most p answer delay calm le = (_, refl, omega arith, omega arith, refl)
  attempts-IsEnd (suc left) a most p answer delay calm le =
      let ih = attempts-IsEnd left (suc a) most p answer delay calm (omega arith) in
      elim (Bool-cases (answered_well (answer (suc a)))) [
        | inl well ↦ rw well (_, refl, omega arith, omega arith, refl)
        | inr bad ↦ rw bad (
            back_off-IsEnd most _ (delay (suc a - 1)) p answer _ (calm (suc a - 1) (omega arith))
              ih)
      ]

  deliver-IsEnd :
      (n : ℕ) (p : RetryPolicy N) (answer : ℕ → Option ℕ) (delay : ℕ → N)
      → ((i : ℕ) → suc i < n → backoff_for_retry numbers p i ≡ some (delay i))
      → 1 ≤ n
      → IsEnd n (deliver numbers p answer n)
  unfolding deliver
  deliver-IsEnd zero p answer delay calm le = absurd (omega arith)
  deliver-IsEnd (suc left) p answer delay calm le =
      attempts-IsEnd left 0 (suc left) p answer delay calm (omega arith)

  -- Whatever the endpoint answers, the delivery of an event whose policy can be read returns a result,
  -- if no backoff between two of its attempts overflows: after at least one attempt and at most as many as the policy has, and
  -- `on_failed` is called exactly if it is a failure.
  pub delivery_ends :
      (event : WebhookEvent N) (p : RetryPolicy N) (answer : ℕ → Option ℕ) (delay : ℕ → N)
      → policy numbers event ≡ some p
      → ((i : ℕ) → suc i < p.max_attempts → backoff_for_retry numbers p i ≡ some (delay i))
      → IsEnd p.max_attempts (deliver_webhook numbers event answer)
  unfolding deliver_webhook
  delivery_ends event p answer delay h calm =
      let least : 1 ≤ p.max_attempts =
        (unfold policy in attempts_positive numbers event.retry_policy p h) in
      rw (h, deliver_webhook) (deliver-IsEnd p.max_attempts p answer delay calm least)
