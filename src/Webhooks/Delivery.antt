-- ===== src/Webhooks/Delivery.antt =====
-- `deliver_webhook` of app/workers/webhook_dispatcher.py. What the endpoint answers to each attempt is
-- given: a status, or nothing where the poster raises. The request's headers and the log are left out.
use iotaps.Common.{
  ℕ, zero, suc, ◌-◌, Bool, true, false, not, ◌&&◌, Option, none, some, List, [], ◌∷◌, leb, ltb,
  if◌then◌else◌,
}
use iotaps.Webhooks.Policy.{Numbers, RetryPolicy, backoff_for_retry}
use iotaps.Webhooks.Event.{WebhookEvent, policy}

unfoldable pub is_success : ℕ → Bool
is_success status = leb 200 status && ltb status 300

pub record DeliveryResult : Type 0 where
  pub delivered : Bool
  pub attempts : ℕ
  pub last_status : Option ℕ

-- How a delivery ends: the result that it returns, or the exception of a number that overflows. With
-- it, the waits, and whether `on_failed` was called.
pub record Delivery (N : Type 0) : Type 0 where
  pub returned : Option DeliveryResult
  pub sleeps : List N
  pub recorded : Bool

unfoldable pub answered_well : Option ℕ → Bool
answered_well none = false
answered_well (some status) = is_success status

abbrev pub slept : {N : Type 0} → N → Delivery N → Delivery N
slept delay d = record d { sleeps = delay ∷ d.sleeps }

module _ {N : Type 0} (numbers : Numbers N) (p : RetryPolicy N) (answer : ℕ → Option ℕ) where
  -- The wait after an attempt that is not the last.
  unfoldable pub back_off : Option N → Delivery N → Delivery N
  back_off none rest = record { returned = none; sleeps = []; recorded = false }
  back_off (some delay) rest = if numbers.is_positive delay then slept delay rest else rest

  -- The loop from this attempt on, with the number of attempts that are left after it.
  unfoldable pub attempt_from : ℕ → ℕ → Delivery N
  attempt_from zero attempt = record {
    returned = some (record {
      delivered = answered_well (answer attempt);
      attempts = attempt;
      last_status = answer attempt;
    });
    sleeps = [];
    recorded = not (answered_well (answer attempt));
  }
  attempt_from (suc left) attempt =
      let rest = attempt_from left (suc attempt) in
      if answered_well (answer attempt)
      then record {
        returned =
            some (record { delivered = true; attempts = attempt; last_status = answer attempt });
        sleeps = [];
        recorded = false;
      }
      else back_off (backoff_for_retry numbers p (attempt - 1)) rest

  -- No attempt is made where the range is empty.
  unfoldable pub deliver : ℕ → Delivery N
  deliver zero = record {
    returned = some (record { delivered = false; attempts = 0; last_status = none });
    sleeps = [];
    recorded = true;
  }
  deliver (suc left) = attempt_from left 1

-- A policy that raises ends the delivery before any attempt.
unfoldable pub deliver_webhook :
    {N : Type 0} → Numbers N → WebhookEvent N → (ℕ → Option ℕ) → Delivery N
deliver_webhook numbers event answer = elim (policy numbers event) [
  | none ↦ record { returned = none; sleeps = []; recorded = false }
  | some p ↦ deliver numbers p answer p.max_attempts
]
