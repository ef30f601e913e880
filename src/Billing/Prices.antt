-- ===== src/Billing/Prices.antt =====
-- app/services/billing_service.py in whole rupees. A device count is a natural number: one below 1 is
-- refused, as the code refuses every integer below 1.
use iotaps.Common.{
  ℕ, ◌*◌, Bool, true, String, Option, none, some, List, [], ◌∷◌, leb, ltb, if◌then◌else◌,
}
use iotaps.Common.Text.{is_word}
use iotaps.Common.Exec.{Result, ok, err}

pub data Cycle : Type 0 where
  monthly yearly : Cycle

pub data BillingError : Type 0 where
  invalid_device_count invalid_billing_cycle : BillingError

abbrev pub annual_unit_price : ℕ
annual_unit_price = 948

pub record PricingTier : Type 0 where
  pub min_devices : ℕ
  pub max_devices : Option ℕ
  pub unit_price_monthly : ℕ

abbrev pub pricing_tiers : List PricingTier
pricing_tiers =
    record { min_devices = 1; max_devices = some 10; unit_price_monthly = 99 }
    ∷ record { min_devices = 11; max_devices = some 50; unit_price_monthly = 79 }
    ∷ record { min_devices = 51; max_devices = some 200; unit_price_monthly = 69 }
    ∷ record { min_devices = 201; max_devices = none; unit_price_monthly = 59 }
    ∷ []

unfoldable pub validate_device_count : ℕ → Result BillingError ℕ
validate_device_count n = if ltb n 1 then err BillingError.invalid_device_count else ok n

unfoldable pub normalize_cycle : String → Result BillingError Cycle
normalize_cycle text =
    if is_word text "monthly"
    then ok Cycle.monthly
    else if is_word text "yearly"
    then ok Cycle.yearly
    else err BillingError.invalid_billing_cycle

-- Whether a count is within a tier's upper bound.
abbrev within : ℕ → Option ℕ → Bool
within n none = true
within n (some most) = leb n most

-- The first tier that is wide enough; the last price where none is.
unfoldable pub tier_price : ℕ → ℕ → List PricingTier → ℕ
tier_price n price [] = price
tier_price n price (tier ∷ tiers) =
    let rest = tier_price n tier.unit_price_monthly tiers in
    if within n tier.max_devices then tier.unit_price_monthly else rest

abbrev then_check :
    {A B : Type 0} → Result BillingError A → (A → Result BillingError B) → Result BillingError B
then_check (ok a) f = f a
then_check (err e) f = err e

unfoldable pub unit_price_monthly : ℕ → Result BillingError ℕ
unfolding validate_device_count tier_price
unit_price_monthly n = then_check (validate_device_count n) (λ m. ok (tier_price m 0 pricing_tiers))

abbrev price_in : ℕ → Cycle → Result BillingError ℕ
price_in n Cycle.yearly = ok annual_unit_price
price_in n Cycle.monthly = unit_price_monthly n

unfoldable pub unit_price : ℕ → String → Result BillingError ℕ
unfolding normalize_cycle validate_device_count unit_price_monthly
unit_price n text =
    then_check (normalize_cycle text)
      (λ cycle. then_check (validate_device_count n) (λ m. price_in m cycle))

unfoldable pub total : ℕ → String → Result BillingError ℕ
unfolding validate_device_count unit_price
total n text =
    then_check (validate_device_count n)
      (λ m. then_check (unit_price m text) (λ price. ok (m * price)))

pub record Quote : Type 0 where
  pub device_count : ℕ
  pub billing_cycle : Cycle
  pub unit_price : ℕ
  pub total : ℕ

-- The cycle's own name, which `quote` passes on.
abbrev pub cycle_name : Cycle → String
cycle_name Cycle.monthly = "monthly"
cycle_name Cycle.yearly = "yearly"

unfoldable pub quote : ℕ → String → Result BillingError Quote
unfolding normalize_cycle validate_device_count
quote n text = then_check (normalize_cycle text) (λ cycle.
    then_check (validate_device_count n) (λ m.
      then_check (unit_price m (cycle_name cycle)) (λ price. ok (record {
        device_count = m;
        billing_cycle = cycle;
        unit_price = price;
        total = m * price;
      }))))
