-- ===== src/Billing/Quotes.antt =====
-- The prices against the price list, and how they move with the number of devices.
use iotaps.Common.{ℕ, ◌*◌, ◌≤◌, ◌<◌, ◌≡◌, refl, ◌↔◌, String, arith, leb, if◌then◌else◌}
use iotaps.Common.Text.{is_word}
use iotaps.Common.Exec.{ok}
use iotaps.Billing.Prices.{
  Cycle, quote, unit_price, unit_price_monthly, total, normalize_cycle, validate_device_count,
  tier_price, cycle_name, annual_unit_price,
}

-- The price list in so many words.
abbrev pub listed : Cycle → ℕ → ℕ
listed Cycle.yearly n = 948
listed Cycle.monthly n =
    if leb n 10 then 99 else if leb n 50 then 79 else if leb n 200 then 69 else 59

monthly_listed : (n : ℕ) → 1 ≤ n → unit_price_monthly n ≡ ok (listed Cycle.monthly n)
unfolding unit_price_monthly validate_device_count tier_price
monthly_listed n h = ground arith

checked : (n : ℕ) → 1 ≤ n → validate_device_count n ≡ ok n
unfolding validate_device_count
checked n h = ground arith

price_listed :
    (n : ℕ) (text : String) (cycle : Cycle)
    → 1 ≤ n
    → normalize_cycle text ≡ ok cycle
    → unit_price n text ≡ ok (listed cycle n)
unfolding unit_price
price_listed n text Cycle.monthly h c = rw (c, checked n h) (monthly_listed n h)
price_listed n text Cycle.yearly h c = rw (c, checked n h)

named : (cycle : Cycle) → normalize_cycle (cycle_name cycle) ≡ ok cycle
unfolding normalize_cycle is_word
named Cycle.monthly = refl
named Cycle.yearly = refl

-- For at least one device and a text that names a cycle, `unit_price`, `total` and `quote` all give
-- the price list's price: 948 for a year, and for a month 99 up to 10 devices, 79 up to 50, 69 up to
-- 200 and 59 above, times the number of devices in the totals.
pub quote_lem :
    (n : ℕ) (text : String) (cycle : Cycle)
    → 1 ≤ n
    → normalize_cycle text ≡ ok cycle
    → (unit_price n text ≡ ok (listed cycle n))
      × (total n text ≡ ok (n * listed cycle n))
      × (quote n text
          ≡ ok (record {
            device_count = n;
            billing_cycle = cycle;
            unit_price = listed cycle n;
            total = n * listed cycle n;
          }))
unfolding total quote
quote_lem n text cycle h c = (
  price_listed n text cycle h c,
  rw (checked n h, price_listed n text cycle h c),
  rw (c, checked n h, price_listed n (cycle_name cycle) cycle h (named cycle)),
)

-- The monthly price per device never rises with the number of devices; twelve months at it cost
-- more than the yearly price for at most 10 devices, as much for 11 to 50, and less for more than 50.
pub monthly_against_yearly :
    (n m : ℕ)
    → 1 ≤ n
    → n ≤ m
    → (p : ℕ) × (q : ℕ) × (unit_price_monthly n ≡ ok p)
      × (unit_price_monthly m ≡ ok q)
      × (q ≤ p)
      × ((annual_unit_price < 12 * p) ↔ (n ≤ 10))
      × ((12 * p < annual_unit_price) ↔ (50 < n))
monthly_against_yearly n m h le = (
  listed Cycle.monthly n,
  listed Cycle.monthly m,
  monthly_listed n h,
  monthly_listed m (omega arith),
  ground arith,
  ground arith,
  ground arith,
)
