-- ===== src/Billing/Calendar.antt =====
-- `datetime` as app/services/subscription_service.py uses it, all in UTC, up to the year 9999, and
-- `_add_period` there.
use iotaps.Common.{
  ℕ, zero, suc, ◌+◌, ◌%◌, ◌≤◌, Bool, ◌&&◌, ◌||◌, not, Option, none, some, ltb, leb, ◌==◌,
  if◌then◌else◌,
}
use iotaps.Billing.Prices.{Cycle}

pub record DateTime : Type 0 where
  pub year : ℕ
  pub month : ℕ
  pub day : ℕ
  -- the second of the day
  pub second : ℕ

unfoldable pub is_leap : ℕ → Bool
is_leap y = y % 4 == 0 && (not (y % 100 == 0) || y % 400 == 0)

unfoldable pub days_in_month : ℕ → ℕ → ℕ
unfolding is_leap
days_in_month y m =
    if m == 2
    then if is_leap y then 29 else 28
    else if m == 4 || m == 6 || m == 9 || m == 11
    then 30
    else 31

abbrev pub IsValid : DateTime → Type 0
IsValid d = (1 ≤ d.month) × (d.month ≤ 12) × (1 ≤ d.day) × (d.day ≤ days_in_month d.year d.month)

-- `start.replace(year=…, month=…, day=…)`, which raises for a day that the month does not have.
unfoldable pub replace : DateTime → ℕ → ℕ → ℕ → Option DateTime
unfolding days_in_month
replace d y m day =
    if leb 1 day && leb day (days_in_month y m)
    then some (record { year = y; month = m; day = day; second = d.second })
    else none

abbrev pub on_day : DateTime → ℕ → ℕ → ℕ → DateTime
on_day d y m day = record { year = y; month = m; day = day; second = d.second }

-- The loop of `_add_period`: the day falls until the month has it, or to 28.
unfoldable pub fit_day : DateTime → ℕ → ℕ → ℕ → DateTime
fit_day d y m zero = on_day d y m 28
fit_day d y m (suc day) =
    let rest = fit_day d y m day in
    elim (replace d y m (suc day)) [
      | some x ↦ x
      | none ↦ if ltb day 28 then on_day d y m 28 else rest
    ]

unfoldable pub add_period : DateTime → Cycle → DateTime
add_period d Cycle.yearly = elim (replace d (d.year + 1) d.month d.day) [
  | some x ↦ x
  | none ↦ on_day d (d.year + 1) d.month 28
]
add_period d Cycle.monthly =
    if d.month == 12 then fit_day d (d.year + 1) 1 d.day else fit_day d d.year (d.month + 1) d.day

-- `a > b`
unfoldable pub later : DateTime → DateTime → Bool
later a b =
    ltb b.year a.year
    || b.year == a.year
      && (ltb b.month a.month
          || b.month == a.month && (ltb b.day a.day || b.day == a.day && ltb b.second a.second))
