-- ===== src/Billing/Periods.antt =====
-- Which date a billing period ends on.
use iotaps.Common.{
  sym, subst, Bool-cases, inl, inr, ℕ, zero, suc, ◌+◌, ◌*◌, min, ◌≤◌, ◌<◌, ◌≡◌, refl, true, false,
  arith, ltb, leb, ◌==◌, if◌then◌else◌, none, some,
}
use iotaps.Billing.Prices.{Cycle}
use iotaps.Billing.Calendar.{
  DateTime, days_in_month, IsValid, replace, on_day, fit_day, add_period, later,
}

days_bounds : (y m : ℕ) → (28 ≤ days_in_month y m) × (days_in_month y m ≤ 31)
unfolding days_in_month
days_bounds y m = ground arith

not_below : (day : ℕ) → 28 ≤ day → ltb day 28 ≡ false
not_below day h = ground arith

-- A month that is shorter than in another year is a February of 28 days.
days_same : (y y' m : ℕ) → days_in_month y' m < days_in_month y m → days_in_month y' m ≡ 28
unfolding days_in_month
days_same y y' m h = ground arith

replace-some :
    (d : DateTime) (y m day : ℕ)
    → 1 ≤ day
    → day ≤ days_in_month y m
    → replace d y m day ≡ some (on_day d y m day)
unfolding replace
replace-some d y m day h le = ground arith

replace-none : (d : DateTime) (y m day : ℕ) → days_in_month y m < day → replace d y m day ≡ none
unfolding replace
replace-none d y m day lt = ground arith

-- The date on the day, or on the last day of its month.
abbrev clamped : DateTime → ℕ → ℕ → ℕ → DateTime
clamped d y m day = on_day d y m (min day (days_in_month y m))

fit_day-clamped : (d : DateTime) (y m day : ℕ) → 1 ≤ day → fit_day d y m day ≡ clamped d y m day
unfolding fit_day
fit_day-clamped d y m zero h = absurd (omega arith)
fit_day-clamped d y m (suc day) h = elim (Bool-cases (leb (suc day) (days_in_month y m))) [
  | inl fits ↦
      (let kept : min (suc day) (days_in_month y m) ≡ suc day = ground arith in
        rw (replace-some d y m (suc day) h (ground arith), fit_day, kept))
  | inr long ↦
      (let (low, high) = days_bounds y m in
        let over : 28 ≤ day = ground arith in
        let same : min (suc day) (days_in_month y m) ≡ min day (days_in_month y m) = ground arith in
        rw (
          replace-none d y m (suc day) (ground arith),
          not_below day over,
          fit_day,
          fit_day-clamped d y m day (omega arith),
          same,
        ))
]

-- The month of a date, counted through the years.
abbrev pub month_index : DateTime → ℕ
month_index d = 12 * d.year + d.month

abbrev pub months : Cycle → ℕ
months Cycle.monthly = 1
months Cycle.yearly = 12

-- What the date on a day of another month, or on that month's last, has to do with the first.
abbrev Follows : DateTime → ℕ → DateTime → Type 0
Follows d n e =
    IsValid e
    × (later e d ≡ true)
    × (month_index e ≡ month_index d + n)
    × (e.day ≡ min d.day (days_in_month e.year e.month))
    × (e.second ≡ d.second)

clamped-IsValid :
    (d : DateTime) (y m : ℕ) → 1 ≤ d.day → 1 ≤ m → m ≤ 12 → IsValid (clamped d y m d.day)
clamped-IsValid d y m h low high =
    let (a, b) = days_bounds y m in (low, high, omega arith, omega arith)

later_month :
    (d : DateTime) (y m day : ℕ)
    → 1 ≤ d.month
    → d.month ≤ 12
    → 1 ≤ m
    → m ≤ 12
    → 12 * d.year + d.month < 12 * y + m
    → later (on_day d y m day) d ≡ true
unfolding later
later_month d y m day h1 h2 h3 h4 h = ground arith

clamped-Follows :
    (d : DateTime) (y m n : ℕ)
    → IsValid d
    → 1 ≤ m
    → m ≤ 12
    → 1 ≤ n
    → 12 * y + m ≡ month_index d + n
    → Follows d n (clamped d y m d.day)
clamped-Follows d y m n (m1, m12, d1, dim) low high n1 h = (
  clamped-IsValid d y m d1 low high,
  later_month d y m (min d.day (days_in_month y m)) m1 m12 low high (omega arith),
  h,
  refl,
  refl,
)

monthly_period :
    (d : DateTime)
    → 1 ≤ d.day
    → add_period d Cycle.monthly ≡ (
        if d.month == 12
        then clamped d (d.year + 1) 1 d.day
        else clamped d d.year (d.month + 1) d.day)
unfolding add_period
monthly_period d h =
    rw (fit_day-clamped d (d.year + 1) 1 d.day h, fit_day-clamped d d.year (d.month + 1) d.day h)

yearly_period :
    (d : DateTime) → IsValid d → add_period d Cycle.yearly ≡ clamped d (d.year + 1) d.month d.day
unfolding add_period
yearly_period d (m1, m12, d1, dim) =
    elim (Bool-cases (leb d.day (days_in_month (d.year + 1) d.month))) [
      | inl fits ↦
          (let kept : min d.day (days_in_month (d.year + 1) d.month) ≡ d.day = ground arith in
            rw (replace-some d (d.year + 1) d.month d.day d1 (ground arith), add_period, kept))
      | inr long ↦
          (let shorter : days_in_month (d.year + 1) d.month < days_in_month d.year d.month =
              ground arith in
            let (low, high) = days_bounds (d.year + 1) d.month in
            let cut : min d.day (days_in_month (d.year + 1) d.month) ≡ 28 =
              ground (arith, days_same d.year (d.year + 1) d.month shorter) in
            rw (replace-none d (d.year + 1) d.month d.day (ground arith), add_period, cut))
    ]

-- A period added to a valid date gives a valid date that is later, one month or twelve on, on the
-- same day or, where its month is shorter, on the month's last day, at the same time of day.
pub add_period_lem :
    (d : DateTime) (cycle : Cycle)
    → IsValid d
    → let e = add_period d cycle in
      IsValid e
      × (later e d ≡ true)
      × (month_index e ≡ month_index d + months cycle)
      × (e.day ≡ min d.day (days_in_month e.year e.month))
      × (e.second ≡ d.second)
add_period_lem d Cycle.monthly (m1, m12, d1, dim) =
    subst (Follows d 1) (sym (monthly_period d d1)) (elim (Bool-cases (d.month == 12)) [
      | inl last ↦
          (let next : Follows d 1 (clamped d (d.year + 1) 1 d.day) =
              clamped-Follows d (d.year + 1) 1 1 (m1, m12, d1, dim) (omega arith) (omega arith)
                (omega arith) (ground arith) in
            rw last next)
      | inr other ↦
          (let next : Follows d 1 (clamped d d.year (d.month + 1) d.day) =
              clamped-Follows d d.year (d.month + 1) 1 (m1, m12, d1, dim) (omega arith)
                (ground arith) (omega arith) (omega arith) in
            rw other next)
    ])
add_period_lem d Cycle.yearly v =
    let (m1, m12, d1, dim) = v in
    subst (Follows d 12) (sym (yearly_period d v))
      (clamped-Follows d (d.year + 1) d.month 12 v m1 m12 (omega arith) (omega arith))
