-- ===== src/Cycle/Calendar.antt =====
-- Civil dates as day numbers, 0 being 1 January 1970, and months as numbers, 0 being January 1970: what
-- `new Date(year, month, day)`, `getFullYear` and `getMonth` say of dates from then on.
use ccb_api.Base.{
  ℕ, zero, suc, ◌+◌, ◌-◌, ◌/◌, ◌%◌, ◌≤◌, ◌<◌, ◌≡◌, refl, Bool, not, ◌&&◌, ◌||◌, arith, ltb, ◌==◌,
  if◌then◌else◌, inl, inr, le_or_lt,
}

unfoldable pub is_leap : ℕ → Bool
is_leap y = (y % 4 == 0 && not (y % 100 == 0)) || y % 400 == 0

unfoldable pub days_in_month : ℕ → ℕ
unfolding is_leap
days_in_month month =
    let m = month % 12 in
    if m == 1
    then (if is_leap (1970 + month / 12) then 29 else 28)
    else if (m == 3 || m == 5) || (m == 8 || m == 10)
    then 30
    else 31

unfoldable pub month_start : ℕ → ℕ
unfolding days_in_month
month_start zero = 0
month_start (suc month) = month_start month + days_in_month month

-- `new Date(year, month, day)`: a day beyond the month's end is one of a later month.
abbrev pub date : ℕ → ℕ → ℕ
date month day = month_start month + day - 1

-- The month of a day: the search goes on from a month and the day on which it starts.
unfoldable pub find_month : ℕ → ℕ → ℕ → ℕ → ℕ
unfolding days_in_month
find_month zero month start day = month
find_month (suc fuel) month start day =
    let next = start + days_in_month month in
    let rest = find_month fuel (suc month) next day in if ltb day next then month else rest

-- `getFullYear` and `getMonth`. There are no more months than days before a day.
unfoldable pub month_of : ℕ → ℕ
unfolding find_month
month_of day = find_month day 0 0 day

pub days_in_month_bounds : (month : ℕ) → (28 ≤ days_in_month month) × (days_in_month month ≤ 31)
unfolding days_in_month
days_in_month_bounds month = ground arith

pub month_start_step :
    (month : ℕ)
    → (month_start month + 28 ≤ month_start (suc month))
      × (month_start (suc month) ≤ month_start month + 31)
unfolding month_start
month_start_step month =
    (omega (arith, (days_in_month_bounds month).0), omega (arith, (days_in_month_bounds month).1))

pub month_start_mono : (j k : ℕ) → j ≤ k → month_start j ≤ month_start k
month_start_mono j zero h = ground arith
month_start_mono j (suc k) h = elim (le_or_lt j k) [
  | inl below ↦ omega (arith, month_start_mono j k below, (month_start_step k).0)
  | inr above ↦ let last : j ≡ suc k = omega arith in rw last (omega arith)
]

-- The day lies in the month.
abbrev pub IsIn : ℕ → ℕ → Type 0
IsIn day month = (month_start month ≤ day) × (day < month_start (suc month))

find_month-IsIn :
    (fuel month day : ℕ)
    → month_start month ≤ day
    → day ≤ month_start month + fuel
    → IsIn day (find_month fuel month (month_start month) day)
unfolding find_month month_start
find_month-IsIn zero month day low high = (low, omega (arith, (days_in_month_bounds month).0))
find_month-IsIn (suc fuel) month day low high = elim (le_or_lt (month_start (suc month)) day) [
  | inl after ↦ ground (
    arith,
    find_month-IsIn fuel (suc month) day after (omega (arith, (days_in_month_bounds month).0)),
  )
  | inr here ↦ ground arith
]

pub month_of-IsIn : (day : ℕ) → IsIn day (month_of day)
unfolding month_of month_start
month_of-IsIn day = find_month-IsIn day 0 day (omega arith) (omega arith)

pub month_of_unique : (day month : ℕ) → IsIn day month → month_of day ≡ month
month_of_unique day month i =
    let j = month_of-IsIn day in
    elim (le_or_lt (month_of day) month) [
      | inl below ↦ elim (le_or_lt month (month_of day)) [
        | inl same ↦ omega arith
        | inr less ↦
            absurd (omega (arith, month_start_mono (suc (month_of day)) month less, j.1, i.0))
      ]
      | inr above ↦
          absurd (omega (arith, month_start_mono (suc month) (month_of day) above, j.0, i.1))
    ]

-- 29 February 2024, and what 31 February 2023 stands for.
leap_day : date 649 29 ≡ 19782
unfolding month_start
leap_day = refl

rolled_over : month_of (date 637 31) ≡ 638
unfolding month_start month_of
rolled_over = refl
