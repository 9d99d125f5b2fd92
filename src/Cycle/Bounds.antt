-- ===== src/Cycle/Bounds.antt =====
-- The length and the order of reading periods, and the end of the loop over the months.
use ccb_api.Base.{
  ℕ, zero, suc, true, false, ◌+◌, ◌≤◌, ◌<◌, ◌≡◌, refl, ap, arith, leb, if◌then◌else◌, le_or_lt, inl,
  inr, ◌⊎◌,
}
use ccb_api.Cycle.Calendar.{date, month_of, month_of_unique, month_start_step}
use ccb_api.Cycle.Data.{BillingCycleVersion}
use ccb_api.Cycle.Period.{reading_period_anchored_to}
use ccb_api.Cycle.Resolve.{walk_months}

-- The days of the month that every month has.
module _ (s e : ℕ) (first : 1 ≤ s) (regular : s ≤ 28) (last : 1 ≤ e) where
  month_of-date : (month : ℕ) → month_of (date month s) ≡ month
  month_of-date month =
      month_of_unique (date month s) month (omega arith, omega (arith, (month_start_step month).0))

  reading_period-eq :
      (anchor : ℕ)
      → reading_period_anchored_to s e anchor ≡ record {
        start = date (month_of anchor) s;
        end = date (month_of anchor + (if leb e s then 1 else 0)) e;
      }
  unfolding reading_period_anchored_to
  reading_period-eq anchor = rw (month_of-date (month_of anchor)) refl

  abbrev end_in : ℕ → ℕ
  end_in month = date (month + (if leb e s then 1 else 0)) e

  -- The end lies in the next month, or in the same one.
  end-cases :
      (month : ℕ)
      → ((e ≤ s) × (end_in month ≡ date (suc month) e)) ⊎ ((s < e) × (end_in month ≡ date month e))
  end-cases month =
      let next : month + 1 ≡ suc month = omega arith in
      let same : month + 0 ≡ month = omega arith in
      elim (le_or_lt e s) [
        | inl h ↦ let on : leb e s ≡ true = ground arith in inl (h, rw on (ap (λ m. date m e) next))
        | inr h ↦
            let off : leb e s ≡ false = ground arith in inr (h, rw off (ap (λ m. date m e) same))
      ]

  end_bounds :
      (month : ℕ) → e ≤ 31 → (date month s < end_in month) × (end_in month ≤ date month s + 31)
  end_bounds month h = elim (end-cases month) [
    | inl (le, q) ↦
        (omega (arith, q, (month_start_step month).0), omega (arith, q, (month_start_step month).1))
    | inr (lt, q) ↦ (omega (arith, q), omega (arith, q))
  ]

  -- A period starts in its anchor's month, and it ends after its start and at most 31 days later.
  pub reading_period_bounds :
      (anchor : ℕ)
      → e ≤ 31
      → (month_of (reading_period_anchored_to s e anchor).start ≡ month_of anchor)
        × ((reading_period_anchored_to s e anchor).start
            < (reading_period_anchored_to s e anchor).end)
        × ((reading_period_anchored_to s e anchor).end
            ≤ (reading_period_anchored_to s e anchor).start + 31)
  reading_period_bounds anchor h =
      let b = end_bounds (month_of anchor) h in
      rw (reading_period-eq anchor) (month_of-date (month_of anchor), b.0, b.1)

  periods_meet :
      (a b : ℕ)
      → e ≤ 28
      → month_of b ≡ suc (month_of a)
      → (reading_period_anchored_to s e a).end ≤ (reading_period_anchored_to s e b).start
  periods_meet a b h next =
      rw (reading_period-eq a, reading_period-eq b, next)
        (elim (end-cases (month_of a)) [
          | inl (le, q) ↦ omega (arith, q)
          | inr (lt, q) ↦ omega (arith, q, (month_start_step (month_of a)).0)
        ])

  -- For a start day and an end day of at most 28, a reading period starts in its anchor's month,
  -- ends after its start and at most 31 days later, and ends no later than the period of the next
  -- month starts.
  pub reading_periods_ordered :
      (a b : ℕ)
      → e ≤ 28
      → month_of b ≡ suc (month_of a)
      → (month_of (reading_period_anchored_to s e a).start ≡ month_of a)
        × ((reading_period_anchored_to s e a).start < (reading_period_anchored_to s e a).end)
        × ((reading_period_anchored_to s e a).end ≤ (reading_period_anchored_to s e a).start + 31)
        × ((reading_period_anchored_to s e a).end ≤ (reading_period_anchored_to s e b).start)
  reading_periods_ordered a b h next =
      let p = reading_period_bounds a (omega arith) in (p.0, p.1, p.2, periods_meet a b h next)

-- The loop over the months needs no more fuel than there are months up to `stop`.
pub walk_months-ends :
    (fuel month stop : ℕ) (v : BillingCycleVersion) (from until target : ℕ)
    → stop ≤ month + fuel
    → walk_months fuel month stop v from until target
      ≡ walk_months (suc fuel) month stop v from until target
unfolding walk_months
walk_months-ends zero month stop v from until target h = ground arith
walk_months-ends (suc fuel) month stop v from until target h =
    ground (arith, walk_months-ends fuel (suc month) stop v from until target (omega arith))
