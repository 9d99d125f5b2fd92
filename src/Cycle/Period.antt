-- ===== src/Cycle/Period.antt =====
-- `readingPeriodAnchoredTo`, `computeBillCycleDates`, `getReadingPeriodForProperty`, `getVersionDayConfig` and
-- `getHistoricalVersionsForProperty`.
use ccb_api.Base.{
  ℕ, ◌+◌, ◌-◌, ◌*◌, ◌/◌, ◌&&◌, ◌||◌, Option, none, some, List, [], ◌∷◌, map, ltb, leb, ◌==◌,
  if◌then◌else◌, filter, is_some, get_or_else,
}
use ccb_api.Readiness.Data.{CycleInfo, HistoricalVersion}
use ccb_api.BillRun.Data.{DayConfig}
use ccb_api.Cycle.Calendar.{date, month_of}
use ccb_api.Cycle.Data.{
  BillingCycleVersion, State, version_by_id, master_of_property, day_of, midnight, ms_per_day,
  is_deprecated,
}

pub record ReadingPeriod : Type 0 where
  pub start : ℕ
  pub end : ℕ

-- The period that starts in the anchor's month, by the days of the month; the second day is one of
-- the next month unless it is the later one.
unfoldable pub reading_period_anchored_to : ℕ → ℕ → ℕ → ReadingPeriod
unfolding month_of
reading_period_anchored_to start_day end_day anchor =
    let start = date (month_of anchor) start_day in
    let offset = if leb end_day start_day then 1 else 0 in
    record { start = start; end = date (month_of start + offset) end_day }

-- `currentReadingPeriod` at a time.
abbrev pub current_reading_period : ℕ → ℕ → ℕ → ReadingPeriod
current_reading_period start_day end_day now =
    reading_period_anchored_to start_day end_day (day_of now)

pub record CycleDates : Type 0 where
  pub period_start : ℕ
  pub period_end : ℕ
  pub generation_date : ℕ
  pub issue_date : ℕ
  pub due_date : ℕ

-- The dates that the screens show; no day of a month is 0.
unfoldable pub compute_bill_cycle_dates : BillingCycleVersion → ℕ → Option CycleDates
unfolding reading_period_anchored_to
compute_bill_cycle_dates v now =
    let p = current_reading_period v.reading_start_day v.reading_end_day now in
    if v.reading_start_day == 0 || v.reading_end_day == 0
    then none
    else some (record {
      period_start = p.start;
      period_end = p.end;
      generation_date = p.end + v.bill_generation_days;
      issue_date = p.end + v.bill_issue_days;
      due_date = p.end + v.bill_issue_days + v.bill_due_days;
    })

-- The current version of a property's master, whatever its status.
abbrev pub current_version_of : ℕ → State → Option (ℕ × BillingCycleVersion)
current_version_of pid st = elim (master_of_property pid st) [
  | none ↦ none
  | some m ↦ elim m.current_version_id [
    | none ↦ none
    | some vid ↦ elim (version_by_id vid st) [ none ↦ none | some v ↦ some (m.id, v) ]
  ]
]

abbrev pub cycle_info : ℕ → ℕ → BillingCycleVersion → CycleInfo
cycle_info now master v =
    let p = current_reading_period v.reading_start_day v.reading_end_day now in
    record {
      version_id = v.id;
      master_id = master;
      period_start = p.start;
      period_end = p.end;
      closed = ltb (midnight p.end) now;
    }

unfoldable pub get_reading_period_for_property : State → ℕ → ℕ → Option CycleInfo
unfolding reading_period_anchored_to
get_reading_period_for_property st now pid = elim (current_version_of pid st) [
  | none ↦ none
  | some (master, v) ↦ some (cycle_info now master v)
]

unfoldable pub get_version_day_config : State → ℕ → Option DayConfig
get_version_day_config st vid = elim (version_by_id vid st) [
  | none ↦ none
  | some v ↦ some (record {
    bill_generation_days = v.bill_generation_days;
    bill_issue_days = v.bill_issue_days;
    bill_due_days = v.bill_due_days;
  })
]

-- `Math.max(0, Math.round((now - end) / MS_PER_DAY))`
abbrev pub age_in_days : ℕ → ℕ → ℕ
age_in_days now end = (2 * (now - midnight end) + ms_per_day) / (2 * ms_per_day)

-- Latest `effectiveFrom` first; those without one last.
abbrev pub insert_by_effective :
    BillingCycleVersion → List BillingCycleVersion → List BillingCycleVersion
insert_by_effective v [] = v ∷ []
insert_by_effective v (w ∷ versions) =
    if leb (get_or_else w.effective_from 0) (get_or_else v.effective_from 0)
    then v ∷ w ∷ versions
    else w ∷ insert_by_effective v versions

abbrev pub latest_effective_first : List BillingCycleVersion → List BillingCycleVersion
latest_effective_first [] = []
latest_effective_first (v ∷ versions) = insert_by_effective v (latest_effective_first versions)

abbrev pub historical_version : ℕ → ℕ → BillingCycleVersion → HistoricalVersion
historical_version now master v =
    let p =
      reading_period_anchored_to v.reading_start_day v.reading_end_day
        (get_or_else v.effective_from 0) in
    record {
      version_id = v.id;
      master_id = master;
      period_start = p.start;
      period_end = p.end;
      age_days = age_in_days now p.end;
    }

unfoldable pub get_historical_versions_for_property : State → ℕ → ℕ → List HistoricalVersion
unfolding reading_period_anchored_to
get_historical_versions_for_property st now pid = elim (master_of_property pid st) [
  | none ↦ []
  | some m ↦ map (historical_version now m.id) (
      filter (λ v. is_some v.effective_from)
        (latest_effective_first
          (filter (λ v. (v.master_id == m.id) && is_deprecated v) st.versions)))
]
