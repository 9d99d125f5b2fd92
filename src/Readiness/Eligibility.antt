-- ===== src/Readiness/Eligibility.antt =====
-- When a past period is eligible for billing, and which answers its report depends on.
use ccb_api.Base.{
  ℕ, ◌≡◌, ◌≢◌, ◌↔◌, ◌≤◌, true, not, Option, none, some, List, [], ◌∷◌, ◌++◌, map, arith, All,
  length,
}
use ccb_api.Base.Result.{ok}
use ccb_api.Readiness.Data.{
  Property, UnitRow, Tables, HistoricalVersion, Period, TariffAsOf, Services, PeriodReport,
  UnitReport, CycleInfo, TariffStatus, BillRunRow,
}
use ccb_api.Readiness.Current.{billable_units, mapped_sub_meter}
use ccb_api.Readiness.Recovery.{
  find_property, choose_version, readings_of, existing_bill_run, missing_meter_ids, unit_report,
  count_units, is_status, bill_run_reasons, missing_reading_reasons, tariff_reasons,
}
use ccb_api.Readiness.Historical.{
  period_blocking_reasons, report_period, evaluate_historical_cycle, is_empty,
  check_recovered_reading_eligibility, unit_reports,
}

abbrev issue_count : List UnitReport → ℕ
issue_count = count_units (λ r. not (is_status TariffStatus.resolved r.tariff_status))

module _ (svc : Services) (t : Tables) where
  -- A unit whose past period can be billed: a mapped meter, an opening and a closing reading, and
  -- one tariff version as of the period's start.
  abbrev pub IsBillable : HistoricalVersion → UnitRow → Type 0
  IsBillable v u =
      (mapped_sub_meter t u.id ≢ none)
      × (2 ≤ readings_of t v u)
      × ((vid : ℕ) × (svc.resolve_for_unit_as_of u.id v.period_start ≡ TariffAsOf.version vid))

  missing_or_tariff_iff :
      (v : HistoricalVersion) (us : List UnitRow)
      → ((length (missing_meter_ids t v us) ≡ 0) × (issue_count (map (unit_report svc t v) us) ≡ 0))
        ↔ All (IsBillable v) us
  unfolding missing_meter_ids count_units unit_report
  missing_or_tariff_iff v [] = ground arith
  missing_or_tariff_iff v (u ∷ us) = ground (arith, missing_or_tariff_iff v us)

  is_empty_append_iff :
      (run : Option BillRunRow) (m n s i a b : ℕ)
      → (is_empty (bill_run_reasons run ++ (missing_reading_reasons m n ++ tariff_reasons s i a b))
          ≡ true)
        ↔ ((run ≡ none) × (m ≡ 0) × (i ≡ 0))
  is_empty_append_iff none m n s i a b = ground arith
  is_empty_append_iff (some r) m n s i a b = ground arith

  report_period-eligible_iff :
      (p : Property) (vid : ℕ) (v : HistoricalVersion)
      → ((report_period svc t p vid v).eligible_for_billing ≡ true)
        ↔ ((existing_bill_run t p.id vid ≡ none) × All (IsBillable v) (billable_units t p.id))
  unfolding report_period period_blocking_reasons
  report_period-eligible_iff p vid v =
      let us = billable_units t p.id in
      let units = missing_or_tariff_iff v us in
      let empty =
        is_empty_append_iff (existing_bill_run t p.id vid) (length (missing_meter_ids t v us))
          (length us) v.period_start (issue_count (unit_reports svc t v p.id))
          (count_units (λ u. is_status TariffStatus.no_match u.tariff_status)
            (unit_reports svc t v p.id))
          (count_units (λ u. is_status TariffStatus.ambiguous u.tariff_status)
            (unit_reports svc t v p.id)) in
      (
        λ h. let (e, m, i) = empty.0 h in (e, units.0 (m, i)),
        λ h. let (m, i) = units.1 h.1 in empty.1 (h.0, m, i),
      )

-- For a known property and a version that is found, the report on a past period is produced, and it
-- says that the period is eligible for billing exactly when no bill run of any status exists for
-- the property and version, and every active unit has a mapped meter, at least two readings in the
-- period and exactly one tariff version as of the period's start.
pub evaluate_historical_cycle-eligible_iff :
    (svc : Services) (t : Tables) (pid vid : ℕ) (override : Option Period) (p : Property)
    (v : HistoricalVersion)
    → find_property t pid ≡ some p
    → choose_version svc pid vid override ≡ some v
    → (r : PeriodReport) × (evaluate_historical_cycle svc t pid vid override ≡ ok r)
      × ((r.eligible_for_billing ≡ true) ↔ (
          (existing_bill_run t p.id vid ≡ none) × All (IsBillable svc t v) (billable_units t p.id)))
unfolding evaluate_historical_cycle
evaluate_historical_cycle-eligible_iff svc t pid vid override p v found chosen =
    (report_period svc t p vid v, rw (found, chosen), report_period-eligible_iff svc t p vid v)

-- The report on a recovered reading does not depend on today's cycle nor on the list of deprecated
-- versions: whatever these services answer, it is the same, since a resolved date is reported on in
-- the period that it was resolved to.
pub check_recovered_reading_eligibility_today_free :
    (svc : Services) (t : Tables) (pid d : ℕ) (current : ℕ → Option CycleInfo)
    (versions : ℕ → List HistoricalVersion)
    → check_recovered_reading_eligibility
        (record svc { reading_period = current; historical_versions = versions })
        t
        pid
        d
      ≡ check_recovered_reading_eligibility svc t pid d
unfolding check_recovered_reading_eligibility evaluate_historical_cycle choose_version report_period
    period_blocking_reasons unit_report
check_recovered_reading_eligibility_today_free svc t pid d current versions = ground arith
