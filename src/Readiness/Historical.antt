-- ===== src/Readiness/Historical.antt =====
-- `evaluateHistoricalCycle` and `checkRecoveredReadingEligibility` themselves.
use ccb_api.Base.{
  ℕ, Bool, true, false, not, Option, none, some, List, [], ◌∷◌, ◌++◌, map, or_else, length,
}
use ccb_api.Base.Result.{Message, text, lit, num, Result, ok, ◌>>=◌, or_throw, not_found}
use ccb_api.Readiness.Data.{
  Property, Tables, HistoricalVersion, Period, VersionResolution, Services, TariffStatus,
  UnitReport, Resolution, PeriodReport,
}
use ccb_api.Readiness.Current.{billable_units}
use ccb_api.Readiness.Recovery.{
  property_not_found, find_property, choose_version, unit_report, missing_meter_ids,
  bill_run_reasons, missing_reading_reasons, tariff_reasons, is_status, existing_bill_run,
  count_units,
}

-- A report that blocks for one reason and lists nothing.
abbrev pub blocked_report : Property → Option ℕ → Message → PeriodReport
blocked_report p vid reason = record {
  property_id = p.id;
  property_name = p.name;
  property_code = or_else p.business_code p.code;
  cycle_version_id = vid;
  period_start = none;
  period_end = none;
  age_days = 0;
  eligible_for_billing = false;
  blocking_reasons = reason ∷ [];
  missing_reading_meter_ids = [];
  existing_bill_run = none;
  units = [];
}

abbrev pub is_empty {ℓ} : {A : Type ℓ} → List A → Bool
is_empty [] = true
is_empty (x ∷ xs) = false

-- The reports on the active units.
abbrev pub unit_reports : Services → Tables → HistoricalVersion → ℕ → List UnitReport
unit_reports svc t v pid = map (unit_report svc t v) (billable_units t pid)

-- The blocking reasons in the order in which they are pushed.
unfoldable pub period_blocking_reasons :
    Services → Tables → ℕ → ℕ → HistoricalVersion → List Message
period_blocking_reasons svc t pid vid v =
    let units = unit_reports svc t v pid in
    let missing = missing_meter_ids t v (billable_units t pid) in
    bill_run_reasons (existing_bill_run t pid vid)
    ++ (missing_reading_reasons (length missing) (length (billable_units t pid))
        ++ tariff_reasons v.period_start
            (count_units (λ u. not (is_status TariffStatus.resolved u.tariff_status)) units)
            (count_units (λ u. is_status TariffStatus.no_match u.tariff_status) units)
            (count_units (λ u. is_status TariffStatus.ambiguous u.tariff_status) units))

unfoldable pub report_period : Services → Tables → Property → ℕ → HistoricalVersion → PeriodReport
report_period svc t p vid v =
    let reasons = period_blocking_reasons svc t p.id vid v in
    record {
      property_id = p.id;
      property_name = p.name;
      property_code = or_else p.business_code p.code;
      cycle_version_id = some vid;
      period_start = some v.period_start;
      period_end = some v.period_end;
      age_days = v.age_days;
      eligible_for_billing = is_empty reasons;
      blocking_reasons = reasons;
      missing_reading_meter_ids = missing_meter_ids t v (billable_units t p.id);
      existing_bill_run = existing_bill_run t p.id vid;
      units = unit_reports svc t v p.id;
    }

abbrev pub invalid_version : Message
invalid_version =
    text "Selected cycle version is not a valid historical or current version for this property"

abbrev pub report_version :
    Services → Tables → Property → ℕ → Option HistoricalVersion → PeriodReport
report_version svc t p vid none = blocked_report p (some vid) invalid_version
report_version svc t p vid (some v) = report_period svc t p vid v

unfoldable pub evaluate_historical_cycle :
    Services → Tables → ℕ → ℕ → Option Period → Result PeriodReport
evaluate_historical_cycle svc t pid vid override = do
  p ← or_throw (find_property t pid) (not_found property_not_found)
  ok (report_version svc t p vid (choose_version svc pid vid override))

-- The report with the date that was asked about and how it was resolved.
pub record RecoveryReport : Type 0 where
  pub reading_date : ℕ
  pub resolution : Resolution
  pub report : PeriodReport

abbrev pub none_reason : ℕ → Message
none_reason d =
    lit "No billing-cycle version covers "
    ∷ num d
    ∷ lit " for this property — the reading cannot be resolved to a billing period"
    ∷ []

abbrev pub ambiguous_reason : ℕ → Message
ambiguous_reason d =
    lit "More than one billing-cycle version's computed reading period covers "
    ∷ num d
    ∷ lit
        " — this cannot be resolved automatically and requires manual review of the property's billing-cycle configuration before recovery can proceed"
    ∷ []

-- A resolved date is reported on in the very period that it was resolved to.
abbrev pub check_resolved :
    Services → Tables → Property → ℕ → VersionResolution → Result RecoveryReport
check_resolved svc t p d VersionResolution.none_found = ok (record {
  reading_date = d;
  resolution = Resolution.none_found;
  report = blocked_report p none (none_reason d);
})
check_resolved svc t p d VersionResolution.ambiguous = ok (record {
  reading_date = d;
  resolution = Resolution.ambiguous;
  report = blocked_report p none (ambiguous_reason d);
})
check_resolved svc t p d (VersionResolution.resolved vid q) = do
  r ← evaluate_historical_cycle svc t p.id vid (some q)
  ok (record { reading_date = d; resolution = Resolution.resolved; report = r })

unfoldable pub check_recovered_reading_eligibility :
    Services → Tables → ℕ → ℕ → Result RecoveryReport
check_recovered_reading_eligibility svc t pid d = do
  p ← or_throw (find_property t pid) (not_found property_not_found)
  check_resolved svc t p d (svc.resolve_version_for_reading_date pid d)
