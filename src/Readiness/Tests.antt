-- ===== src/Readiness/Tests.antt =====
-- The readiness theorems at one property with two units, in an open and in a closed cycle.
use ccb_api.Base.{
  ℕ, ◌≡◌, refl, ◌↔◌, inr, true, false, Bool, Option, none, some, List, [], ◌∷◌, arith, All,
}
use ccb_api.Base.Result.{ok}
use ccb_api.Readiness.Data.{
  ready, on_hold, Property, UnitRow, MeterReading, Tables, CycleInfo, Services, AnomalySeverity,
  HistoricalVersion, VersionResolution, TariffAsOf, PeriodReport,
}
use ccb_api.Readiness.Current.{
  evaluate_property, billable_units, mapped_sub_meter, last_mapped, reading_count,
  unresolved_anomaly_counts,
}
use ccb_api.Readiness.Status.{evaluate_property-ready_iff, evaluate_property-on_hold_iff}
use ccb_api.Readiness.Recovery.{find_property, choose_version, existing_bill_run}
use ccb_api.Readiness.Historical.{evaluate_historical_cycle, check_recovered_reading_eligibility}
use ccb_api.Readiness.Eligibility.{
  IsBillable, evaluate_historical_cycle-eligible_iff,
  check_recovered_reading_eligibility_today_free,
}

abbrev villa : Property
villa = record {
  id = 7;
  name = "Villa";
  business_code = some "P-7";
  code = none;
  community_id = 1;
  community_name = "Creek";
}

abbrev may : CycleInfo
may = record { version_id = 3; master_id = 2; period_start = 100; period_end = 130; closed = true }

abbrev april : HistoricalVersion
april = record { version_id = 2; master_id = 2; period_start = 70; period_end = 99; age_days = 40 }

abbrev services : Services
services = record {
  reading_period = λ pid. some may;
  historical_versions = λ pid. april ∷ [];
  resolve_version_for_reading_date = λ pid d.
      VersionResolution.resolved 2 (record { period_start = 70; period_end = 99; master_id = 2 });
  resolve_for_unit = λ uid. some 1;
  resolve_for_unit_as_of = λ uid d. TariffAsOf.version 1;
  customers_of_unit = λ uid. [];
}

abbrev unit : ℕ → Bool → UnitRow
unit n active = record { id = n; property_id = 7; is_active = active; unit_number = "U" }

abbrev reading : ℕ → ℕ → Option AnomalySeverity → MeterReading
reading uid d none = record {
  unit_id = uid;
  property_id = 7;
  reading_date = d;
  is_anomaly = false;
  is_pending = true;
  anomaly_severity = none;
}
reading uid d (some s) = record {
  unit_id = uid;
  property_id = 7;
  reading_date = d;
  is_anomaly = true;
  is_pending = true;
  anomaly_severity = some s;
}

abbrev tables : List MeterReading → Tables
tables rows = record {
  properties = villa ∷ [];
  units = unit 11 true ∷ unit 12 false ∷ [];
  sub_meters = record { unit_id = some 11; business_code = some "M-1" } ∷ [];
  meter_readings = rows;
  bill_runs = [];
}

abbrev clean_tables : Tables
clean_tables = tables (reading 11 105 none ∷ reading 11 72 none ∷ reading 11 98 none ∷ [])

abbrev flagged_tables : Tables
flagged_tables = tables (reading 11 105 (some AnomalySeverity.low) ∷ [])

-- The readings are all pending.
evaluate_property-ready_example : (evaluate_property services clean_tables villa).status ≡ ready
unfolding billable_units mapped_sub_meter last_mapped reading_count unresolved_anomaly_counts
evaluate_property-ready_example =
    (evaluate_property-ready_iff services clean_tables villa).1
      (may, refl, (refl, ((cc, cc, cc), tt)), refl)

evaluate_property-on_hold_example :
    (evaluate_property services flagged_tables villa).status ≡ on_hold
unfolding billable_units mapped_sub_meter last_mapped reading_count unresolved_anomaly_counts
evaluate_property-on_hold_example =
    (evaluate_property-on_hold_iff services flagged_tables villa).1
      (may, refl, (refl, ((cc, cc, cc), tt)), (refl, refl, inr (omega arith)))

evaluate_historical_cycle-eligible_example :
    (r : PeriodReport) × (evaluate_historical_cycle services clean_tables 7 2 none ≡ ok r)
    × ((r.eligible_for_billing ≡ true) ↔ (
        (existing_bill_run clean_tables 7 2 ≡ none)
        × All (IsBillable services clean_tables april) (billable_units clean_tables 7)))
evaluate_historical_cycle-eligible_example =
    evaluate_historical_cycle-eligible_iff services clean_tables 7 2 none villa april
      (unfold find_property in refl) (unfold choose_version in refl)

check_recovered_reading_eligibility_today_free_example :
    check_recovered_reading_eligibility
      (record services { reading_period = λ pid. none; historical_versions = λ pid. [] })
      clean_tables
      7
      80
    ≡ check_recovered_reading_eligibility services clean_tables 7 80
check_recovered_reading_eligibility_today_free_example =
    check_recovered_reading_eligibility_today_free services clean_tables 7 80 (λ pid. none)
      (λ pid. [])
