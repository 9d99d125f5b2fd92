-- ===== src/Readiness/Data.antt =====
-- The enums, rows and result shapes of src/modules/billing-readiness/billing-readiness.service.ts.
-- Dates are day numbers, which are ordered as the ISO texts of the source are. The services that
-- the readiness service calls are the fields of `Services`.
use ccb_api.Base.{ℕ, String, Bool, Option, List}
use ccb_api.Base.Result.{Message}

pub data BillingReadinessStatus : Type 0 where
  ready on_hold not_ready : BillingReadinessStatus

pub data BillingReadinessReason : Type 0 where
  no_billing_cycle cycle_not_closed missing_tariff missing_meter_mapping missing_reading
        critical_or_high_anomaly medium_or_low_anomaly :
      BillingReadinessReason

pub data AnomalySeverity : Type 0 where
  critical high medium low : AnomalySeverity

-- `ReadingValidationStatus` and `ReadingApprovalStatus` of the sftp module, as far as the service
-- tells them apart.
pub record MeterReading : Type 0 where
  pub unit_id : ℕ
  pub property_id : ℕ
  pub reading_date : ℕ
  pub is_anomaly : Bool
  pub is_pending : Bool
  pub anomaly_severity : Option AnomalySeverity

pub record Property : Type 0 where
  pub id : ℕ
  pub name : String
  pub business_code : Option String
  pub code : Option String
  pub community_id : ℕ
  pub community_name : String

pub record UnitRow : Type 0 where
  pub id : ℕ
  pub property_id : ℕ
  pub is_active : Bool
  pub unit_number : String

-- A sub meter with the unit that it is mapped to, if any.
pub record SubMeter : Type 0 where
  pub unit_id : Option ℕ
  pub business_code : Option String

-- A bill run, as far as the readiness service reads it. Rows are listed newest first.
pub record BillRunRow : Type 0 where
  pub id : ℕ
  pub property_id : ℕ
  pub cycle_version_id : ℕ
  pub business_code : Option Message
  pub status : String

pub record Tables : Type 0 where
  pub properties : List Property
  pub units : List UnitRow
  pub sub_meters : List SubMeter
  pub meter_readings : List MeterReading
  pub bill_runs : List BillRunRow

-- The answer of `getReadingPeriodForProperty`.
pub record CycleInfo : Type 0 where
  pub version_id : ℕ
  pub master_id : ℕ
  pub period_start : ℕ
  pub period_end : ℕ
  pub closed : Bool

pub record HistoricalVersion : Type 0 where
  pub version_id : ℕ
  pub master_id : ℕ
  pub period_start : ℕ
  pub period_end : ℕ
  pub age_days : ℕ

pub record Period : Type 0 where
  pub period_start : ℕ
  pub period_end : ℕ
  pub master_id : ℕ

pub data VersionResolution : Type 0 where
  none_found : VersionResolution
  ambiguous : VersionResolution
  resolved : (version_id : ℕ) → Period → VersionResolution

-- What `resolveForUnitsAsOf` finds for a unit: nothing, one version's id, or several versions.
pub data TariffAsOf : Type 0 where
  no_match ambiguous : TariffAsOf
  version : ℕ → TariffAsOf

pub data ResidentType : Type 0 where
  owner tenant other : ResidentType

pub record Customer : Type 0 where
  pub id : ℕ
  pub full_name : String
  pub resident_type : ResidentType

-- The billing-cycle, tariff and customer services, by the calls that readiness makes.
pub record Services : Type 0 where
  pub reading_period : ℕ → Option CycleInfo
  pub historical_versions : ℕ → List HistoricalVersion
  pub resolve_version_for_reading_date : ℕ → ℕ → VersionResolution
  pub resolve_for_unit : ℕ → Option ℕ
  pub resolve_for_unit_as_of : ℕ → ℕ → TariffAsOf
  pub customers_of_unit : ℕ → List Customer

pub record AnomalyCounts : Type 0 where
  pub critical : ℕ
  pub high : ℕ
  pub medium : ℕ
  pub low : ℕ

pub record BillingReadinessItem : Type 0 where
  pub property_id : ℕ
  pub property_name : String
  pub property_code : Option String
  pub community_id : ℕ
  pub community_name : String
  pub cycle_period_start : Option ℕ
  pub cycle_period_end : Option ℕ
  pub cycle_version_id : Option ℕ
  pub status : BillingReadinessStatus
  pub reasons : List BillingReadinessReason
  pub billable_units : ℕ
  pub occupied_units : ℕ
  pub units_missing_tariff : ℕ
  pub units_missing_meter_mapping : ℕ
  pub units_missing_reading : ℕ
  pub anomalies : AnomalyCounts

pub data TariffStatus : Type 0 where
  resolved no_match ambiguous : TariffStatus

pub record UnitReport : Type 0 where
  pub unit_id : ℕ
  pub unit_number : String
  pub has_qualifying_reading : Bool
  pub meter_business_code : Option String
  pub tariff_status : TariffStatus
  pub tariff_version_id : Option ℕ
  pub resolved_customer : Option Customer
  pub occupant_verification_required : Bool

pub data Resolution : Type 0 where
  resolved none_found ambiguous : Resolution

-- The report on a past period; `resolution` and `reading_date` are `checkRecoveredReadingEligibility`'s.
pub record PeriodReport : Type 0 where
  pub property_id : ℕ
  pub property_name : String
  pub property_code : Option String
  pub cycle_version_id : Option ℕ
  pub period_start : Option ℕ
  pub period_end : Option ℕ
  pub age_days : ℕ
  pub eligible_for_billing : Bool
  pub blocking_reasons : List Message
  pub missing_reading_meter_ids : List Message
  pub existing_bill_run : Option BillRunRow
  pub units : List UnitReport
