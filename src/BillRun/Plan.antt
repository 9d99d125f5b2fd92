-- ===== src/BillRun/Plan.antt =====
-- `getValidationChecks`, and what `submitWithinTransaction` finds out before it inserts a run: the
-- recovery path and the routine path. The labels and details of the checks are left out.
use ccb_api.Base.{
  ℕ, Bool, true, false, not, ◌&&◌, Option, none, some, List, [], ◌∷◌, ◌++◌, ◌==◌, if◌then◌else◌,
  is_none, get_or_else, or_else, find, length, count_if, any,
}
use ccb_api.Base.Result.{
  Message, text, lit, num, join, not_found, bad_request, Result, ok, ◌>>=◌, ◌>>◌, throw_if,
  or_throw,
}
use mathlib.Core.Option
use ccb_api.Readiness.Data.{
  BillingReadinessStatus, BillingReadinessReason, BillingReadinessItem, TariffStatus, Resolution,
  Services,
}
use ccb_api.Readiness.Current.{get_readiness}
use ccb_api.Readiness.Recovery.{is_status, property_not_found}
use ccb_api.Readiness.Historical.{RecoveryReport, check_recovered_reading_eligibility}
use ccb_api.BillRun.Data.{BillRun, State, Surroundings, is_active_for, tables_in}

abbrev pub first {ℓ} : {A : Type ℓ} → List A → Option A
first [] = none
first (x ∷ xs) = some x

abbrev pub is_ready : BillingReadinessStatus → Bool
is_ready BillingReadinessStatus.ready = true
is_ready _ = false

abbrev pub status_word : BillingReadinessStatus → Message
status_word BillingReadinessStatus.on_hold = text "On Hold"
status_word _ = text "Not Ready"

abbrev pub is_open_cycle_reason : BillingReadinessReason → Bool
is_open_cycle_reason BillingReadinessReason.no_billing_cycle = true
is_open_cycle_reason BillingReadinessReason.cycle_not_closed = true
is_open_cycle_reason _ = false

-- An active run of the property in the cycle version.
abbrev pub existing_active : State → ℕ → ℕ → Option BillRun
existing_active st pid vid = find (is_active_for pid vid) st.runs

pub data CheckId : Type 0 where
  property_exists cycle_closed billing_ready no_critical_or_high_anomaly tariff_assigned
        no_duplicate :
      CheckId

pub record Check : Type 0 where
  pub id : CheckId
  pub passed : Bool

abbrev pub has_no_duplicate : State → ℕ → Option ℕ → Bool
has_no_duplicate st pid none = true
has_no_duplicate st pid (some vid) = is_none (existing_active st pid vid)

abbrev pub checks_of : State → ℕ → BillingReadinessItem → List Check
checks_of st pid r =
    record { id = CheckId.cycle_closed; passed = not (any is_open_cycle_reason r.reasons) }
    ∷ record { id = CheckId.billing_ready; passed = is_ready r.status }
    ∷ record {
      id = CheckId.no_critical_or_high_anomaly;
      passed = (r.anomalies.critical == 0) && (r.anomalies.high == 0);
    }
    ∷ record { id = CheckId.tariff_assigned; passed = r.units_missing_tariff == 0 }
    ∷ record { id = CheckId.no_duplicate; passed = has_no_duplicate st pid r.cycle_version_id }
    ∷ []

-- `checks.every((c) => c.passed)`
abbrev pub all_passed : List Check → Bool
all_passed [] = true
all_passed (c ∷ cs) = c.passed && all_passed cs

unfoldable pub get_validation_checks : Surroundings → ℕ → State → List Check
get_validation_checks env pid st =
    elim (first (get_readiness env.services (tables_in env st) (some pid) none)) [
      | none ↦ record { id = CheckId.property_exists; passed = false } ∷ []
      | some r ↦ checks_of st pid r
    ]

-- The figures that a submission stores.
pub record Plan : Type 0 where
  pub cycle_master_id : ℕ
  pub cycle_version_id : ℕ
  pub period_start : ℕ
  pub period_end : ℕ
  pub billable_units : ℕ
  pub units_missing_tariff : ℕ
  pub units_missing_meter_mapping : ℕ
  pub units_missing_reading : ℕ
  pub critical_anomalies : ℕ
  pub high_anomalies : ℕ

pub record Recovery : Type 0 where
  pub reading_date : ℕ
  pub occupant_verification_confirmed : Bool

-- The version that a report names, if the reading's date was resolved.
abbrev pub resolved_version : RecoveryReport → Option ℕ
resolved_version e = elim e.resolution [
  | Resolution.resolved ↦ e.report.cycle_version_id
  | _ ↦ none
]

abbrev pub unresolved_reason : ℕ → List Message → Message
unresolved_reason d [] = lit "Could not resolve a billing-cycle version for " ∷ num d ∷ []
unresolved_reason d (m ∷ ms) = m

abbrev pub not_eligible_reason : List Message → Message
not_eligible_reason [] = text "This period is not eligible for billing"
not_eligible_reason (m ∷ ms) = join (text "; ") (m ∷ ms)

-- A master id of 0 counts as missing.
abbrev pub master_of : Services → ℕ → ℕ → Option ℕ
master_of svc pid vid =
    let found =
      or_else
        (Option.map (λ v. v.master_id)
          (find (λ v. v.version_id == vid) (svc.historical_versions pid)))
        (Option.map (λ c. c.master_id) (svc.reading_period pid)) in
    Option.bind found (λ m. if m == 0 then none else some m)

abbrev pub verification_required : Message
verification_required =
    text
      "Historical occupant verification is required before a past-period bill run can be submitted — confirm the current occupant is correct for this period and resubmit with occupantVerificationConfirmed=true"

-- The recovery path. A report on a resolved date has its period.
unfoldable pub plan_recovery : Surroundings → ℕ → Recovery → State → Result Plan
plan_recovery env pid recovery st = do
  e ← check_recovered_reading_eligibility env.services (tables_in env st) pid recovery.reading_date
  vid ←
      or_throw (resolved_version e)
        (bad_request (unresolved_reason recovery.reading_date e.report.blocking_reasons))
  throw_if (not recovery.occupant_verification_confirmed) (bad_request verification_required)
  throw_if (not e.report.eligible_for_billing)
      (bad_request (not_eligible_reason e.report.blocking_reasons))
  master ←
      or_throw (master_of env.services pid vid)
        (bad_request (text "Could not resolve a billing-cycle master for this property"))
  ok (record {
    cycle_master_id = master;
    cycle_version_id = vid;
    period_start = get_or_else e.report.period_start 0;
    period_end = get_or_else e.report.period_end 0;
    billable_units = length e.report.units;
    units_missing_tariff =
        count_if (λ u. not (is_status TariffStatus.resolved u.tariff_status)) e.report.units;
    units_missing_meter_mapping = count_if (λ u. is_none u.meter_business_code) e.report.units;
    units_missing_reading = length e.report.missing_reading_meter_ids;
    critical_anomalies = 0;
    high_anomalies = 0;
  })

abbrev pub not_ready_reason : BillingReadinessStatus → Message
not_ready_reason status =
    lit "Property is "
    ∷ (status_word status
        ++ text " — resolve outstanding readiness issues before submitting a bill run")

-- The routine path.
unfoldable pub plan_routine : Surroundings → ℕ → State → Result Plan
plan_routine env pid st = do
  r ←
      or_throw (first (get_readiness env.services (tables_in env st) (some pid) none))
        (not_found property_not_found)
  throw_if (not (is_ready r.status)) (bad_request (not_ready_reason r.status))
  c ←
      or_throw (env.services.reading_period pid)
        (bad_request (text "No billing cycle configured for this property"))
  throw_if (not c.closed) (bad_request (text "The billing cycle has not closed yet"))
  ok (record {
    cycle_master_id = c.master_id;
    cycle_version_id = c.version_id;
    period_start = c.period_start;
    period_end = c.period_end;
    billable_units = r.billable_units;
    units_missing_tariff = r.units_missing_tariff;
    units_missing_meter_mapping = r.units_missing_meter_mapping;
    units_missing_reading = r.units_missing_reading;
    critical_anomalies = r.anomalies.critical;
    high_anomalies = r.anomalies.high;
  })

abbrev pub plan_for : Surroundings → ℕ → Option Recovery → State → Result Plan
plan_for env pid none st = plan_routine env pid st
plan_for env pid (some recovery) st = plan_recovery env pid recovery st
