-- ===== src/Readiness/Recovery.antt =====
-- `evaluateHistoricalCycle` and `checkRecoveredReadingEligibility`: the report on a past period.
use ccb_api.Base.{
  ℕ, String, Bool, true, false, ◌&&◌, Option, none, some, List, [], ◌∷◌, ◌++◌, leb, ltb, ◌==◌,
  if◌then◌else◌, get_or_else, or_else, find, count_if,
}
use ccb_api.Base.Result.{Message, text, lit, num}
use mathlib.Core.Option
use ccb_api.Readiness.Data.{
  Property, UnitRow, BillRunRow, Tables, CycleInfo, HistoricalVersion, Period, TariffAsOf,
  ResidentType, owner, tenant, Customer, Services, TariffStatus, UnitReport,
}
use ccb_api.Readiness.Current.{mapped_sub_meter, reading_count}

abbrev pub min_qualifying_readings_per_unit : ℕ
min_qualifying_readings_per_unit = 2

abbrev pub property_not_found : Message
property_not_found = text "Property not found"

unfoldable pub find_property : Tables → ℕ → Option Property
find_property t pid = find (λ p. p.id == pid) t.properties

abbrev pub is_tenant : ResidentType → Bool
is_tenant tenant = true
is_tenant _ = false

abbrev pub is_owner : ResidentType → Bool
is_owner owner = true
is_owner _ = false

-- `resolveCurrentCustomer(...).currentCustomer`: the tenant, else the owner.
unfoldable pub current_customer : List Customer → Option Customer
current_customer cs =
    or_else (find (λ c. is_tenant c.resident_type) cs) (find (λ c. is_owner c.resident_type) cs)

-- The version that `getReadingPeriodForProperty` calls current, if it has this id.
abbrev pub current_version : Option CycleInfo → ℕ → Option HistoricalVersion
current_version none vid = none
current_version (some c) vid =
    if c.version_id == vid
    then some (record {
      version_id = c.version_id;
      master_id = c.master_id;
      period_start = c.period_start;
      period_end = c.period_end;
      age_days = 0;
    })
    else none

-- The period to report on: the caller's, else the deprecated version's, else the current one's.
unfoldable pub choose_version : Services → ℕ → ℕ → Option Period → Option HistoricalVersion
choose_version svc pid vid (some q) = some (record {
  version_id = vid;
  master_id = q.master_id;
  period_start = q.period_start;
  period_end = q.period_end;
  age_days = 0;
})
choose_version svc pid vid none =
    or_else (find (λ v. v.version_id == vid) (svc.historical_versions pid))
      (current_version (svc.reading_period pid) vid)

abbrev pub to_tariff_status : TariffAsOf → TariffStatus
to_tariff_status TariffAsOf.no_match = TariffStatus.no_match
to_tariff_status TariffAsOf.ambiguous = TariffStatus.ambiguous
to_tariff_status (TariffAsOf.version v) = TariffStatus.resolved

abbrev pub tariff_version_of : TariffAsOf → Option ℕ
tariff_version_of (TariffAsOf.version v) = some v
tariff_version_of _ = none

abbrev pub readings_of : Tables → HistoricalVersion → UnitRow → ℕ
readings_of t v u = get_or_else (reading_count t v.period_start v.period_end u.id) 0

abbrev pub has_qualifying_reading : Tables → HistoricalVersion → UnitRow → Bool
has_qualifying_reading t v u = elim (mapped_sub_meter t u.id) [
  | none ↦ false
  | some _ ↦ leb min_qualifying_readings_per_unit (readings_of t v u)
]

unfoldable pub unit_report : Services → Tables → HistoricalVersion → UnitRow → UnitReport
unit_report svc t v u =
    let tariff = svc.resolve_for_unit_as_of u.id v.period_start in
    record {
      unit_id = u.id;
      unit_number = u.unit_number;
      has_qualifying_reading = has_qualifying_reading t v u;
      meter_business_code = Option.bind (mapped_sub_meter t u.id) (λ s. s.business_code);
      tariff_status = to_tariff_status tariff;
      tariff_version_id = tariff_version_of tariff;
      resolved_customer = current_customer (svc.customers_of_unit u.id);
      occupant_verification_required = true;
    }

abbrev pub unit_label : ℕ → Message
unit_label uid = lit "unit-" ∷ num uid ∷ []

abbrev pub meter_label : ℕ → Option String → Message
meter_label uid none = unit_label uid
meter_label uid (some code) = text code

abbrev pub only_one_reading : ℕ → Message
only_one_reading n =
    if n == 1
    then text " (only 1 reading in this period — no opening reading to compute consumption)"
    else []

-- What one unit adds to `missingReadingMeterIds`.
unfoldable pub missing_meter_id : Tables → HistoricalVersion → UnitRow → List Message
missing_meter_id t v u = elim (mapped_sub_meter t u.id) [
  | none ↦ (unit_label u.id ++ text " (no meter mapped)") ∷ []
  | some s ↦
      if leb min_qualifying_readings_per_unit (readings_of t v u)
      then []
      else (meter_label u.id s.business_code ++ only_one_reading (readings_of t v u)) ∷ []
]

unfoldable pub missing_meter_ids : Tables → HistoricalVersion → List UnitRow → List Message
unfolding missing_meter_id
missing_meter_ids t v [] = []
missing_meter_ids t v (u ∷ us) = missing_meter_id t v u ++ missing_meter_ids t v us

abbrev pub run_label : BillRunRow → Message
run_label r = elim r.business_code [ none ↦ lit "#" ∷ num r.id ∷ [] | some code ↦ code ]

abbrev pub bill_run_reasons : Option BillRunRow → List Message
bill_run_reasons none = []
bill_run_reasons (some r) =
    (lit "A bill run (" ∷ run_label r
      ++ lit ") already exists for this property and cycle version — status: " ∷ lit r.status ∷ [])
    ∷ []

abbrev pub missing_reading_reasons : ℕ → ℕ → List Message
missing_reading_reasons missing total =
    if ltb 0 missing
    then (num missing
        ∷ lit " of "
        ∷ num total
        ∷ lit
            " required meter(s) do not have enough readings in this period to compute consumption (at least "
        ∷ num min_qualifying_readings_per_unit
        ∷ lit " needed — an opening and a closing reading) — never assumed to be zero consumption"
        ∷ [])
      ∷ []
    else []

abbrev pub is_status : TariffStatus → TariffStatus → Bool
is_status TariffStatus.resolved TariffStatus.resolved = true
is_status TariffStatus.no_match TariffStatus.no_match = true
is_status TariffStatus.ambiguous TariffStatus.ambiguous = true
is_status _ _ = false

abbrev pub tariff_reasons : ℕ → ℕ → ℕ → ℕ → List Message
tariff_reasons period_start issues no_match ambiguous =
    if ltb 0 issues
    then (lit "Tariff as of "
        ∷ num period_start
        ∷ lit " could not be unambiguously resolved for "
        ∷ num issues
        ∷ lit " unit(s) ("
        ∷ num no_match
        ∷ lit " no match, "
        ∷ num ambiguous
        ∷ lit " ambiguous/overlapping) — never falls back to today's active tariff"
        ∷ [])
      ∷ []
    else []

-- The most recent bill run of the property in the version, whatever its status.
unfoldable pub existing_bill_run : Tables → ℕ → ℕ → Option BillRunRow
existing_bill_run t pid vid =
    find (λ r. (r.property_id == pid) && (r.cycle_version_id == vid)) t.bill_runs

unfoldable pub count_units : (UnitReport → Bool) → List UnitReport → ℕ
count_units p us = count_if p us
