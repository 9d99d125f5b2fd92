-- ===== src/Readiness/Current.antt =====
-- `getReadiness`, `evaluateProperty`, `deriveStatus` and the queries behind them.
use ccb_api.Base.{
  ℕ, Bool, true, false, not, ◌&&◌, ◌||◌, Option, none, some, List, [], ◌∷◌, ◌++◌, map, ltb, leb,
  ◌==◌, if◌then◌else◌, is_some, is_none, get_or_else, or_else, length, filter, any, count_if,
}
use mathlib.Core.Option
use ccb_api.Readiness.Data.{
  BillingReadinessStatus, ready, on_hold, not_ready, BillingReadinessReason, no_billing_cycle,
  cycle_not_closed, missing_tariff, missing_meter_mapping, missing_reading,
  critical_or_high_anomaly, medium_or_low_anomaly, AnomalySeverity, critical, high, medium, low,
  MeterReading, Property, UnitRow, SubMeter, Tables, CycleInfo, Services, AnomalyCounts,
  BillingReadinessItem,
}

-- Membership in the `notReadyReasons` set.
abbrev pub is_not_ready_reason : BillingReadinessReason → Bool
is_not_ready_reason medium_or_low_anomaly = false
is_not_ready_reason _ = true

abbrev pub is_medium_or_low : BillingReadinessReason → Bool
is_medium_or_low medium_or_low_anomaly = true
is_medium_or_low _ = false

unfoldable pub derive_status : List BillingReadinessReason → BillingReadinessStatus
derive_status reasons =
    if any is_not_ready_reason reasons
    then not_ready
    else if any is_medium_or_low reasons
    then on_hold
    else ready

abbrev pub between : ℕ → ℕ → ℕ → Bool
between d start end = leb start d && leb d end

-- The active units of a property.
unfoldable pub billable_units : Tables → ℕ → List UnitRow
billable_units t pid = filter (λ u. (u.property_id == pid) && u.is_active) t.units

abbrev pub is_mapped_to : ℕ → SubMeter → Bool
is_mapped_to uid s = elim s.unit_id [ none ↦ false | some u ↦ u == uid ]

-- `map.set(s.unit.id, s)` over the rows: the last row of a unit is kept.
unfoldable pub last_mapped : ℕ → Option SubMeter → List SubMeter → Option SubMeter
last_mapped uid kept [] = kept
last_mapped uid kept (s ∷ rows) = last_mapped uid (if is_mapped_to uid s then some s else kept) rows

-- `getMappedSubMetersByUnitId`, read at a unit.
unfoldable pub mapped_sub_meter : Tables → ℕ → Option SubMeter
unfolding last_mapped
mapped_sub_meter t uid = last_mapped uid none t.sub_meters

-- `getReadingCountsByUnitId`, read at a unit: no row is grouped for a unit without readings.
unfoldable pub reading_count : Tables → ℕ → ℕ → ℕ → Option ℕ
reading_count t start end uid =
    let n =
      count_if (λ r. (r.unit_id == uid) && between r.reading_date start end) t.meter_readings in
    if n == 0 then none else some n

abbrev pub severity_is : AnomalySeverity → Option AnomalySeverity → Bool
severity_is critical (some critical) = true
severity_is high (some high) = true
severity_is medium (some medium) = true
severity_is low (some low) = true
severity_is _ _ = false

-- An anomaly whose reading is not yet approved, in the period.
abbrev pub is_unresolved : ℕ → ℕ → ℕ → MeterReading → Bool
is_unresolved pid start end r =
    (r.property_id == pid) && (between r.reading_date start end && (r.is_anomaly && r.is_pending))

abbrev pub count_severity : Tables → ℕ → ℕ → ℕ → AnomalySeverity → ℕ
count_severity t pid start end s =
    count_if (λ r. is_unresolved pid start end r && severity_is s r.anomaly_severity)
      t.meter_readings

unfoldable pub unresolved_anomaly_counts : Tables → ℕ → ℕ → ℕ → AnomalyCounts
unresolved_anomaly_counts t pid start end = record {
  critical = count_severity t pid start end critical;
  high = count_severity t pid start end high;
  medium = count_severity t pid start end medium;
  low = count_severity t pid start end low;
}

abbrev pub no_anomalies : AnomalyCounts
no_anomalies = record { critical = 0; high = 0; medium = 0; low = 0 }

-- `if (test) reasons.push(reason)`
abbrev pub when_ : Bool → BillingReadinessReason → List BillingReadinessReason
when_ b r = if b then r ∷ [] else []

unfoldable pub cycle_reasons : Option CycleInfo → List BillingReadinessReason
cycle_reasons none = no_billing_cycle ∷ []
cycle_reasons (some c) = when_ (not c.closed) cycle_not_closed

unfoldable pub anomaly_reasons : AnomalyCounts → List BillingReadinessReason
anomaly_reasons a =
    if ltb 0 a.critical || ltb 0 a.high
    then critical_or_high_anomaly ∷ []
    else when_ (ltb 0 a.medium || ltb 0 a.low) medium_or_low_anomaly

-- The reasons in the order in which `evaluateProperty` pushes them, from what it counted.
unfoldable pub collect_reasons :
    Option CycleInfo → ℕ → ℕ → ℕ → AnomalyCounts → List BillingReadinessReason
unfolding cycle_reasons anomaly_reasons
collect_reasons cycle no_tariff no_meter no_reading anomalies =
    cycle_reasons cycle
    ++ (when_ (ltb 0 no_tariff) missing_tariff
        ++ (when_ (ltb 0 no_meter) missing_meter_mapping
            ++ (when_ (ltb 0 no_reading) missing_reading ++ anomaly_reasons anomalies)))

-- The ids of the billable units, and how many of them fail each check.
abbrev pub unit_ids_of : Tables → ℕ → List ℕ
unit_ids_of t pid = map (λ (u : UnitRow). u.id) (billable_units t pid)

abbrev pub missing_tariff_count : Services → List ℕ → ℕ
missing_tariff_count svc = count_if (λ uid. is_none (svc.resolve_for_unit uid))

abbrev pub missing_meter_count : Tables → List ℕ → ℕ
missing_meter_count t = count_if (λ uid. is_none (mapped_sub_meter t uid))

-- Without a cycle no reading is counted.
abbrev pub count_in : Tables → Option CycleInfo → ℕ → Option ℕ
count_in t none uid = none
count_in t (some c) uid = reading_count t c.period_start c.period_end uid

-- Only the units that have a meter are asked for a reading.
abbrev pub missing_reading_count : Tables → Option CycleInfo → List ℕ → ℕ
missing_reading_count t cycle unit_ids =
    count_if (λ uid. get_or_else (count_in t cycle uid) 0 == 0)
      (filter (λ uid. is_some (mapped_sub_meter t uid)) unit_ids)

abbrev pub anomalies_of : Tables → ℕ → Option CycleInfo → AnomalyCounts
anomalies_of t pid none = no_anomalies
anomalies_of t pid (some c) = unresolved_anomaly_counts t pid c.period_start c.period_end

-- The reasons of a property, in its cycle.
abbrev pub reasons_in : Services → Tables → ℕ → Option CycleInfo → List BillingReadinessReason
reasons_in svc t pid cycle =
    let unit_ids = unit_ids_of t pid in
    collect_reasons cycle (missing_tariff_count svc unit_ids) (missing_meter_count t unit_ids)
      (missing_reading_count t cycle unit_ids) (anomalies_of t pid cycle)

-- `evaluateProperty` once the cycle is known.
unfoldable pub evaluate_in_cycle :
    Services → Tables → Property → Option CycleInfo → BillingReadinessItem
evaluate_in_cycle svc t p cycle =
    let unit_ids = unit_ids_of t p.id in
    let reasons = reasons_in svc t p.id cycle in
    record {
      property_id = p.id;
      property_name = p.name;
      property_code = or_else p.business_code p.code;
      community_id = p.community_id;
      community_name = p.community_name;
      cycle_period_start = Option.map (λ c. c.period_start) cycle;
      cycle_period_end = Option.map (λ c. c.period_end) cycle;
      cycle_version_id = Option.map (λ c. c.version_id) cycle;
      status = derive_status reasons;
      reasons = reasons;
      billable_units = length unit_ids;
      occupied_units = count_if (λ uid. ltb 0 (length (svc.customers_of_unit uid))) unit_ids;
      units_missing_tariff = missing_tariff_count svc unit_ids;
      units_missing_meter_mapping = missing_meter_count t unit_ids;
      units_missing_reading = missing_reading_count t cycle unit_ids;
      anomalies = anomalies_of t p.id cycle;
    }

unfoldable pub evaluate_property : Services → Tables → Property → BillingReadinessItem
unfolding evaluate_in_cycle
evaluate_property svc t p = evaluate_in_cycle svc t p (svc.reading_period p.id)

-- A filter field that is missing or 0 selects every property.
abbrev pub selects : Option ℕ → ℕ → Bool
selects none x = true
selects (some zero_or_id) x = (zero_or_id == 0) || (zero_or_id == x)

-- `getReadiness`; the properties are listed by name.
unfoldable pub get_readiness : Services → Tables → Option ℕ → Option ℕ → List BillingReadinessItem
get_readiness svc t property_id community_id =
    map (evaluate_property svc t)
      (filter (λ p. selects property_id p.id && selects community_id p.community_id) t.properties)
