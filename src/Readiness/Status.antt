-- ===== src/Readiness/Status.antt =====
-- When `evaluateProperty` answers READY and ON HOLD, in terms of the property's units and rows.
use ccb_api.Base.{
  ℕ, ◌≡◌, refl, ◌≢◌, ◌↔◌, ◌⊎◌, inl, inr, ◌<◌, true, Option, none, some, List, [], ◌∷◌, map, arith,
  get_or_else, All, Option-cases,
}
use ccb_api.Readiness.Data.{
  ready, on_hold, not_ready, Property, UnitRow, Tables, CycleInfo, Services, AnomalyCounts,
}
use ccb_api.Readiness.Current.{
  derive_status, collect_reasons, evaluate_in_cycle, evaluate_property, billable_units,
  mapped_sub_meter, reading_count, no_anomalies, unit_ids_of, missing_tariff_count,
  missing_meter_count, missing_reading_count, anomalies_of,
}

-- A closed cycle and nothing counted.
abbrev pub IsClear : Option CycleInfo → ℕ → ℕ → ℕ → Type 0
IsClear none a b c = ⊥
IsClear (some cycle) a b c = (cycle.closed ≡ true) × (a ≡ 0) × (b ≡ 0) × (c ≡ 0)

pub derive_status-ready_iff :
    (cycle : Option CycleInfo) (a b c : ℕ) (x : AnomalyCounts)
    → (derive_status (collect_reasons cycle a b c x) ≡ ready)
      ↔ (IsClear cycle a b c × (x ≡ no_anomalies))
unfolding derive_status collect_reasons
derive_status-ready_iff none a b c x = ground arith
derive_status-ready_iff (some cycle) a b c x = ground arith

derive_status-on_hold_iff :
    (cycle : Option CycleInfo) (a b c : ℕ) (x : AnomalyCounts)
    → (derive_status (collect_reasons cycle a b c x) ≡ on_hold)
      ↔ (IsClear cycle a b c × (x.critical ≡ 0) × (x.high ≡ 0) × ((0 < x.medium) ⊎ (0 < x.low)))
unfolding derive_status collect_reasons
derive_status-on_hold_iff none a b c x = ground arith
derive_status-on_hold_iff (some cycle) a b c x = ground arith

module _ (svc : Services) (t : Tables) where
  -- A unit that can be billed: it has a tariff, a mapped meter and a reading in the period.
  abbrev pub IsUnitReady : CycleInfo → UnitRow → Type 0
  IsUnitReady c u =
      (svc.resolve_for_unit u.id ≢ none)
      × (mapped_sub_meter t u.id ≢ none)
      × (reading_count t c.period_start c.period_end u.id ≢ none)

  reading_count-none :
      (start end uid : ℕ)
      → get_or_else (reading_count t start end uid) 0 ≡ 0
      → reading_count t start end uid ≡ none
  unfolding reading_count
  reading_count-none start end uid h = ground arith

  -- The three counts are zero exactly when each unit passes.
  counts-zero_iff :
      (c : CycleInfo) (us : List UnitRow)
      → let ids = map (λ (u : UnitRow). u.id) us in
        ((missing_tariff_count svc ids ≡ 0)
          × (missing_meter_count t ids ≡ 0)
          × (missing_reading_count t (some c) ids ≡ 0))
        ↔ All (IsUnitReady c) us
  counts-zero_iff c [] = ground arith
  counts-zero_iff c (u ∷ us) =
      ground (arith, counts-zero_iff c us, reading_count-none c.period_start c.period_end u.id)

  -- A closed cycle in which every billable unit passes.
  abbrev pub HasReadyUnits : Property → CycleInfo → Type 0
  HasReadyUnits p c = (c.closed ≡ true) × All (IsUnitReady c) (billable_units t p.id)

  evaluate_in_cycle-ready_iff :
      (p : Property) (c : CycleInfo)
      → ((evaluate_in_cycle svc t p (some c)).status ≡ ready)
        ↔ (HasReadyUnits p c × (anomalies_of t p.id (some c) ≡ no_anomalies))
  unfolding evaluate_in_cycle
  evaluate_in_cycle-ready_iff p c =
      let ids = unit_ids_of t p.id in
      let clear = counts-zero_iff c (billable_units t p.id) in
      let status =
        derive_status-ready_iff (some c) (missing_tariff_count svc ids) (missing_meter_count t ids)
          (missing_reading_count t (some c) ids) (anomalies_of t p.id (some c)) in
      (
        λ h. let ((closed, a, b, m), x) = status.0 h in ((closed, clear.0 (a, b, m)), x),
        λ h.
            let ((closed, units), x) = h in
            let (a, b, m) = clear.1 units in status.1 ((closed, a, b, m), x),
      )

  -- No critical or high anomaly is open, and a medium or low one is.
  abbrev pub IsOnlyMinor : AnomalyCounts → Type 0
  IsOnlyMinor x = (x.critical ≡ 0) × (x.high ≡ 0) × ((0 < x.medium) ⊎ (0 < x.low))

  evaluate_in_cycle-on_hold_iff :
      (p : Property) (c : CycleInfo)
      → ((evaluate_in_cycle svc t p (some c)).status ≡ on_hold)
        ↔ (HasReadyUnits p c × IsOnlyMinor (anomalies_of t p.id (some c)))
  unfolding evaluate_in_cycle
  evaluate_in_cycle-on_hold_iff p c =
      let ids = unit_ids_of t p.id in
      let clear = counts-zero_iff c (billable_units t p.id) in
      let status =
        derive_status-on_hold_iff (some c) (missing_tariff_count svc ids)
          (missing_meter_count t ids) (missing_reading_count t (some c) ids)
          (anomalies_of t p.id (some c)) in
      (
        λ h.
            let ((closed, a, b, m), ch, hi, more) = status.0 h in
            ((closed, clear.0 (a, b, m)), (ch, hi, more)),
        λ h.
            let ((closed, units), (ch, hi, more)) = h in
            let (a, b, m) = clear.1 units in status.1 ((closed, a, b, m), ch, hi, more),
      )

  -- Without a billing cycle a property is neither READY nor ON HOLD.
  evaluate_in_cycle-none : (p : Property) → (evaluate_in_cycle svc t p none).status ≡ not_ready
  unfolding evaluate_in_cycle derive_status collect_reasons
  evaluate_in_cycle-none p = ground arith

-- A property is READY exactly when its billing cycle has closed, every active unit has a tariff, a
-- mapped meter and a reading in the cycle's period, whether or not that reading is approved, and
-- the period has no unresolved anomaly of any severity.
pub evaluate_property-ready_iff :
    (svc : Services) (t : Tables) (p : Property)
    → ((evaluate_property svc t p).status ≡ ready) ↔ (
        (c : CycleInfo) × (svc.reading_period p.id ≡ some c)
        × HasReadyUnits svc t p c
        × (anomalies_of t p.id (some c) ≡ no_anomalies))
unfolding evaluate_property
evaluate_property-ready_iff svc t p = elim (Option-cases (svc.reading_period p.id)) [
  | inl e ↦ rw e (ground (arith, evaluate_in_cycle-none svc t p))
  | inr (c, e) ↦
      let at_c = evaluate_in_cycle-ready_iff svc t p c in
      rw e (
        λ h. (c, refl, (at_c.0 h).0, (at_c.0 h).1),
        λ (d, same, units, clean). at_c.1 (ground arith),
      )
]

-- A property is ON HOLD exactly when its billing cycle has closed, every active unit has a tariff,
-- a mapped meter and a reading in the cycle's period, no critical or high anomaly of the period is
-- unresolved, and a medium or low one is.
pub evaluate_property-on_hold_iff :
    (svc : Services) (t : Tables) (p : Property)
    → ((evaluate_property svc t p).status ≡ on_hold) ↔ (
        (c : CycleInfo) × (svc.reading_period p.id ≡ some c)
        × HasReadyUnits svc t p c
        × IsOnlyMinor svc t (anomalies_of t p.id (some c)))
unfolding evaluate_property
evaluate_property-on_hold_iff svc t p = elim (Option-cases (svc.reading_period p.id)) [
  | inl e ↦ rw e (ground (arith, evaluate_in_cycle-none svc t p))
  | inr (c, e) ↦
      let at_c = evaluate_in_cycle-on_hold_iff svc t p c in
      rw e (
        λ h. (c, refl, (at_c.0 h).0, (at_c.0 h).1),
        λ (d, same, units, minor). at_c.1 (ground arith),
      )
]
