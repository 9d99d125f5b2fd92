-- ===== src/BillRun/Checks.antt =====
-- The validation that the screen shows against what `submit` enforces.
use ccb_api.Base.{
  ℕ, ◌≡◌, refl, ◌≢◌, ◌↔◌, ◌∙◌, sym, Bool, true, false, Option, none, some, List, [], ◌∷◌, map,
  arith, filter, Option-cases, inl, inr, ◌⊎◌, any, ◌&&◌,
}
use ccb_api.Base.Result.{Message, ok, Result-cases}
use ccb_api.Readiness.Data.{
  BillingReadinessItem, BillingReadinessStatus, Property, CycleInfo, Services, Tables,
}
use ccb_api.Readiness.Current.{
  get_readiness, selects, evaluate_property, evaluate_in_cycle, collect_reasons, no_anomalies,
  missing_tariff_count, unit_ids_of, anomalies_of, cycle_reasons, anomaly_reasons,
  missing_meter_count, missing_reading_count,
}
use ccb_api.Readiness.Status.{derive_status-ready_iff}
use ccb_api.BillRun.Data.{BillRun, State, Surroundings, tables_in}
use ccb_api.BillRun.Plan.{
  first, get_validation_checks, checks_of, all_passed, plan_routine, existing_active, is_ready,
  is_open_cycle_reason,
}
use ccb_api.BillRun.Submit.{submit, submit_within_transaction}

first-filter :
    (f : Property → BillingReadinessItem) (q : Property → Bool) (ps : List Property)
    → (first (map f (filter q ps)) ≡ none)
      ⊎ ((p : Property) × (q p ≡ true) × (first (map f (filter q ps)) ≡ some (f p)))
first-filter f q [] = inl refl
first-filter f q (p ∷ ps) = ground (arith, first-filter f q ps)

module _ (svc : Services) (t : Tables) where
  evaluate_in_cycle-ready :
      (p : Property) (c : CycleInfo)
      → let r = evaluate_in_cycle svc t p (some c) in
        r.status ≡ BillingReadinessStatus.ready
        → (c.closed ≡ true)
          × (r.units_missing_tariff ≡ 0)
          × (r.anomalies ≡ no_anomalies)
          × (any is_open_cycle_reason r.reasons ≡ false)
  unfolding evaluate_in_cycle
  evaluate_in_cycle-ready p c h =
      let ids = unit_ids_of t p.id in
      let (clear, clean) =
        (derive_status-ready_iff (some c) (missing_tariff_count svc ids) (missing_meter_count t ids)
            (missing_reading_count t (some c) ids) (anomalies_of t p.id (some c))).0
          h in
      (
        clear.0,
        clear.1,
        clean,
        rw (clear.1, clear.2, clear.3, clean)
            (unfold collect_reasons cycle_reasons anomaly_reasons in ground (arith, clear.0)),
      )

  evaluate_in_cycle-unready :
      (p : Property) → (evaluate_in_cycle svc t p none).status ≢ BillingReadinessStatus.ready
  unfolding evaluate_in_cycle
  evaluate_in_cycle-unready p h =
      let ids = unit_ids_of t p.id in
      let (clear, clean) =
        (derive_status-ready_iff none (missing_tariff_count svc ids) (missing_meter_count t ids)
            (missing_reading_count t none ids) no_anomalies).0
          h in
      clear

-- What both the validation and the submission come down to.
abbrev pub IsSubmittable : State → ℕ → BillingReadinessItem → CycleInfo → Type 0
IsSubmittable st pid r c =
    (r.status ≡ BillingReadinessStatus.ready) × (existing_active st pid c.version_id ≡ none)

is_ready_iff :
    (s : BillingReadinessStatus) → (is_ready s ≡ true) ↔ (s ≡ BillingReadinessStatus.ready)
is_ready_iff BillingReadinessStatus.ready = ground arith
is_ready_iff BillingReadinessStatus.on_hold = ground arith
is_ready_iff BillingReadinessStatus.not_ready = ground arith

checks_iff :
    (st : State) (pid : ℕ) (r : BillingReadinessItem) (c : CycleInfo)
    → r.cycle_version_id ≡ some c.version_id
    → (r.status ≡ BillingReadinessStatus.ready
        → (c.closed ≡ true)
          × (r.units_missing_tariff ≡ 0)
          × (r.anomalies ≡ no_anomalies)
          × (any is_open_cycle_reason r.reasons ≡ false))
    → (all_passed (checks_of st pid r) ≡ true) ↔ IsSubmittable st pid r c
checks_iff st pid r c version clear = ground (arith, is_ready_iff r.status)

module _ (env : Surroundings) (pid : ℕ) (st : State) where
  item : Option BillingReadinessItem
  item = first (get_readiness env.services (tables_in env st) (some pid) none)

  submit_iff :
      (notes : Option Message) (actor : Option ℕ) (now : ℕ) (r : BillingReadinessItem)
      (c : CycleInfo)
      → item ≡ some r
      → env.services.reading_period pid ≡ some c
      → (r.status ≡ BillingReadinessStatus.ready → c.closed ≡ true)
      → ((x : BillRun × State) × (submit env pid notes none actor now st ≡ ok x))
        ↔ IsSubmittable st pid r c
  unfolding item submit submit_within_transaction plan_routine
  submit_iff notes actor now r c found period closed =
      elim (Option-cases (existing_active st pid c.version_id)) [
        | inr (x, e) ↦ ground (arith, is_ready_iff r.status)
        | inl e ↦ (
          λ (x, h). ground (arith, is_ready_iff r.status),
          λ h.
              elim (Result-cases (submit_within_transaction env pid notes none actor none now st)) [
                | inl (x, p) ↦ (x, p)
                | inr (x, p) ↦ ground (arith, closed h.0)
              ],
        )
      ]

  unready_refused :
      (notes : Option Message) (actor : Option ℕ) (now : ℕ) (x : BillRun × State)
      → ((r : BillingReadinessItem) → item ≡ some r → r.status ≢ BillingReadinessStatus.ready)
      → submit env pid notes none actor now st ≢ ok x
  unfolding item submit submit_within_transaction plan_routine
  unready_refused notes actor now x unready h =
      elim (Option-cases (first (get_readiness env.services (tables_in env st) (some pid) none))) [
        | inl e ↦ ground arith
        | inr (r, e) ↦ ground (arith, is_ready_iff r.status, unready r e)
      ]

  all_passed-ready :
      (r : BillingReadinessItem)
      → all_passed (checks_of st pid r) ≡ true
      → r.status ≡ BillingReadinessStatus.ready
  all_passed-ready r h = ground (arith, is_ready_iff r.status)

  unready_iff :
      (notes : Option Message) (actor : Option ℕ) (now : ℕ)
      → ((r : BillingReadinessItem) → item ≡ some r → r.status ≢ BillingReadinessStatus.ready)
      → (all_passed (get_validation_checks env pid st) ≡ true)
        ↔ ((x : BillRun × State) × (submit env pid notes none actor now st ≡ ok x))
  unfolding get_validation_checks item
  unready_iff notes actor now unready = (
    λ passed.
        elim (Option-cases
          (first (get_readiness env.services (tables_in env st) (some pid) none))) [
            | inl e ↦ ground arith
            | inr (r, e) ↦ absurd (unready r e (all_passed-ready r (ground arith)))
          ],
    λ (x, h). absurd (unready_refused notes actor now x unready h),
  )

  item-cases :
      pid ≢ 0
      → (item ≡ none)
        ⊎ ((p : Property) × (p.id ≡ pid)
            × (item ≡ some (evaluate_property env.services (tables_in env st) p)))
  unfolding item get_readiness
  item-cases some_id =
      elim (first-filter (evaluate_property env.services (tables_in env st))
        (λ p. selects (some pid) p.id && selects none p.community_id) env.tables.properties) [
          | inl e ↦ inl e
          | inr (p, q, e) ↦ inr (p, ground arith, e)
        ]

  -- For a property id other than 0, all checks that the screen shows pass exactly when a routine
  -- submission of the property at this moment succeeds, whoever makes it and whatever its notes.
  pub all_passed-submit_iff :
      (notes : Option Message) (actor : Option ℕ) (now : ℕ)
      → pid ≢ 0
      → (all_passed (get_validation_checks env pid st) ≡ true)
        ↔ ((x : BillRun × State) × (submit env pid notes none actor now st ≡ ok x))
  all_passed-submit_iff notes actor now some_id = elim (item-cases some_id) [
    | inl e ↦ unready_iff notes actor now (λ r found. cc (sym e ∙ found))
    | inr (p, same, e) ↦ elim (Option-cases (env.services.reading_period p.id)) [
      | inl none_is ↦ unready_iff notes actor now (λ r found ready.
          evaluate_in_cycle-unready env.services (tables_in env st) p
            (unfold evaluate_property in ground arith))
      | inr (c, some_is) ↦
          let r = evaluate_in_cycle env.services (tables_in env st) p (some c) in
          let found : item ≡ some r = unfold evaluate_property in ground arith in
          let clear = evaluate_in_cycle-ready env.services (tables_in env st) p c in
          let checks = checks_iff st pid r c (unfold evaluate_in_cycle in refl) clear in
          let submits =
            submit_iff notes actor now r c found (ground arith) (λ ready. (clear ready).0) in
          let shown : get_validation_checks env pid st ≡ checks_of st pid r =
            unfold get_validation_checks item in ground arith in
          rw shown (λ h. submits.1 (checks.0 h), λ x. checks.1 (submits.0 x))
    ]
  ]
