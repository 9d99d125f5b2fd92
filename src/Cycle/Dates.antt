-- ===== src/Cycle/Dates.antt =====
-- The cycle as the other components see it, and the issue and due dates of a bill run against those
-- that the cycle's screens show.
use ccb_api.Base.{
  ℕ, ◌+◌, ◌≡◌, ◌∙◌, sym, ap, false, Option, none, some, arith, ◌==◌, Option-cases, inl, inr,
}
use mathlib.Core.Path.{subst}
use ccb_api.Base.Result.{Message, ok}
use ccb_api.Base.Rows.{find_holds}
use ccb_api.Readiness.Data.{Services, CycleInfo}
use ccb_api.BillRun.Data as Runs
use ccb_api.BillRun.Data.{BillRun, Surroundings, DayConfig}
use ccb_api.BillRun.Plan.{Plan, plan_routine}
use ccb_api.BillRun.Submit.{new_run, submit}
use ccb_api.BillRun.Unique.{submit_within-cases}
use ccb_api.Cycle.Data.{BillingCycleVersion, State, version_by_id, master_of_property}
use ccb_api.Cycle.Period.{
  CycleDates, compute_bill_cycle_dates, current_version_of, cycle_info,
  get_reading_period_for_property, get_version_day_config, get_historical_versions_for_property,
}
use ccb_api.Cycle.Resolve.{resolve_version_for_reading_date}

-- The calls that readiness makes of the billing-cycle service, answered from its tables at a time.
abbrev pub cycle_services : State → ℕ → Services → Services
cycle_services cycles now others = record others {
  reading_period = get_reading_period_for_property cycles now;
  historical_versions = get_historical_versions_for_property cycles now;
  resolve_version_for_reading_date = resolve_version_for_reading_date cycles now;
}

abbrev pub with_cycles : State → ℕ → Surroundings → Surroundings
with_cycles cycles now env = record env {
  services = cycle_services cycles now env.services;
  day_config = get_version_day_config cycles;
}

abbrev days_of : BillingCycleVersion → DayConfig
days_of v = record {
  bill_generation_days = v.bill_generation_days;
  bill_issue_days = v.bill_issue_days;
  bill_due_days = v.bill_due_days;
}

-- A routine plan is for the current cycle.
plan_routine-cycle :
    (env : Surroundings) (pid : ℕ) (st : Runs.State) (c : CycleInfo) {plan : Plan}
    → env.services.reading_period pid ≡ some c
    → plan_routine env pid st ≡ ok plan
    → (plan.cycle_version_id ≡ c.version_id) × (plan.period_end ≡ c.period_end)
unfolding plan_routine
plan_routine-cycle env pid st c e h = (ground arith, ground arith)

current-find :
    (pid : ℕ) (cycles : State) {master : ℕ} {v : BillingCycleVersion}
    → current_version_of pid cycles ≡ some (master, v)
    → version_by_id v.id cycles ≡ some v
current-find pid cycles {master} {v} h = elim (Option-cases (master_of_property pid cycles)) [
  | inl e ↦ absurd (ground arith)
  | inr (m, e) ↦ elim (Option-cases m.current_version_id) [
    | inl f ↦ absurd (ground arith)
    | inr (vid, f) ↦ elim (Option-cases (version_by_id vid cycles)) [
      | inl g ↦ absurd (ground arith)
      | inr (u, g) ↦
          let same : u ≡ v = ground arith in
          let id_u : u.id ≡ vid =
            ground
              (arith, find_holds (λ (x : BillingCycleVersion). x.id == vid) cycles.versions g) in
          subst (λ x. version_by_id x.id cycles ≡ some x) same
            (subst (λ k. version_by_id k cycles ≡ some u) (sym id_u) g)
    ]
  ]
]

-- The dates shown, from the end of the period.
shown-dates :
    (v : BillingCycleVersion) (now master : ℕ) {dates : CycleDates}
    → compute_bill_cycle_dates v now ≡ some dates
    → (dates.issue_date ≡ (cycle_info now master v).period_end + v.bill_issue_days)
      × (dates.due_date
          ≡ (cycle_info now master v).period_end + v.bill_issue_days + v.bill_due_days)
unfolding compute_bill_cycle_dates
shown-dates v now master h = (ground arith, ground arith)

-- The dates of a new run, from those configured.
new_run-dates :
    (env : Surroundings) (pid : ℕ) (notes : Option Message) (actor : Option ℕ) (now : ℕ)
    (plan : Plan) (id : ℕ) (days : DayConfig)
    → env.day_config plan.cycle_version_id ≡ some days
    → let run = new_run env pid notes none actor false now plan id in
      (run.bill_issue_date ≡ plan.period_end + (days.bill_generation_days + days.bill_issue_days))
      × (run.bill_due_date
          ≡ plan.period_end
            + (days.bill_generation_days + days.bill_issue_days + days.bill_due_days))
unfolding new_run
new_run-dates env pid notes actor now plan id days e = (ground arith, ground arith)

-- A routine submission that succeeds for a property whose cycle has a current version gives the
-- bill run the issue and the due date that the cycle's screens show for that version, each later by
-- the version's bill generation days.
pub submit-dates :
    (cycles : State) (env : Surroundings) (pid master : ℕ) (v : BillingCycleVersion)
    (dates : CycleDates) (notes : Option Message) (actor : Option ℕ) (now : ℕ) (st st' : Runs.State)
    (run : BillRun)
    → current_version_of pid cycles ≡ some (master, v)
    → compute_bill_cycle_dates v now ≡ some dates
    → submit (with_cycles cycles now env) pid notes none actor now st ≡ ok (run, st')
    → (run.bill_issue_date ≡ dates.issue_date + v.bill_generation_days)
      × (run.bill_due_date ≡ dates.due_date + v.bill_generation_days)
unfolding submit
submit-dates cycles env pid master v dates notes actor now st st' run current shown h =
    let (plan, p, free, made, written) =
      submit_within-cases (with_cycles cycles now env) pid notes none actor none now st st' run h in
    let current_cycle : get_reading_period_for_property cycles now pid
        ≡ some (cycle_info now master v) =
      unfold get_reading_period_for_property in ground (arith, current) in
    let (version, end) =
      plan_routine-cycle (with_cycles cycles now env) pid st (cycle_info now master v) current_cycle
        p in
    let config : get_version_day_config cycles plan.cycle_version_id ≡ some (days_of v) =
      unfold get_version_day_config in
      ground (
        arith,
        subst (λ k. version_by_id k cycles ≡ some v) (sym version)
            (current-find pid cycles current),
      ) in
    let made_dates =
      new_run-dates (with_cycles cycles now env) pid notes actor now plan st.next_run_id (days_of v)
        config in
    let shown_dates = shown-dates v now master shown in
    (
      ap (λ (r : BillRun). r.bill_issue_date) made
          ∙ omega (arith, made_dates.0, shown_dates.0, end),
      ap (λ (r : BillRun). r.bill_due_date) made ∙ omega (arith, made_dates.1, shown_dates.1, end),
    )
