-- ===== src/Cycle/Tests.antt =====
-- The cycle theorems at a property whose first version, from 1 January 1970 on, was replaced by a
-- second one on 1 April, day 90, but only marked as deprecated on day 100.
use ccb_api.Base.{
  ℕ, suc, ◌+◌, ◌≡◌, ◌≤◌, ◌<◌, refl, true, false, Option, none, some, List, [], ◌∷◌, arith,
}
use ccb_api.Base.Result.{Result, ok, err}
use ccb_api.Readiness.Data.{VersionResolution, TariffAsOf}
use ccb_api.Readiness.Current.{
  get_readiness, evaluate_property, evaluate_in_cycle, derive_status, collect_reasons,
  cycle_reasons, anomaly_reasons, billable_units, unresolved_anomaly_counts,
}
use ccb_api.Workflow.Engine.{assert_can_act, record_approval}
use ccb_api.BillRun.Data as Runs
use ccb_api.BillRun.Data.{BillRunStatus, BillRun, Surroundings}
use ccb_api.BillRun.Plan.{plan_routine}
use ccb_api.BillRun.Submit.{submit, submit_within_transaction}
use ccb_api.Cycle.Calendar.{month_of, month_start}
use ccb_api.Cycle.Data.{
  BillingCycleStatus, BillingCycleVersion, BillingCycleMaster, State, version_by_id, midnight,
  is_pending,
}
use ccb_api.Cycle.Period.{
  CycleDates, reading_period_anchored_to, compute_bill_cycle_dates, get_reading_period_for_property,
  get_version_day_config,
}
use ccb_api.Cycle.Resolve.{resolve_version_for_reading_date, all_matches, matches_of, walk_months}
use ccb_api.Cycle.Resolution.{IsAnswer, resolve_version-IsAnswer}
use ccb_api.Cycle.Bounds.{reading_periods_ordered}
use ccb_api.Cycle.Create.{Settings}
use ccb_api.Cycle.Activation.{activate_version, apply_deprecation, is_due_for_activation}
use ccb_api.Cycle.Review.{approve_version, version_for_review}
use ccb_api.Cycle.Activated.{IsActivated}
use ccb_api.Cycle.Approval.{approve_version-IsActivated, approve_version-due}
use ccb_api.Cycle.Dates.{with_cycles, submit-dates}

abbrev a_version : ℕ → BillingCycleStatus → Option ℕ → ℕ → Option ℕ → BillingCycleVersion
a_version id status parent from until = record {
  id = id;
  master_id = 2;
  frequency = "monthly";
  reading_start_day = 11;
  reading_end_day = 10;
  bill_generation_days = 1;
  bill_issue_days = 2;
  bill_due_days = 14;
  status = status;
  last_change_reason = none;
  change_reason_code = none;
  version = id;
  parent_version_id = parent;
  effective_from = some from;
  submitted_by_id = some 20;
  submitted_on = none;
  approved_by_id = none;
  approval_date = none;
  rejection_notes = none;
  deprecation_reason_code = none;
  deprecation_notes = none;
  deprecated_on = until;
}

abbrev master : ℕ → BillingCycleMaster
master current = record {
  id = 2;
  business_code = none;
  community_id = 1;
  property_id = 7;
  current_version_id = some current;
}

abbrev state_with : ℕ → List BillingCycleVersion → State
state_with current versions = record {
  masters = master current ∷ [];
  next_master_id = 3;
  versions = versions;
  next_version_id = 3;
  workflow = record {
    definitions = [];
    levels = [];
    instances = [];
    steps = [];
    next_definition_id = 0;
    next_instance_id = 0;
    next_step_id = 0;
  };
}

abbrev replaced : State
replaced = state_with 2 (
    a_version 2 BillingCycleStatus.active (some 1) 90 none
    ∷ a_version 1 BillingCycleStatus.deprecated none 0 (some 100)
    ∷ [])

-- 15 February lies in the period of the first version from 11 February to 10 March.
february :
    resolve_version_for_reading_date replaced (midnight 200) 7 45
    ≡ VersionResolution.resolved 1 (record { period_start = 41; period_end = 68; master_id = 2 })
unfolding resolve_version_for_reading_date all_matches matches_of walk_months
    reading_period_anchored_to month_of month_start
february = refl

resolve_version-IsAnswer_example :
    IsAnswer replaced.versions 2
      (midnight 200)
      45
      (resolve_version_for_reading_date replaced (midnight 200) 7 45)
resolve_version-IsAnswer_example =
    resolve_version-IsAnswer replaced (midnight 200) 7 45 (master 2) refl

next_month : month_of 60 ≡ suc (month_of 45)
unfolding month_of
next_month = refl

reading_periods_ordered_example :
    (month_of (reading_period_anchored_to 11 10 45).start ≡ month_of 45)
    × ((reading_period_anchored_to 11 10 45).start < (reading_period_anchored_to 11 10 45).end)
    × ((reading_period_anchored_to 11 10 45).end ≤ (reading_period_anchored_to 11 10 45).start + 31)
    × ((reading_period_anchored_to 11 10 45).end ≤ (reading_period_anchored_to 11 10 60).start)
reading_periods_ordered_example =
    reading_periods_ordered 11 10 (omega arith) (omega arith) (omega arith) 45 60 (omega arith)
      next_month

-- A last day beyond the end of a month makes its period reach into the next one.
april_overlaps :
    ((reading_period_anchored_to 1 31 90).end ≡ 120)
    × ((reading_period_anchored_to 1 31 120).start ≡ 120)
unfolding reading_period_anchored_to month_of month_start
april_overlaps = (refl, refl)

abbrev waiting : State
waiting = state_with 1 (
    a_version 2 BillingCycleStatus.pending (some 1) 90 none
    ∷ a_version 1 BillingCycleStatus.active none 0 none
    ∷ [])

abbrev settings : Settings
settings = record {
  community_exists = λ id. true;
  property_exists = λ id. true;
  lov_codes = λ category. "other" ∷ [];
  directory = record { role_ids = λ a. []; is_super_admin = λ r. false };
}

abbrev value_of {ℓ} : {A : Type ℓ} → Result A → A → A
value_of (ok a) d = a
value_of (err e) d = d

-- Approved on day 95, and on day 80 by the system.
abbrev arrived : State
arrived = value_of (approve_version settings 2 (some 24) false (midnight 95) waiting) waiting

abbrev early : State
early = value_of (approve_version settings 2 none true (midnight 80) waiting) waiting

arrived-eq : approve_version settings 2 (some 24) false (midnight 95) waiting ≡ ok arrived
unfolding approve_version version_for_review assert_can_act record_approval activate_version
    apply_deprecation
arrived-eq = refl

early-eq : approve_version settings 2 none true (midnight 80) waiting ≡ ok early
unfolding approve_version version_for_review assert_can_act record_approval activate_version
    apply_deprecation
early-eq = refl

approve_version-IsActivated_example :
    IsActivated (a_version 2 BillingCycleStatus.pending (some 1) 90 none) waiting arrived
unfolding assert_can_act
approve_version-IsActivated_example =
    approve_version-IsActivated settings 2 (some 24) false (midnight 95) waiting arrived
      (record { instance_ = none; is_final_level = true }) refl refl arrived-eq
      (a_version 2 BillingCycleStatus.pending (some 1) 90 none) (master 1) refl refl refl
      (λ pid e h. absurd (ground arith))

approve_version-due_example :
    (v : BillingCycleVersion) × (version_by_id 2 early ≡ some v)
    × (is_pending v ≡ true)
    × ((today : ℕ) → 90 ≤ today → is_due_for_activation today v ≡ false)
unfolding assert_can_act
approve_version-due_example =
    approve_version-due settings 2 none true (midnight 80) waiting early
      (record { instance_ = none; is_final_level = true }) refl refl early-eq
      (a_version 2 BillingCycleStatus.pending (some 1) 90 none) 90 refl refl (omega arith)

abbrev monthly : BillingCycleVersion
monthly = record (a_version 1 BillingCycleStatus.active none 0 none) {
  reading_start_day = 1;
  reading_end_day = 3;
}

abbrev cycles : State
cycles = state_with 1 (monthly ∷ [])

abbrev surroundings : Surroundings
surroundings = record {
  services = record {
    reading_period = λ pid. none;
    historical_versions = λ pid. [];
    resolve_version_for_reading_date = λ pid d. VersionResolution.none_found;
    resolve_for_unit = λ uid. none;
    resolve_for_unit_as_of = λ uid d. TariffAsOf.no_match;
    customers_of_unit = λ uid. [];
  };
  tables = record {
    properties =
        record {
          id = 7;
          name = "Office";
          business_code = none;
          code = none;
          community_id = 1;
          community_name = "Creek";
        }
        ∷ [];
    units = [];
    sub_meters = [];
    meter_readings = [];
    bill_runs = [];
  };
  day_config = λ vid. none;
  directory = settings.directory;
}

abbrev no_runs : Runs.State
no_runs = record {
  runs = [];
  next_run_id = 1;
  batches = [];
  next_batch_id = 1;
  workflow = cycles.workflow;
}

abbrev a_run : BillRun
a_run = record {
  id = 0;
  business_code = none;
  batch_id = none;
  property_id = 7;
  cycle_master_id = 2;
  cycle_version_id = 1;
  cycle_period_start = 0;
  cycle_period_end = 2;
  bill_issue_date = 0;
  bill_due_date = 0;
  status = BillRunStatus.rejected;
  billable_units = 0;
  units_missing_tariff = 0;
  units_missing_meter_mapping = 0;
  units_missing_reading = 0;
  critical_anomalies = 0;
  high_anomalies = 0;
  notes = none;
  submitted_by_id = none;
  submitted_on = 0;
  reviewed_by_id = none;
  reviewed_on = none;
  review_notes = none;
  resubmitted_from_id = none;
  tariff_resolution_date = none;
}

-- The run submitted on day 5 for the period that has closed on day 2.
abbrev submission : BillRun × Runs.State
submission =
    value_of
      (submit (with_cycles cycles (midnight 5) surroundings) 7 none none (some 20) (midnight 5)
        no_runs)
      (a_run, no_runs)

submission-eq :
    submit (with_cycles cycles (midnight 5) surroundings) 7 none none (some 20) (midnight 5) no_runs
    ≡ ok submission
unfolding submit submit_within_transaction plan_routine get_readiness evaluate_property
    evaluate_in_cycle derive_status collect_reasons cycle_reasons anomaly_reasons billable_units
    unresolved_anomaly_counts get_reading_period_for_property get_version_day_config month_start
submission-eq = refl

-- The screen shows the issue on day 4 and the payment due on day 18.
abbrev shown : CycleDates
shown = record {
  period_start = 0;
  period_end = 2;
  generation_date = 3;
  issue_date = 4;
  due_date = 18;
}

shown-eq : compute_bill_cycle_dates monthly (midnight 5) ≡ some shown
unfolding compute_bill_cycle_dates month_start
shown-eq = refl

submit-dates_example :
    (submission.0.bill_issue_date ≡ shown.issue_date + 1)
    × (submission.0.bill_due_date ≡ shown.due_date + 1)
submit-dates_example =
    submit-dates cycles surroundings 7 2 monthly shown none (some 20) (midnight 5) no_runs
      submission.1 submission.0 refl shown-eq submission-eq
