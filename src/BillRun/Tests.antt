-- ===== src/BillRun/Tests.antt =====
-- The bill-run theorems at a property without units, which is ready in a closed cycle, and a
-- workflow of two levels.
use ccb_api.Base.{
  any, if◌then◌else◌, ◌==◌, distinct, ℕ, ◌+◌, ◌-◌, ◌≡◌, refl, ◌≢◌, ◌↔◌, ◌≤◌, inl, true, false, Bool,
  Option, none, some, List, [], ◌∷◌, arith, length, ◌==◌,
}
use ccb_api.Base.Result.{text, Result, ok, err}
use ccb_api.Readiness.Data.{Property, CycleInfo, VersionResolution, TariffAsOf}
use ccb_api.Readiness.Current.{
  get_readiness, evaluate_property, evaluate_in_cycle, derive_status, collect_reasons,
  cycle_reasons, anomaly_reasons, billable_units, unresolved_anomaly_counts,
}
use ccb_api.Workflow.Data.{
  WorkflowType, SlaUnit, OnBreach, Definition, DefinitionStatus, Level, Instance, Step,
  InstanceStatus,
}
use ccb_api.Workflow.Store.{count_levels, save_instance, save_step}
use ccb_api.Workflow.Engine.{
  assert_can_act, assert_actor, record_approval, to_next_level, activate_level,
}
use ccb_api.Workflow.Access.{IsOpen, IsApprover}
use ccb_api.BillRun.Data.{BillRunStatus, BillRun, State, Surroundings, run_by_id}
use ccb_api.BillRun.Plan.{plan_routine, get_validation_checks}
use ccb_api.BillRun.Submit.{submit, submit_within_transaction}
use ccb_api.BillRun.Review.{
  approve, approve_transaction, reject, refuse, return_for_correction, run_for_review,
}
use ccb_api.BillRun.Batch.{submit_batch, submit_each, BatchReport}
use ccb_api.BillRun.Outcome.{IsReviewable}
use ccb_api.BillRun.Actions.{here, call, submitted}
use ccb_api.BillRun.Unique.{IsConsistent}
use ccb_api.BillRun.Reachable.{Calls-IsConsistent}
use ccb_api.BillRun.Approval.{approve_all}
use ccb_api.BillRun.Lifecycle.{submit-IsApproved}
use ccb_api.BillRun.Authority.{
  IsRefused, approve-IsApprover, reject-IsRefused, return_for_correction-IsRefused,
}
use ccb_api.BillRun.Checks.{all_passed-submit_iff}
use ccb_api.BillRun.Duplicates.{submit-refused_again}
use ccb_api.BillRun.BatchOutcome.{IsTally, IsSplit, submit_batch-IsTally}

abbrev office : Property
office = record {
  id = 7;
  name = "Office";
  business_code = none;
  code = none;
  community_id = 1;
  community_name = "Creek";
}

abbrev closed_cycle : CycleInfo
closed_cycle = record {
  version_id = 3;
  master_id = 2;
  period_start = 100;
  period_end = 130;
  closed = true;
}

abbrev surroundings : Surroundings
surroundings = record {
  services = record {
    reading_period = λ pid. some closed_cycle;
    historical_versions = λ pid. [];
    resolve_version_for_reading_date = λ pid d. VersionResolution.none_found;
    resolve_for_unit = λ uid. none;
    resolve_for_unit_as_of = λ uid d. TariffAsOf.no_match;
    customers_of_unit = λ uid. [];
  };
  tables = record {
    properties = office ∷ [];
    units = [];
    sub_meters = [];
    meter_readings = [];
    bill_runs = [];
  };
  day_config = λ vid. none;
  directory = record { role_ids = λ a. (a - 20) ∷ []; is_super_admin = λ r. r == 1 };
}

abbrev run_level : ℕ → Level
run_level k = record {
  definition_id = 1;
  level_order = k;
  role_id = k + 4;
  department = none;
  sla_value = 2;
  sla_unit = SlaUnit.hours;
  on_breach = OnBreach.notify;
}

abbrev run_definition : Definition
run_definition = record {
  id = 1;
  workflow_type = WorkflowType.bill_run;
  version = 1;
  status = DefinitionStatus.active;
  created_by = none;
}

abbrev no_runs : State
no_runs = record {
  runs = [];
  next_run_id = 5;
  batches = [];
  next_batch_id = 0;
  workflow = record {
    definitions = run_definition ∷ [];
    levels = run_level 0 ∷ run_level 1 ∷ [];
    instances = [];
    steps = [];
    next_definition_id = 2;
    next_instance_id = 0;
    next_step_id = 0;
  };
}

abbrev value_of {ℓ} : {A : Type ℓ} → Result A → A → A
value_of (ok a) d = a
value_of (err e) d = d

abbrev a_run : BillRun
a_run = record {
  id = 5;
  business_code = none;
  batch_id = none;
  property_id = 7;
  cycle_master_id = 2;
  cycle_version_id = 3;
  cycle_period_start = 100;
  cycle_period_end = 130;
  bill_issue_date = 130;
  bill_due_date = 131;
  status = BillRunStatus.pending_approval;
  billable_units = 0;
  units_missing_tariff = 0;
  units_missing_meter_mapping = 0;
  units_missing_reading = 0;
  critical_anomalies = 0;
  high_anomalies = 0;
  notes = none;
  submitted_by_id = some 20;
  submitted_on = 50;
  reviewed_by_id = none;
  reviewed_on = none;
  review_notes = none;
  resubmitted_from_id = none;
  tariff_resolution_date = none;
}

-- The run that the user 20 submits, and the state with it.
abbrev outcome : BillRun × State
outcome = value_of (submit surroundings 7 none none (some 20) 50 no_runs) (a_run, no_runs)

outcome-eq : submit surroundings 7 none none (some 20) 50 no_runs ≡ ok outcome
unfolding submit submit_within_transaction plan_routine get_readiness evaluate_property
    evaluate_in_cycle derive_status collect_reasons cycle_reasons anomaly_reasons billable_units
    unresolved_anomaly_counts
outcome-eq = refl

no_runs-IsConsistent : IsConsistent no_runs
no_runs-IsConsistent = record { ids = tt; unique = λ pid vid. omega arith }

Calls-IsConsistent_example : IsConsistent outcome.1
Calls-IsConsistent_example =
    Calls-IsConsistent
      (call surroundings here (submitted 7 none none (some 20) 50 outcome.0 outcome-eq))
      no_runs-IsConsistent

abbrev run_instance : Instance
run_instance = record {
  id = 0;
  workflow_type = WorkflowType.bill_run;
  business_object_id = 5;
  definition_id = 1;
  current_level_order = some 0;
  status = InstanceStatus.waiting_for_approval;
  submitted_by_id = some 20;
  submitted_at = 50;
  completed_at = none;
}

abbrev run_step : Step
run_step = record {
  id = 0;
  instance_id = 0;
  level_order = 0;
  role_id = 4;
  sla_value = 2;
  sla_unit = SlaUnit.hours;
  activated_at = 50;
  sla_due_at = some 60;
  sla_breached_at = none;
  acted_by_id = none;
  action = none;
  acted_at = none;
  notes = none;
}

-- The run 5 waits for the first level.
abbrev one_run : State
one_run = record no_runs {
  runs = a_run ∷ [];
  next_run_id = 6;
  workflow = record no_runs.workflow {
    instances = run_instance ∷ [];
    steps = run_step ∷ [];
    next_instance_id = 1;
    next_step_id = 1;
  };
}

one_run-IsConsistent : IsConsistent one_run
one_run-IsConsistent = record { ids = (omega arith, tt); unique = λ pid vid. ground arith }

-- The role of the first level, then the role of the second.
abbrev two_approvals : List (Option ℕ × ℕ)
two_approvals = (some 24, 70) ∷ (some 25, 80) ∷ []

submit-IsApproved_example :
    (final : State) × (done : BillRun) × (approve_all surroundings.directory outcome.0.id
        two_approvals outcome.1
      ≡ ok (final, 1))
    × (run_by_id outcome.0.id final ≡ some done)
    × (done.status ≡ BillRunStatus.approved)
submit-IsApproved_example =
    submit-IsApproved surroundings no_runs no_runs-IsConsistent
      (record { instances = tt; steps = tt }) run_definition refl 2 run_level
      (record { count = refl; each = λ k less. ground arith }) (omega arith) 7 none none (some 20)
      50 outcome.0 outcome.1 two_approvals outcome-eq refl
      ((cc, (refl, tt), inl refl), ((cc, (refl, tt), inl refl), tt)) (refl, (refl, tt))

abbrev first_approval : State × Bool
first_approval =
    value_of (approve surroundings.directory 5 none (some 24) false 70 one_run) (no_runs, false)

first_approval-eq :
    approve surroundings.directory 5 none (some 24) false 70 one_run ≡ ok first_approval
unfolding approve approve_transaction run_for_review assert_can_act assert_actor record_approval
    to_next_level activate_level save_instance save_step
first_approval-eq = refl

approve-IsApprover_example :
    (run : BillRun) × (step : Step) × IsReviewable 5 (some 24) one_run run
    × IsOpen WorkflowType.bill_run 5 one_run.workflow run_instance step
    × IsApprover surroundings.directory (some 24) step.role_id
    × ((first_approval.1 ≡ true) ↔ (count_levels 1 one_run.workflow ≤ 0 + 1))
approve-IsApprover_example =
    approve-IsApprover surroundings.directory 5 none (some 24) 70 one_run first_approval.0
      first_approval.1 run_instance one_run-IsConsistent refl first_approval-eq

abbrev rejection : State
rejection =
    value_of (reject surroundings.directory 5 (text "wrong period") (some 24) 70 one_run) no_runs

rejection-eq :
    reject surroundings.directory 5 (text "wrong period") (some 24) 70 one_run ≡ ok rejection
unfolding reject refuse run_for_review assert_can_act assert_actor
rejection-eq = refl

reject-IsRefused_example : IsRefused 5 BillRunStatus.rejected rejection
reject-IsRefused_example =
    reject-IsRefused surroundings.directory 5 (text "wrong period") (some 24) 70 one_run rejection
      one_run-IsConsistent rejection-eq

abbrev correction : State
correction =
    value_of
      (return_for_correction surroundings.directory 5 (text "check meter 3") (some 24) 70 one_run)
      no_runs

correction-eq :
    return_for_correction surroundings.directory 5 (text "check meter 3") (some 24) 70 one_run
    ≡ ok correction
unfolding return_for_correction refuse run_for_review assert_can_act assert_actor
correction-eq = refl

return_for_correction-IsRefused_example :
    IsRefused 5 BillRunStatus.returned_for_correction correction
return_for_correction-IsRefused_example =
    return_for_correction-IsRefused surroundings.directory 5 (text "check meter 3") (some 24) 70
      one_run correction one_run-IsConsistent correction-eq

all_passed-submit_example :
    (x : BillRun × State) × (submit surroundings 7 none none (some 20) 50 no_runs ≡ ok x)
unfolding get_validation_checks get_readiness evaluate_property evaluate_in_cycle derive_status
    collect_reasons cycle_reasons anomaly_reasons billable_units unresolved_anomaly_counts
all_passed-submit_example =
    (all_passed-submit_iff surroundings 7 no_runs none (some 20) 50 (cc)).0 refl

abbrev no_report : BatchReport
no_report = record {
  batch = record {
    id = 0;
    business_code = none;
    submitted_by_id = none;
    submitted_on = 0;
    notes = none;
  };
  submitted = [];
  skipped = [];
}

-- The property 8 does not exist and is skipped.
abbrev batch_outcome : BatchReport × State
batch_outcome =
    value_of (submit_batch surroundings (7 ∷ 8 ∷ 7 ∷ []) none (some 20) 50 no_runs)
      (no_report, no_runs)

batch_outcome-eq :
    submit_batch surroundings (7 ∷ 8 ∷ 7 ∷ []) none (some 20) 50 no_runs ≡ ok batch_outcome
unfolding submit_batch submit_each submit_within_transaction plan_routine get_readiness
    evaluate_property evaluate_in_cycle derive_status collect_reasons cycle_reasons anomaly_reasons
    billable_units unresolved_anomaly_counts
batch_outcome-eq = refl

submit_batch-IsTally_example :
    (batch_outcome.0.submitted ≢ [])
    × IsTally batch_outcome.0.batch.id
        (length (distinct [] (7 ∷ 8 ∷ 7 ∷ [])))
        (batch_outcome.0.submitted, batch_outcome.0.skipped, batch_outcome.1)
    × IsSplit surroundings none batch_outcome.0.batch.id
        (some 20)
        50
        (λ pid. if any (λ x. x == pid) (7 ∷ 8 ∷ 7 ∷ []) then 1 else 0)
        (batch_outcome.0.submitted, batch_outcome.0.skipped, batch_outcome.1)
submit_batch-IsTally_example =
    submit_batch-IsTally surroundings (7 ∷ 8 ∷ 7 ∷ []) none (some 20) 50 no_runs batch_outcome.1
      batch_outcome.0 no_runs-IsConsistent batch_outcome-eq

abbrev next_month : CycleInfo
next_month = record closed_cycle { period_start = 131; period_end = 160 }

abbrev later : Surroundings
later = record surroundings {
  services = record surroundings.services { reading_period = λ pid. some next_month };
}

submit-refused_again_example : submit later 7 none none (some 21) 5000 outcome.1 ≢ ok outcome
unfolding submit plan_routine get_readiness evaluate_property derive_status collect_reasons
    billable_units unresolved_anomaly_counts
submit-refused_again_example =
    submit-refused_again surroundings later 7 none none (some 20) (some 21) 50 5000 no_runs
      outcome.1 outcome.1 outcome.0 outcome.0 next_month outcome-eq refl refl refl (inl refl) refl
      refl outcome
