-- ===== src/BillRun/Submit.antt =====
-- `submitWithinTransaction`, `submit` and `resubmit`: a run is inserted for a plan.
use ccb_api.Base.{
  ℕ, suc, ◌+◌, Bool, true, false, not, Option, none, some, [], ◌∷◌, ◌++◌, if◌then◌else◌, is_some,
  get_or_else,
}
use ccb_api.Base.Result.{
  Message, text, lit, num, not_found, bad_request, conflict, Result, ok, err, ◌>>=◌, ◌>>◌, throw_if,
  or_throw,
}
use ccb_api.Workflow.Data.{WorkflowType}
use ccb_api.Workflow.Engine.{start_instance}
use ccb_api.BillRun.Data.{
  BillRunStatus, BillRun, State, DayConfig, Surroundings, run_by_id, run_key,
  generate_business_code,
}
use ccb_api.Base.Rows.{replace_row}
use ccb_api.BillRun.Plan.{Plan, Recovery, existing_active, plan_for}

abbrev pub default_days : DayConfig
default_days = record { bill_generation_days = 0; bill_issue_days = 0; bill_due_days = 1 }

abbrev pub already_exists : BillRun → Message
already_exists r =
    lit "A bill run ("
    ∷ (get_or_else r.business_code (lit "#" ∷ num r.id ∷ [])
        ++ text ") already exists for this property and cycle")

-- The row that a submission inserts.
unfoldable pub new_run :
    Surroundings → ℕ → Option Message → Option ℕ → Option ℕ → Bool → ℕ → Plan → ℕ → BillRun
new_run env pid notes batch actor is_recovery now plan id =
    let days = get_or_else (env.day_config plan.cycle_version_id) default_days in
    record {
      id = id;
      business_code = some (generate_business_code (text "BLR") id);
      batch_id = batch;
      property_id = pid;
      cycle_master_id = plan.cycle_master_id;
      cycle_version_id = plan.cycle_version_id;
      cycle_period_start = plan.period_start;
      cycle_period_end = plan.period_end;
      bill_issue_date = plan.period_end + (days.bill_generation_days + days.bill_issue_days);
      bill_due_date =
          plan.period_end + (days.bill_generation_days + days.bill_issue_days + days.bill_due_days);
      status = BillRunStatus.pending_approval;
      billable_units = plan.billable_units;
      units_missing_tariff = plan.units_missing_tariff;
      units_missing_meter_mapping = plan.units_missing_meter_mapping;
      units_missing_reading = plan.units_missing_reading;
      critical_anomalies = plan.critical_anomalies;
      high_anomalies = plan.high_anomalies;
      notes = notes;
      submitted_by_id = actor;
      submitted_on = now;
      reviewed_by_id = none;
      reviewed_on = none;
      review_notes = none;
      resubmitted_from_id = none;
      tariff_resolution_date = if is_recovery then some plan.period_start else none;
    }

-- The row is inserted and its workflow started.
unfoldable pub insert_run : BillRun → Option ℕ → ℕ → State → State
insert_run run actor now st = record st {
  runs = run ∷ st.runs;
  next_run_id = suc st.next_run_id;
  workflow = start_instance WorkflowType.bill_run run.id actor now st.workflow;
}

unfoldable pub submit_within_transaction :
    Surroundings
    → ℕ
    → Option Message
    → Option ℕ
    → Option ℕ
    → Option Recovery
    → ℕ
    → State
    → Result (BillRun × State)
unfolding new_run insert_run
submit_within_transaction env pid notes batch actor recovery now st = do
  plan ← plan_for env pid recovery st
  elim (existing_active st pid plan.cycle_version_id) [
    | none ↦
        let run = new_run env pid notes batch actor (is_some recovery) now plan st.next_run_id in
        ok (run, insert_run run actor now st)
    | some r ↦ err (conflict (already_exists r))
  ]

unfoldable pub submit :
    Surroundings
    → ℕ
    → Option Message
    → Option Recovery
    → Option ℕ
    → ℕ
    → State
    → Result (BillRun × State)
unfolding submit_within_transaction
submit env pid notes recovery actor now st =
    submit_within_transaction env pid notes none actor recovery now st

abbrev pub can_resubmit : BillRunStatus → Bool
can_resubmit BillRunStatus.returned_for_correction = true
can_resubmit BillRunStatus.rejected = true
can_resubmit _ = false

-- The new row points at the row that it replaces.
abbrev pub link_to : ℕ → BillRun × State → BillRun × State
link_to original (run, st) =
    let linked = record run { resubmitted_from_id = some original } in
    (linked, record st { runs = replace_row run_key linked st.runs })

abbrev pub run_not_found : Message
run_not_found = text "Bill run not found"

unfoldable pub resubmit :
    Surroundings → ℕ → Option Message → Option ℕ → ℕ → State → Result (BillRun × State)
unfolding submit_within_transaction
resubmit env id notes actor now st = do
  original ← or_throw (run_by_id id st) (not_found run_not_found)
  throw_if (not (can_resubmit original.status))
      (bad_request (text "Only a returned or rejected bill run can be resubmitted"))
  created ←
      submit_within_transaction env original.property_id notes original.batch_id actor none now st
  ok (link_to original.id created)
