-- ===== src/BillRun/Data.antt =====
-- The enum and the rows of src/modules/bill-run/entities/, and the state that the service changes: its
-- own tables and the workflow's. Dates are day numbers and times milliseconds.
use ccb_api.Base.{ℕ, Bool, true, false, ◌&&◌, Option, List, [], ◌∷◌, ◌++◌, map, ◌==◌, find}
use ccb_api.Base.Result.{Message, lit, padded}
use ccb_api.Readiness.Data.{Services, Tables, BillRunRow}
use ccb_api.Workflow.Store.{Store}
use ccb_api.Workflow.Engine.{Directory}

pub data BillRunStatus : Type 0 where
  pending_approval returned_for_correction approved rejected : BillRunStatus

pub record BillRun : Type 0 where
  pub id : ℕ
  pub business_code : Option Message
  pub batch_id : Option ℕ
  pub property_id : ℕ
  pub cycle_master_id : ℕ
  pub cycle_version_id : ℕ
  pub cycle_period_start : ℕ
  pub cycle_period_end : ℕ
  pub bill_issue_date : ℕ
  pub bill_due_date : ℕ
  pub status : BillRunStatus
  pub billable_units : ℕ
  pub units_missing_tariff : ℕ
  pub units_missing_meter_mapping : ℕ
  pub units_missing_reading : ℕ
  pub critical_anomalies : ℕ
  pub high_anomalies : ℕ
  pub notes : Option Message
  pub submitted_by_id : Option ℕ
  pub submitted_on : ℕ
  pub reviewed_by_id : Option ℕ
  pub reviewed_on : Option ℕ
  pub review_notes : Option Message
  pub resubmitted_from_id : Option ℕ
  pub tariff_resolution_date : Option ℕ

pub record BillRunBatch : Type 0 where
  pub id : ℕ
  pub business_code : Option Message
  pub submitted_by_id : Option ℕ
  pub submitted_on : ℕ
  pub notes : Option Message

-- Rows are listed newest first.
pub record State : Type 0 where
  pub runs : List BillRun
  pub next_run_id : ℕ
  pub batches : List BillRunBatch
  pub next_batch_id : ℕ
  pub workflow : Store

pub record DayConfig : Type 0 where
  pub bill_generation_days : ℕ
  pub bill_issue_days : ℕ
  pub bill_due_days : ℕ

-- What a bill run reads and does not change: the other services, the tables but for the bill runs,
-- the days configured for a cycle version, and the roles of the users.
pub record Surroundings : Type 0 where
  pub services : Services
  pub tables : Tables
  pub day_config : ℕ → Option DayConfig
  pub directory : Directory

-- `ACTIVE_BILL_RUN_STATUSES`
abbrev pub is_active_status : BillRunStatus → Bool
is_active_status BillRunStatus.pending_approval = true
is_active_status BillRunStatus.approved = true
is_active_status _ = false

abbrev pub is_pending : BillRun → Bool
is_pending r = elim r.status [ BillRunStatus.pending_approval ↦ true | _ ↦ false ]

-- The active runs of a property in a cycle version.
abbrev pub is_active_for : ℕ → ℕ → BillRun → Bool
is_active_for pid vid r =
    (r.property_id == pid) && ((r.cycle_version_id == vid) && is_active_status r.status)

abbrev pub run_by_id : ℕ → State → Option BillRun
run_by_id id st = find (λ r. r.id == id) st.runs

abbrev pub run_key : BillRun → ℕ
run_key r = r.id

abbrev pub to_row : BillRun → BillRunRow
to_row r = record {
  id = r.id;
  property_id = r.property_id;
  cycle_version_id = r.cycle_version_id;
  business_code = r.business_code;
  status = elim r.status [
    | BillRunStatus.pending_approval ↦ "pending_approval"
    | BillRunStatus.returned_for_correction ↦ "returned_for_correction"
    | BillRunStatus.approved ↦ "approved"
    | BillRunStatus.rejected ↦ "rejected"
  ];
}

-- The tables as the readiness service sees them in a state.
abbrev pub tables_in : Surroundings → State → Tables
tables_in env st = record env.tables { bill_runs = map to_row st.runs }

-- `generateBusinessCode`
abbrev pub business_code_digits : ℕ
business_code_digits = 6

abbrev pub generate_business_code : Message → ℕ → Message
generate_business_code prefix id = prefix ++ (lit "-" ∷ padded business_code_digits id ∷ [])
