-- ===== src/Cycle/Data.antt =====
-- The rows of src/modules/billing-cycle/entities/. Dates are day numbers and times milliseconds since
-- the same midnight; the day of a time is that of UTC, which the server's clock shows. The label
-- of a version, such as 2.0, is its major number: the service makes no others.
use ccb_api.Base.{ℕ, ◌*◌, ◌/◌, Bool, true, false, Option, some, List, ◌==◌, find, String}
use ccb_api.Base.Rows.{replace_row}
use ccb_api.Base.Result.{Message}
use ccb_api.Workflow.Store.{Store}

pub data BillingCycleStatus : Type 0 where
  active inactive pending rejected deprecated : BillingCycleStatus

pub record BillingCycleVersion : Type 0 where
  pub id : ℕ
  pub master_id : ℕ
  pub frequency : String
  pub reading_start_day : ℕ
  pub reading_end_day : ℕ
  pub bill_generation_days : ℕ
  pub bill_issue_days : ℕ
  pub bill_due_days : ℕ
  pub status : BillingCycleStatus
  pub last_change_reason : Option String
  pub change_reason_code : Option String
  pub version : ℕ
  pub parent_version_id : Option ℕ
  pub effective_from : Option ℕ
  pub submitted_by_id : Option ℕ
  pub submitted_on : Option ℕ
  pub approved_by_id : Option ℕ
  pub approval_date : Option ℕ
  pub rejection_notes : Option Message
  pub deprecation_reason_code : Option String
  pub deprecation_notes : Option String
  pub deprecated_on : Option ℕ

pub record BillingCycleMaster : Type 0 where
  pub id : ℕ
  pub business_code : Option Message
  pub community_id : ℕ
  pub property_id : ℕ
  pub current_version_id : Option ℕ

-- Rows are listed newest first.
pub record State : Type 0 where
  pub masters : List BillingCycleMaster
  pub next_master_id : ℕ
  pub versions : List BillingCycleVersion
  pub next_version_id : ℕ
  pub workflow : Store

abbrev pub master_key : BillingCycleMaster → ℕ
master_key m = m.id

abbrev pub version_key : BillingCycleVersion → ℕ
version_key v = v.id

abbrev pub version_by_id : ℕ → State → Option BillingCycleVersion
version_by_id id st = find (λ v. v.id == id) st.versions

abbrev pub master_by_id : ℕ → State → Option BillingCycleMaster
master_by_id id st = find (λ m. m.id == id) st.masters

abbrev pub master_of_property : ℕ → State → Option BillingCycleMaster
master_of_property pid st = find (λ m. m.property_id == pid) st.masters

abbrev pub save_version : BillingCycleVersion → State → State
save_version v st = record st { versions = replace_row version_key v st.versions }

abbrev pub save_master : BillingCycleMaster → State → State
save_master m st = record st { masters = replace_row master_key m st.masters }

abbrev pub ms_per_day : ℕ
ms_per_day = 86400000

-- The date of a time, and the midnight at which a date starts.
abbrev pub day_of : ℕ → ℕ
day_of now = now / ms_per_day

abbrev pub midnight : ℕ → ℕ
midnight day = day * ms_per_day

abbrev pub is_active : BillingCycleVersion → Bool
is_active v = elim v.status [ BillingCycleStatus.active ↦ true | _ ↦ false ]

abbrev pub is_pending : BillingCycleVersion → Bool
is_pending v = elim v.status [ BillingCycleStatus.pending ↦ true | _ ↦ false ]

abbrev pub is_rejected : BillingCycleVersion → Bool
is_rejected v = elim v.status [ BillingCycleStatus.rejected ↦ true | _ ↦ false ]

abbrev pub is_deprecated : BillingCycleVersion → Bool
is_deprecated v = elim v.status [ BillingCycleStatus.deprecated ↦ true | _ ↦ false ]

-- `LIVE_CHILD_STATUSES`
abbrev pub was_live : BillingCycleVersion → Bool
was_live v = elim v.status [
  | BillingCycleStatus.active ↦ true
  | BillingCycleStatus.deprecated ↦ true
  | _ ↦ false
]

-- Whether the version's parent is the one with this id.
abbrev pub is_child_of : ℕ → BillingCycleVersion → Bool
is_child_of id v = elim v.parent_version_id [ Option.none ↦ false | some p ↦ p == id ]
