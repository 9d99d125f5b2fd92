-- ===== src/Workflow/Data.antt =====
-- The enums and rows of src/modules/workflow/entities/. A time is a number of milliseconds.
use ccb_api.Base.{ℕ, Option}
use ccb_api.Base.Result.{Message}

pub data WorkflowType : Type 0 where
  tariff bill_run billing_cycle : WorkflowType

pub data SlaUnit : Type 0 where
  business_days calendar_days hours : SlaUnit

pub data OnBreach : Type 0 where
  notify escalate auto_approve : OnBreach

pub data Department : Type 0 where
  billing field_operations contract_management customer_management cs : Department

pub data DefinitionStatus : Type 0 where
  draft active archived : DefinitionStatus

pub data InstanceStatus : Type 0 where
  waiting_for_approval completed rejected cancelled : InstanceStatus

pub data StepAction : Type 0 where
  approved rejected returned sla_breached escalated : StepAction

pub record Definition : Type 0 where
  pub id : ℕ
  pub workflow_type : WorkflowType
  pub version : ℕ
  pub status : DefinitionStatus
  pub created_by : Option ℕ

pub record Level : Type 0 where
  pub definition_id : ℕ
  pub level_order : ℕ
  pub role_id : ℕ
  pub department : Option Department
  pub sla_value : ℕ
  pub sla_unit : SlaUnit
  pub on_breach : OnBreach

pub record Instance : Type 0 where
  pub id : ℕ
  pub workflow_type : WorkflowType
  pub business_object_id : ℕ
  pub definition_id : ℕ
  pub current_level_order : Option ℕ
  pub status : InstanceStatus
  pub submitted_by_id : Option ℕ
  pub submitted_at : ℕ
  pub completed_at : Option ℕ

pub record Step : Type 0 where
  pub id : ℕ
  pub instance_id : ℕ
  pub level_order : ℕ
  pub role_id : ℕ
  pub sla_value : ℕ
  pub sla_unit : SlaUnit
  pub activated_at : ℕ
  pub sla_due_at : Option ℕ
  pub sla_breached_at : Option ℕ
  pub acted_by_id : Option ℕ
  pub action : Option StepAction
  pub acted_at : Option ℕ
  pub notes : Option Message
