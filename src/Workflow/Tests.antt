-- ===== src/Workflow/Tests.antt =====
-- The workflow theorems at a definition of two levels and an object that is submitted under it.
use ccb_api.Base.{
  ℕ, ◌+◌, ◌-◌, ◌≡◌, refl, ◌↔◌, ◌≤◌, ◌⊎◌, inl, true, false, Option, none, some, List, [], ◌∷◌, arith,
  ◌==◌,
}
use ccb_api.Base.Result.{text, ok}
use ccb_api.Workflow.Data.{
  tariff, SlaUnit, OnBreach, Definition, DefinitionStatus, Level, Instance, Step, InstanceStatus,
  StepAction,
}
use ccb_api.Workflow.Store.{Store, latest_instance, count_levels}
use ccb_api.Workflow.Engine.{
  Directory, assert_can_act, assert_actor, record_approval, record_rejection, record_escalation,
  start_instance, acted, escalation_note,
}
use ccb_api.Workflow.Access.{IsApprover, IsOpen, context_of, assert_can_act-IsApprover}
use ccb_api.Workflow.Progress.{
  IsStored, HasEnded, record_approval-HasEnded, record_rejection-HasEnded,
}
use ccb_api.Workflow.Advance.{
  HasAdvanced, record_approval-HasAdvanced, record_escalation-HasAdvanced,
}
use ccb_api.Workflow.Journey.{approve_levels, IsAt, IsPublished}
use ccb_api.Workflow.Start.{journey_completes}
use ccb_api.Workflow.Sweep.{process_breached_steps-statuses}
use ccb_api.Workflow.Sla.{process_breached_steps, Handlers, breach_one_step}
use ccb_api.Workflow.Breach.{statuses, IsUntouched, IsFlagged, breach_one_step-IsFlagged}
use ccb_api.Workflow.Publish.{
  Input, LevelDto, Roles, sequence_problems, publish_new_version, write_version, all_level_problems,
  level_problems, twin_problems, final_problems, report,
}
use ccb_api.Workflow.Levels.{sequence_problems-nil_iff}
use ccb_api.Workflow.Versions.{HasPublished, publish_new_version-HasPublished}
use ccb_api.Workflow.InFlight.{publish_new_version-IsAt}

abbrev level : ℕ → Level
level k = record {
  definition_id = 1;
  level_order = k;
  role_id = k + 4;
  department = none;
  sla_value = 2;
  sla_unit = SlaUnit.hours;
  on_breach = OnBreach.escalate;
}

abbrev two_levels : Definition
two_levels = record {
  id = 1;
  workflow_type = tariff;
  version = 1;
  status = DefinitionStatus.active;
  created_by = none;
}

abbrev waiting : ℕ → Instance
waiting l = record {
  id = 0;
  workflow_type = tariff;
  business_object_id = 9;
  definition_id = 1;
  current_level_order = some l;
  status = InstanceStatus.waiting_for_approval;
  submitted_by_id = some 20;
  submitted_at = 50;
  completed_at = none;
}

abbrev open_step_at : ℕ → Step
open_step_at l = record {
  id = 0;
  instance_id = 0;
  level_order = l;
  role_id = l + 4;
  sla_value = 2;
  sla_unit = SlaUnit.hours;
  activated_at = 50;
  sla_due_at = some 60;
  sla_breached_at = none;
  acted_by_id = none;
  action = none;
  acted_at = none;
  notes = none;
}

abbrev empty : Store
empty = record {
  definitions = two_levels ∷ [];
  levels = level 0 ∷ level 1 ∷ [];
  instances = [];
  steps = [];
  next_definition_id = 2;
  next_instance_id = 0;
  next_step_id = 0;
}

-- The object 9 waits at a level.
abbrev submitted : ℕ → Store
submitted l = record empty {
  instances = waiting l ∷ [];
  steps = open_step_at l ∷ [];
  next_instance_id = 1;
  next_step_id = 1;
}

-- The user 20 + k holds the role k alone; the role 1 is SUPER_ADMIN.
abbrev directory : Directory
directory = record { role_ids = λ a. (a - 20) ∷ []; is_super_admin = λ r. r == 1 }

submitted-IsStored : (l : ℕ) → IsStored (submitted l)
submitted-IsStored l = record { instances = (omega arith, tt); steps = (omega arith, tt) }

submitted-IsOpen : (l : ℕ) → IsOpen tariff 9 (submitted l) (waiting l) (open_step_at l)
submitted-IsOpen l = record { latest = refl; waiting = refl; step = ground arith; unacted = refl }

assert_can_act-IsApprover_example :
    (st : Step) × IsOpen tariff 9 (submitted 0) (waiting 0) st
    × IsApprover directory (some 24) st.role_id
    × ((false ≡ true) ↔ (count_levels 1 (submitted 0) ≤ 0 + 1))
unfolding assert_can_act assert_actor
assert_can_act-IsApprover_example =
    assert_can_act-IsApprover directory tariff 9 (some 24) (submitted 0) refl

record_approval-HasEnded_example :
    (s' : Store) × (record_approval
        (context_of (waiting 1) (submitted 1))
        (some 25)
        none
        70
        (submitted 1)
      ≡ ok s')
    × HasEnded tariff 9
        (waiting 1)
        (open_step_at 1)
        InstanceStatus.completed
        StepAction.approved
        (some 25)
        none
        70
        s'
record_approval-HasEnded_example =
    record_approval-HasEnded tariff 9 (submitted 1) (submitted-IsStored 1) (submitted-IsOpen 1)
      (some 25) none 70 refl

record_rejection-HasEnded_example :
    HasEnded tariff 9
      (waiting 0)
      (open_step_at 0)
      InstanceStatus.rejected
      StepAction.rejected
      (some 24)
      (some (text "wrong rate"))
      70
      (record_rejection
        (context_of (waiting 0) (submitted 0))
        (some 24)
        (some (text "wrong rate"))
        70
        (submitted 0))
record_rejection-HasEnded_example =
    record_rejection-HasEnded tariff 9 (submitted 0) (submitted-IsStored 0) (submitted-IsOpen 0)
      (some 24) (some (text "wrong rate")) 70

record_approval-HasAdvanced_example :
    (s' : Store) × (record_approval
        (context_of (waiting 0) (submitted 0))
        (some 24)
        none
        70
        (submitted 0)
      ≡ ok s')
    × HasAdvanced tariff 9
        (waiting 0)
        0
        (acted StepAction.approved (some 24) none 70 (open_step_at 0))
        (level 1)
        70
        (submitted 0)
        s'
record_approval-HasAdvanced_example =
    record_approval-HasAdvanced tariff 9 (submitted 0) (waiting 0) (open_step_at 0)
      (submitted-IsStored 0) (submitted-IsOpen 0) 0 refl refl (level 1) refl (some 24) none 70

record_escalation-HasAdvanced_example :
    (s' : Store) × (record_escalation (open_step_at 0) 70 (submitted 0) ≡ ok s')
    × HasAdvanced tariff 9
        (waiting 0)
        0
        (acted StepAction.escalated none (some (escalation_note 0)) 70 (open_step_at 0))
        (level 1)
        70
        (submitted 0)
        s'
record_escalation-HasAdvanced_example =
    record_escalation-HasAdvanced tariff 9 (submitted 0) (waiting 0) (open_step_at 0)
      (submitted-IsStored 0) (submitted-IsOpen 0) refl refl (level 1) refl 70

empty-IsStored : IsStored empty
empty-IsStored = record { instances = tt; steps = tt }

empty-IsPublished : IsPublished 1 2 level empty.levels
empty-IsPublished = record { count = refl; each = λ k less. ground arith }

-- The role of the first level, then the role of the second.
abbrev approvals : List (Option ℕ × ℕ)
approvals = (some 24, 70) ∷ (some 25, 80) ∷ []

journey_completes_example :
    (s' : Store) × (i : Instance) × (approve_levels directory tariff 9 approvals
        (start_instance tariff 9 (some 20) 50 empty)
      ≡ ok s')
    × (latest_instance tariff 9 s' ≡ some i)
    × (i.status ≡ InstanceStatus.completed)
journey_completes_example =
    journey_completes directory tariff 9 2 level empty two_levels empty-IsStored refl
      empty-IsPublished (some 20) 50 approvals refl (cc)
      ((cc, (refl, tt), inl refl), ((cc, (refl, tt), inl refl), tt))

submitted-IsAt : IsAt directory tariff 9 1 2 level 0 (submitted 0)
submitted-IsAt = record {
  stored = submitted-IsStored 0;
  published = empty-IsPublished;
  instance_ = waiting 0;
  step = open_step_at 0;
  open_ = submitted-IsOpen 0;
  definition = refl;
  level = refl;
  role = refl;
}

abbrev no_handlers : Handlers
no_handlers w = none

breach_one_step-IsFlagged_example :
    let (s', counted) = breach_one_step no_handlers (waiting 0) (open_step_at 0) 70 (submitted 0) in
    (statuses s' ≡ statuses (submitted 0))
    × (((¬ IsUntouched 0 (submitted 0)) × (counted ≡ false) × (s' ≡ submitted 0))
        ⊎ (IsUntouched 0 (submitted 0) × (counted ≡ true) × IsFlagged 0 70 s'))
breach_one_step-IsFlagged_example =
    breach_one_step-IsFlagged no_handlers (waiting 0) (open_step_at 0) 70 (submitted 0)
      (submitted-IsStored 0) (cc)

abbrev proposed : ℕ → LevelDto
proposed role = record {
  role_id = some role;
  department = Input.absent;
  sla_value = some 1;
  sla_unit = Input.known SlaUnit.hours;
  on_breach = Input.known OnBreach.notify;
}

abbrev proposal : List LevelDto
proposal = proposed 4 ∷ proposed 5 ∷ []

abbrev roles : Roles
roles = record { exists_ = λ r. true; is_super_admin = λ r. r == 1; is_eligible = λ w r. true }

sequence_problems-nil_example : sequence_problems roles tariff proposal ≡ []
sequence_problems-nil_example =
    (sequence_problems-nil_iff roles tariff proposal).1
      (cc, ground arith, ground arith, ground arith)

publish_new_version-HasPublished_example :
    HasPublished tariff proposal (level 0) empty (write_version tariff proposal (some 3) empty)
unfolding publish_new_version sequence_problems all_level_problems level_problems twin_problems
    final_problems report
publish_new_version-HasPublished_example =
    publish_new_version-HasPublished roles tariff proposal (some 3) empty
      (write_version tariff proposal (some 3) empty) (level 0) (omega arith)
      (omega arith, (omega arith, tt)) refl

publish_new_version-IsAt_example :
    IsAt directory tariff 9 1 2 level 0 (write_version tariff proposal (some 3) (submitted 0))
unfolding publish_new_version sequence_problems all_level_problems level_problems twin_problems
    final_problems report
publish_new_version-IsAt_example =
    publish_new_version-IsAt directory roles tariff tariff 9 1 2 level 0 proposal (some 3)
      (submitted 0) (write_version tariff proposal (some 3) (submitted 0)) (cc) submitted-IsAt refl

process_breached_steps-statuses_example :
    statuses (process_breached_steps no_handlers 70 (submitted 0)).0 ≡ statuses (submitted 0)
process_breached_steps-statuses_example =
    process_breached_steps-statuses no_handlers 70 (submitted 0) (submitted-IsStored 0)
      (cc, (cc, tt))
