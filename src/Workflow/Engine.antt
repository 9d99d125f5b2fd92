-- ===== src/Workflow/Engine.antt =====
-- src/modules/workflow/workflow-orchestration.service.ts. Each method runs in its caller's
-- transaction: a refused call leaves no new state. The current time is an argument.
use ccb_api.Base.{
  ℕ, suc, ◌+◌, ◌*◌, Bool, true, not, ◌&&◌, Option, none, some, List, [], ◌∷◌, map, leb, ◌==◌,
  if◌then◌else◌, is_none, get_or_else, any, find,
}
use ccb_api.Base.Result.{
  Message, text, lit, num, Result, ok, ◌>>=◌, ◌>>◌, throw_if, or_throw, not_found, bad_request,
  conflict, forbidden,
}
use ccb_api.Workflow.Data.{
  WorkflowType, SlaUnit, hours, InstanceStatus, StepAction, Definition, Level, Instance, Step,
}
use ccb_api.Workflow.Store.{
  Store, is_waiting, is_active_definition, same_type, is_for, latest_instance, step_at, level_at,
  count_levels, levels_of, save_instance, save_step,
}

-- What the user and role services say of an actor: the ids of the active roles, and whether a role
-- is SUPER_ADMIN.
pub record Directory : Type 0 where
  pub role_ids : ℕ → List ℕ
  pub is_super_admin : ℕ → Bool

abbrev pub ms_per_hour : ℕ
ms_per_hour = 3600000

abbrev pub hours_per_day : ℕ
hours_per_day = 24

unfoldable pub add_duration : ℕ → ℕ → SlaUnit → ℕ
add_duration from value hours = from + value * ms_per_hour
add_duration from value _ = from + value * (hours_per_day * ms_per_hour)

-- `getActiveDefinition`: the active definition of the type with its levels in order, unless it has
-- no level.
unfoldable pub get_active_definition :
    WorkflowType → Store → Option (Definition × Level × List Level)
get_active_definition w s =
    elim (find (λ d. same_type d.workflow_type w && is_active_definition d) s.definitions) [
      | none ↦ none
      | some d ↦ elim (levels_of d.id s) [ [] ↦ none | l ∷ ls ↦ some (d, l, ls) ]
    ]

unfoldable pub activate_level : ℕ → Level → ℕ → Store → Store
unfolding add_duration
activate_level iid l now s = record s {
  steps =
      record {
        id = s.next_step_id;
        instance_id = iid;
        level_order = l.level_order;
        role_id = l.role_id;
        sla_value = l.sla_value;
        sla_unit = l.sla_unit;
        activated_at = now;
        sla_due_at = some (add_duration now l.sla_value l.sla_unit);
        sla_breached_at = none;
        acted_by_id = none;
        action = none;
        acted_at = none;
        notes = none;
      }
      ∷ s.steps;
  next_step_id = suc s.next_step_id;
}

-- The waiting instances of the object are cancelled, the others stay.
abbrev pub cancel_waiting : WorkflowType → ℕ → ℕ → Instance → Instance
cancel_waiting w obj now i =
    if is_for w obj i && is_waiting i
    then record i { status = InstanceStatus.cancelled; completed_at = some now }
    else i

abbrev pub new_instance : WorkflowType → ℕ → Option ℕ → ℕ → ℕ → Store → Instance
new_instance w obj actor did now s = record {
  id = s.next_instance_id;
  workflow_type = w;
  business_object_id = obj;
  definition_id = did;
  current_level_order = some 0;
  status = InstanceStatus.waiting_for_approval;
  submitted_by_id = actor;
  submitted_at = now;
  completed_at = none;
}

unfoldable pub start_instance : WorkflowType → ℕ → Option ℕ → ℕ → Store → Store
unfolding get_active_definition activate_level
start_instance w obj actor now s = elim (get_active_definition w s) [
  | none ↦ s
  | some (d, first, rest) ↦ activate_level s.next_instance_id first now (record s {
    instances = new_instance w obj actor d.id now s ∷ map (cancel_waiting w obj now) s.instances;
    next_instance_id = suc s.next_instance_id;
  })
]

-- `WorkflowActionContext`
pub record Context : Type 0 where
  pub instance_ : Option Instance
  pub is_final_level : Bool

abbrev pub already_processed : Message
already_processed =
    text
      "This item has already been processed by the workflow — refresh and check its current status."

abbrev pub already_acted : Message
already_acted =
    text "This approval level has already been acted upon — refresh and check its current status."

abbrev pub super_admin_refused : Message
super_admin_refused =
    text
      "SUPER_ADMIN is a system-administration role and cannot approve or reject business transactions."

abbrev pub waiting_on_level : ℕ → Message
waiting_on_level l =
    lit "This item is waiting on Level "
    ∷ num (l + 1)
    ∷ lit " — your role is not the configured approver for that level."
    ∷ []

-- The step, if it is there and nobody has acted on it.
abbrev pub open_step : Option Step → Option Step
open_step none = none
open_step (some st) = if is_none st.action then some st else none

-- `!actorId` holds for a missing id and for 0.
abbrev pub known_actor : Option ℕ → Option ℕ
known_actor none = none
known_actor (some a) = if a == 0 then none else some a

unfoldable pub assert_actor : Directory → Option ℕ → Instance → Step → Result (Unit {0})
assert_actor dir actor i st = do
  a ←
      or_throw (known_actor actor)
        (forbidden (text "Could not determine the acting user for this approval."))
  throw_if (any dir.is_super_admin (dir.role_ids a)) (forbidden super_admin_refused)
  throw_if (not (any (λ r. r == st.role_id) (dir.role_ids a)))
      (forbidden (waiting_on_level (get_or_else i.current_level_order 0)))

-- `currentLevelOrder >= levels - 1`, over the integers.
abbrev pub is_final : Instance → Store → Bool
is_final i s = leb (count_levels i.definition_id s) (get_or_else i.current_level_order 0 + 1)

unfoldable pub assert_can_act :
    Directory → WorkflowType → ℕ → Option ℕ → Bool → Store → Result Context
unfolding assert_actor
assert_can_act dir w obj actor is_system s = elim (latest_instance w obj s) [
  | none ↦ ok (record { instance_ = none; is_final_level = true })
  | some i ↦ do
    throw_if (not (is_waiting i)) (conflict already_processed)
    st ← or_throw (open_step (step_at i.id i.current_level_order s)) (conflict already_acted)
    if is_system then ok tt else assert_actor dir actor i st
    ok (record { instance_ = some i; is_final_level = is_final i s })
]

abbrev pub acted : StepAction → Option ℕ → Option Message → ℕ → Step → Step
acted action actor notes now st = record st {
  acted_by_id = actor;
  action = some action;
  acted_at = some now;
  notes = notes;
}

abbrev pub close : InstanceStatus → ℕ → Instance → Instance
close status now i = record i {
  status = status;
  current_level_order = none;
  completed_at = some now;
}

abbrev pub advance : Instance → Level → ℕ → Store → Store
advance i next now s =
    activate_level i.id next now
      (save_instance (record i { current_level_order = some next.level_order }) s)

-- An intermediate approval: the next level becomes current.
unfoldable pub to_next_level : Instance → ℕ → Store → Result Store
unfolding activate_level save_instance
to_next_level i now s = do
  next ← or_throw (level_at i.definition_id (get_or_else i.current_level_order 0 + 1) s) (
      bad_request (
        text
          "Workflow definition is missing the next configured level — contact an administrator."))
  ok (advance i next now s)

unfoldable pub record_approval : Context → Option ℕ → Option Message → ℕ → Store → Result Store
unfolding to_next_level save_instance save_step
record_approval ctx actor notes now s = elim ctx.instance_ [
  | none ↦ ok s
  | some i ↦ do
    st ← or_throw (step_at i.id i.current_level_order s) (
        not_found
          (text "Workflow step not found — this should not happen after assertCanAct succeeded."))
    let s' = save_step (acted StepAction.approved actor notes now st) s
    if ctx.is_final_level
        then ok (save_instance (close InstanceStatus.completed now i) s')
        else to_next_level i now s'
]

unfoldable pub record_rejection : Context → Option ℕ → Option Message → ℕ → Store → Store
unfolding save_instance save_step
record_rejection ctx actor reason now s = elim ctx.instance_ [
  | none ↦ s
  | some i ↦
      let s' : Store = elim (step_at i.id i.current_level_order s) [
        | none ↦ s
        | some st ↦ save_step (acted StepAction.rejected actor reason now st) s
      ] in
      save_instance (close InstanceStatus.rejected now i) s'
]

abbrev pub escalation_note : ℕ → Message
escalation_note l =
    lit "Escalated by system — SLA breached on Level "
    ∷ num (l + 1)
    ∷ lit " with no human action taken."
    ∷ []

abbrev pub cannot_escalate : ℕ → Message
cannot_escalate l =
    lit "Cannot escalate Level "
    ∷ num (l + 1)
    ∷ lit " — no next level is configured on this workflow definition."
    ∷ []

unfoldable pub record_escalation : Step → ℕ → Store → Result Store
unfolding activate_level save_instance save_step
record_escalation st now s = do
  i ←
      or_throw (find (λ j. j.id == st.instance_id) s.instances)
        (not_found (text "Workflow instance not found for escalation."))
  next ←
      or_throw (level_at i.definition_id (st.level_order + 1) s)
        (bad_request (cannot_escalate st.level_order))
  ok (
      advance i next now (
        save_step (acted StepAction.escalated none (some (escalation_note st.level_order)) now st)
          s))
