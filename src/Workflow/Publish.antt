-- ===== src/Workflow/Publish.antt =====
-- src/modules/workflow/workflow-definition.service.ts: the check of a proposed level sequence and the
-- publication of a new version. A problem stands for the message that names it; levels are
-- numbered from 1 as in the messages.
use ccb_api.Base.{
  ℕ, suc, Bool, true, false, not, ◌&&◌, Option, none, some, List, [], ◌∷◌, ◌++◌, ltb, ◌==◌,
  if◌then◌else◌, find,
}
use ccb_api.Workflow.Data.{
  WorkflowType, SlaUnit, business_days, calendar_days, hours, OnBreach, notify, escalate,
  auto_approve, Department, billing, field_operations, contract_management, customer_management, cs,
  DefinitionStatus, Definition, Level,
}
use ccb_api.Workflow.Store.{Store, same_type, is_active_definition}

-- A field that is absent, one of the enum's values, or any other text.
pub data Input (A : Type 0) : Type 0 where
  absent unknown : Input A
  known : A → Input A

-- `ApprovalLevelDto`; a role id or an SLA value that is no whole number of at least 0 is `none`.
pub record LevelDto : Type 0 where
  pub role_id : Option ℕ
  pub department : Input Department
  pub sla_value : Option ℕ
  pub sla_unit : Input SlaUnit
  pub on_breach : Input OnBreach

pub data Problem : Type 0 where
  no_levels : Problem
  unknown_role super_admin_role ineligible_role : ℕ → Problem
  unknown_department bad_sla unknown_sla_unit unknown_on_breach : ℕ → Problem
  identical : ℕ → ℕ → Problem
  escalate_on_final : ℕ → Problem

-- The roles: their ids, which one is SUPER_ADMIN, and which hold an approve action of the type.
pub record Roles : Type 0 where
  pub exists_ : ℕ → Bool
  pub is_super_admin : ℕ → Bool
  pub is_eligible : WorkflowType → ℕ → Bool

abbrev pub problem_if : Bool → Problem → List Problem
problem_if b p = if b then p ∷ [] else []

abbrev pub role_problems : Roles → WorkflowType → ℕ → Option ℕ → List Problem
role_problems roles w at none = unknown_role at ∷ []
role_problems roles w at (some r) =
    if not (roles.exists_ r)
    then unknown_role at ∷ []
    else if roles.is_super_admin r
    then super_admin_role at ∷ []
    else problem_if (not (roles.is_eligible w r)) (ineligible_role at)

abbrev pub department_problems : ℕ → Input Department → List Problem
department_problems at Input.unknown = unknown_department at ∷ []
department_problems at _ = []

abbrev pub sla_problems : ℕ → Option ℕ → List Problem
sla_problems at none = bad_sla at ∷ []
sla_problems at (some v) = problem_if (v == 0) (bad_sla at)

abbrev pub unit_problems : ℕ → Input SlaUnit → List Problem
unit_problems at (Input.known u) = []
unit_problems at _ = unknown_sla_unit at ∷ []

abbrev pub breach_problems : ℕ → Input OnBreach → List Problem
breach_problems at (Input.known b) = []
breach_problems at _ = unknown_on_breach at ∷ []

unfoldable pub level_problems : Roles → WorkflowType → ℕ → LevelDto → List Problem
level_problems roles w at l =
    role_problems roles w at l.role_id
    ++ (department_problems at l.department
        ++ (sla_problems at l.sla_value
            ++ (unit_problems at l.sla_unit ++ breach_problems at l.on_breach)))

unfoldable pub all_level_problems : Roles → WorkflowType → ℕ → List LevelDto → List Problem
unfolding level_problems
all_level_problems roles w at [] = []
all_level_problems roles w at (l ∷ ls) =
    level_problems roles w at l ++ all_level_problems roles w (suc at) ls

-- The level as it will be stored, once every field is known.
unfoldable pub to_level : ℕ → ℕ → LevelDto → Option Level
to_level did order l = elim l.role_id [
  | none ↦ none
  | some r ↦ elim l.sla_value [
    | none ↦ none
    | some v ↦ elim l.sla_unit [
      | Input.known u ↦ elim l.on_breach [
        | Input.known b ↦ some (record {
          definition_id = did;
          level_order = order;
          role_id = r;
          department = elim l.department [ Input.known d ↦ some d | _ ↦ none ];
          sla_value = v;
          sla_unit = u;
          on_breach = b;
        })
        | _ ↦ none
      ]
      | _ ↦ none
    ]
  ]
]

abbrev pub same_unit : Input SlaUnit → Input SlaUnit → Bool
same_unit (Input.known business_days) (Input.known business_days) = true
same_unit (Input.known calendar_days) (Input.known calendar_days) = true
same_unit (Input.known hours) (Input.known hours) = true
same_unit _ _ = false

abbrev pub same_breach : Input OnBreach → Input OnBreach → Bool
same_breach (Input.known notify) (Input.known notify) = true
same_breach (Input.known escalate) (Input.known escalate) = true
same_breach (Input.known auto_approve) (Input.known auto_approve) = true
same_breach _ _ = false

abbrev pub same_department : Input Department → Input Department → Bool
same_department Input.absent Input.absent = true
same_department (Input.known billing) (Input.known billing) = true
same_department (Input.known field_operations) (Input.known field_operations) = true
same_department (Input.known contract_management) (Input.known contract_management) = true
same_department (Input.known customer_management) (Input.known customer_management) = true
same_department (Input.known cs) (Input.known cs) = true
same_department _ _ = false

abbrev pub same_number : Option ℕ → Option ℕ → Bool
same_number (some a) (some b) = a == b
same_number _ _ = false

-- Two levels with equal `fingerprint`s, where every field is valid.
abbrev pub same_fingerprint : LevelDto → LevelDto → Bool
same_fingerprint l m =
    same_number l.role_id m.role_id
    && (same_department l.department m.department
        && (same_number l.sla_value m.sla_value
            && (same_unit l.sla_unit m.sla_unit && same_breach l.on_breach m.on_breach)))

-- `seen` holds the first level of each fingerprint with its number.
unfoldable pub twin_problems : List (LevelDto × ℕ) → ℕ → List LevelDto → List Problem
twin_problems seen at [] = []
twin_problems seen at (l ∷ ls) = elim (find (λ e. same_fingerprint e.0 l) seen) [
  | none ↦ twin_problems (seen ++ (l, at) ∷ []) (suc at) ls
  | some (_, first) ↦ identical at first ∷ twin_problems seen (suc at) ls
]

abbrev pub is_escalate : Input OnBreach → Bool
is_escalate (Input.known escalate) = true
is_escalate _ = false

unfoldable pub final_problems : ℕ → List LevelDto → List Problem
final_problems at [] = []
final_problems at (l ∷ []) = problem_if (is_escalate l.on_breach) (escalate_on_final at)
final_problems at (l ∷ m ∷ ls) = final_problems (suc at) (m ∷ ls)

-- All problems in one report; twins are looked for only if there is no problem so far.
unfoldable pub report : List Problem → List Problem → List Problem → List Problem
report [] twins final = twins ++ final
report (p ∷ each) twins final = p ∷ (each ++ final)

unfoldable pub sequence_problems : Roles → WorkflowType → List LevelDto → List Problem
unfolding all_level_problems twin_problems final_problems report
sequence_problems roles w [] = no_levels ∷ []
sequence_problems roles w (l ∷ ls) =
    report (all_level_problems roles w 1 (l ∷ ls)) (twin_problems [] 1 (l ∷ ls))
      (final_problems 1 (l ∷ ls))

unfoldable pub create_levels : ℕ → ℕ → List LevelDto → List Level
unfolding to_level
create_levels did order [] = []
create_levels did order (l ∷ ls) = elim (to_level did order l) [
  | none ↦ create_levels did (suc order) ls
  | some row ↦ row ∷ create_levels did (suc order) ls
]

-- `MAX(version)` of the type, 0 if there is none.
unfoldable pub max_version : WorkflowType → List Definition → ℕ
max_version w [] = 0
max_version w (d ∷ ds) =
    let rest = max_version w ds in
    if same_type d.workflow_type w && ltb rest d.version then d.version else rest

-- The first ACTIVE definition of the type is archived.
unfoldable pub archive_active : WorkflowType → List Definition → List Definition
archive_active w [] = []
archive_active w (d ∷ ds) =
    if same_type d.workflow_type w && is_active_definition d
    then record d { status = DefinitionStatus.archived } ∷ ds
    else d ∷ archive_active w ds

pub data Published : Type 0 where
  refused : List Problem → Published
  published : Store → Published

abbrev pub new_version : WorkflowType → Option ℕ → Store → Definition
new_version w actor s = record {
  id = s.next_definition_id;
  workflow_type = w;
  version = suc (max_version w s.definitions);
  status = DefinitionStatus.active;
  created_by = actor;
}

unfoldable pub write_version : WorkflowType → List LevelDto → Option ℕ → Store → Store
unfolding create_levels max_version archive_active
write_version w ls actor s = record s {
  definitions = new_version w actor s ∷ archive_active w s.definitions;
  levels = create_levels s.next_definition_id 0 ls ++ s.levels;
  next_definition_id = suc s.next_definition_id;
}

unfoldable pub publish_new_version :
    Roles → WorkflowType → List LevelDto → Option ℕ → Store → Published
unfolding sequence_problems write_version
publish_new_version roles w ls actor s = elim (sequence_problems roles w ls) [
  | [] ↦ published (write_version w ls actor s)
  | p ∷ ps ↦ refused (p ∷ ps)
]
