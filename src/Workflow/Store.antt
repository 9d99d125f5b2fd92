-- ===== src/Workflow/Store.antt =====
-- The workflow tables and the queries on them. Rows are listed newest first, so the first match is
-- the one with the highest id; a new row takes the next id of its table.
use ccb_api.Base.{
  ℕ, Bool, true, false, ◌&&◌, Option, none, some, List, [], ◌∷◌, leb, ◌==◌, if◌then◌else◌, filter,
  find, count_if,
}
use ccb_api.Base.Rows.{replace_row}
use ccb_api.Workflow.Data.{
  WorkflowType, tariff, bill_run, billing_cycle, active, waiting_for_approval, Definition, Level,
  Instance, Step,
}

pub record Store : Type 0 where
  pub definitions : List Definition
  pub levels : List Level
  pub instances : List Instance
  pub steps : List Step
  pub next_definition_id : ℕ
  pub next_instance_id : ℕ
  pub next_step_id : ℕ

abbrev pub same_type : WorkflowType → WorkflowType → Bool
same_type tariff tariff = true
same_type bill_run bill_run = true
same_type billing_cycle billing_cycle = true
same_type _ _ = false

abbrev pub is_waiting : Instance → Bool
is_waiting i = elim i.status [ waiting_for_approval ↦ true | _ ↦ false ]

abbrev pub is_active_definition : Definition → Bool
is_active_definition d = elim d.status [ active ↦ true | _ ↦ false ]

-- `WHERE workflowType = … AND businessObjectId = …`
abbrev pub is_for : WorkflowType → ℕ → Instance → Bool
is_for w obj i = same_type i.workflow_type w && (i.business_object_id == obj)

-- The same query ordered by descending id.
abbrev pub latest_instance : WorkflowType → ℕ → Store → Option Instance
latest_instance w obj s = find (is_for w obj) s.instances

abbrev pub is_step_at : ℕ → ℕ → Step → Bool
is_step_at iid l st = (st.instance_id == iid) && (st.level_order == l)

-- `levelOrder: currentLevelOrder ?? -1`: no step is at level -1.
abbrev pub step_at : ℕ → Option ℕ → Store → Option Step
step_at iid none s = none
step_at iid (some l) s = find (is_step_at iid l) s.steps

abbrev pub is_of_definition : ℕ → Level → Bool
is_of_definition did l = l.definition_id == did

abbrev pub level_at : ℕ → ℕ → Store → Option Level
level_at did order s = find (λ l. is_of_definition did l && (l.level_order == order)) s.levels

abbrev pub count_levels : ℕ → Store → ℕ
count_levels did s = count_if (is_of_definition did) s.levels

-- `order: { levelOrder: 'ASC' }`
abbrev pub insert_level : Level → List Level → List Level
insert_level l [] = l ∷ []
insert_level l (m ∷ ms) =
    if leb l.level_order m.level_order then l ∷ m ∷ ms else m ∷ insert_level l ms

abbrev pub sort_levels : List Level → List Level
sort_levels [] = []
sort_levels (l ∷ ls) = insert_level l (sort_levels ls)

abbrev pub levels_of : ℕ → Store → List Level
levels_of did s = sort_levels (filter (is_of_definition did) s.levels)

-- The keys of the rows.
abbrev pub instance_key : Instance → ℕ
instance_key i = i.id

abbrev pub step_key : Step → ℕ
step_key x = x.id

unfoldable pub save_instance : Instance → Store → Store
save_instance i s = record s { instances = replace_row instance_key i s.instances }

unfoldable pub save_step : Step → Store → Store
save_step x s = record s { steps = replace_row step_key x s.steps }
