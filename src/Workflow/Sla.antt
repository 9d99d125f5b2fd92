-- ===== src/Workflow/Sla.antt =====
-- src/modules/workflow/workflow-sla-scheduler.service.ts. The notices are e-mails and change no state.
-- A handler stands for the domain service's `approve` that AUTO_APPROVE calls.
use ccb_api.Base.{
  ℕ, suc, Bool, true, false, ◌&&◌, ◌||◌, Option, none, some, List, [], ◌∷◌, leb, ◌==◌,
  if◌then◌else◌, is_none, is_some, get_or_else, any, find,
}
use ccb_api.Base.Result.{Result, ok, err}
use mathlib.Core.Option
use ccb_api.Workflow.Data.{WorkflowType, OnBreach, Instance, Step}
use ccb_api.Workflow.Store.{Store, is_waiting, level_at, save_step}
use ccb_api.Workflow.Engine.{Directory, record_escalation}

-- The registered AUTO_APPROVE handlers: a business object and the time to the new state.
abbrev pub Handlers : Type 0
Handlers = WorkflowType → Option (ℕ → ℕ → Store → Result Store)

abbrev pub step_by_id : ℕ → Store → Option Step
step_by_id id s = find (λ x. x.id == id) s.steps

abbrev pub instance_by_id : ℕ → Store → Option Instance
instance_by_id id s = find (λ i. i.id == id) s.instances

abbrev pub is_overdue : ℕ → Step → Bool
is_overdue now st = elim st.sla_due_at [ none ↦ false | some due ↦ leb due now ]

abbrev pub is_due : ℕ → Step → Bool
is_due now st = is_overdue now st && (is_none st.sla_breached_at && is_none st.action)

-- `flagBreach`: the row is read again under its lock.
unfoldable pub flag_breach : Step → ℕ → Store → Store × Bool
flag_breach st now s = elim (step_by_id st.id s) [
  | none ↦ (s, false)
  | some locked ↦
      if is_some locked.sla_breached_at || is_some locked.action
      then (s, false)
      else (save_step (record locked { sla_breached_at = some now }) s, true)
]

-- The state after a call, or the state before it where the call throws and is only logged.
abbrev pub or_keep : Result Store → Store → Store
or_keep (ok s') s = s'
or_keep (err e) s = s

unfoldable pub escalate : Step → ℕ → Store → Store
escalate st now s = elim (step_by_id st.id s) [
  | none ↦ s
  | some locked ↦ if is_some locked.action then s else or_keep (record_escalation locked now s) s
]

unfoldable pub auto_approve : Handlers → Instance → ℕ → Store → Store
auto_approve handlers i now s = elim (handlers i.workflow_type) [
  | none ↦ s
  | some handler ↦ or_keep (handler i.business_object_id now s) s
]

abbrev pub on_breach_of : Instance → Step → Store → OnBreach
on_breach_of i st s =
    get_or_else (Option.map (λ l. l.on_breach) (level_at i.definition_id st.level_order s))
      OnBreach.notify

-- The configured reaction to a breach.
unfoldable pub react : Handlers → Instance → Step → ℕ → Store → Store
react handlers i st now s = elim (on_breach_of i st s) [
  | OnBreach.auto_approve ↦ auto_approve handlers i now s
  | OnBreach.escalate ↦ escalate st now s
  | OnBreach.notify ↦ s
]

abbrev pub react_if : Handlers → Instance → Step → ℕ → Store × Bool → Store × Bool
react_if handlers i st now (s, false) = (s, false)
react_if handlers i st now (s, true) = (react handlers i st now s, true)

unfoldable pub breach_one_step : Handlers → Instance → Step → ℕ → Store → Store × Bool
unfolding flag_breach react escalate auto_approve
breach_one_step handlers i st now s = react_if handlers i st now (flag_breach st now s)

abbrev pub bump : Bool → ℕ → ℕ
bump true n = suc n
bump false n = n

-- One round of the loop, with the instance that was loaded beside the step.
abbrev pub sweep_one : Handlers → ℕ → Step × Option Instance → Store × ℕ → Store × ℕ
sweep_one handlers now (st, none) (s, n) = (s, n)
sweep_one handlers now (st, some i) (s, n) =
    if is_waiting i
    then (let (s', breached) = breach_one_step handlers i st now s in (s', bump breached n))
    else (s, n)

unfoldable pub sweep : Handlers → ℕ → List (Step × Option Instance) → Store × ℕ → Store × ℕ
unfolding breach_one_step
sweep handlers now [] acc = acc
sweep handlers now (x ∷ xs) acc = sweep handlers now xs (sweep_one handlers now x acc)

-- The due steps with their instances, as one query loads them; their order is the table's.
abbrev pub load_due : ℕ → Store → List Step → List (Step × Option Instance)
load_due now s [] = []
load_due now s (st ∷ rest) =
    if is_due now st
    then (st, instance_by_id st.instance_id s) ∷ load_due now s rest
    else load_due now s rest

unfoldable pub process_breached_steps : Handlers → ℕ → Store → Store × ℕ
unfolding sweep
process_breached_steps handlers now s = sweep handlers now (load_due now s s.steps) (s, 0)

-- `eligibleApproverIds`: the holders of the role without the submitter and the super admins.
unfoldable pub eligible_approver_ids : Directory → Instance → List ℕ → List ℕ
eligible_approver_ids dir i [] = []
eligible_approver_ids dir i (u ∷ us) =
    let rest = eligible_approver_ids dir i us in
    if (get_or_else (Option.map (λ sub. u == sub) i.submitted_by_id) false)
      || any dir.is_super_admin (dir.role_ids u)
    then rest
    else u ∷ rest
