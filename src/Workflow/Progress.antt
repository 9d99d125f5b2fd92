-- ===== src/Workflow/Progress.antt =====
-- What an approval or a rejection does to the object's instance: `recordApproval`,
-- `recordRejection` and `recordEscalation` after a successful `assertCanAct`.
use ccb_api.Base.{ℕ, ◌≡◌, refl, ◌≢◌, ◌∙◌, Bool, true, Option, none, some, arith}
use ccb_api.Base.Result.{Message, ok, err, conflict}
use ccb_api.Base.Rows.{IsDescending, find-replace_row_self, find_holds, replace_row-IsDescending}
use ccb_api.Workflow.Data.{WorkflowType, Instance, Step, Level, InstanceStatus, StepAction}
use ccb_api.Workflow.Store.{
  Store, latest_instance, step_at, is_for, is_step_at, instance_key, step_key, save_instance,
  save_step,
}
use ccb_api.Workflow.Engine.{
  Directory, assert_can_act, record_approval, record_rejection, activate_level, already_processed,
  acted, close, is_final,
}
use ccb_api.Workflow.Access.{IsOpen, context_of}

-- The rows of both tables have descending ids, below the next id.
pub record IsStored (s : Store) : Type 0 where
  pub instances : IsDescending instance_key s.next_instance_id s.instances
  pub steps : IsDescending step_key s.next_step_id s.steps

-- An instance that is no longer waiting refuses every call, a system actor's included.
pub assert_can_act-closed :
    (dir : Directory) (w : WorkflowType) (obj : ℕ) (actor : Option ℕ) (is_system : Bool) (s : Store)
    {i : Instance}
    → latest_instance w obj s ≡ some i
    → i.status ≢ InstanceStatus.waiting_for_approval
    → assert_can_act dir w obj actor is_system s ≡ err (conflict already_processed)
unfolding assert_can_act
assert_can_act-closed dir w obj actor is_system s e h = ground arith

module _ (w : WorkflowType) (obj : ℕ) (s : Store) (stored : IsStored s) {i : Instance} where
  pub latest-save_instance :
      (i' : Instance)
      → latest_instance w obj s ≡ some i
      → i'.id ≡ i.id
      → i'.workflow_type ≡ i.workflow_type
      → i'.business_object_id ≡ i.business_object_id
      → latest_instance w obj (save_instance i' s) ≡ some i'
  unfolding save_instance
  latest-save_instance i' e same same_type same_obj =
      find-replace_row_self instance_key (is_for w obj) s.next_instance_id i' s.instances
        stored.instances e same (ground (arith, find_holds (is_for w obj) s.instances e))

pub step_at-save_step :
    (s : Store) (stored : IsStored s) (iid : ℕ) (l : Option ℕ) (x : Step) {st : Step}
    → step_at iid l s ≡ some st
    → x.id ≡ st.id
    → x.instance_id ≡ st.instance_id
    → x.level_order ≡ st.level_order
    → step_at iid l (save_step x s) ≡ some x
unfolding save_step
step_at-save_step s stored iid none x e a b c = cc
step_at-save_step s stored iid (some l) x e a b c =
    find-replace_row_self step_key (is_step_at iid l) s.next_step_id x s.steps stored.steps e a
      (ground (arith, find_holds (is_step_at iid l) s.steps e))

pub step_at-save_instance :
    (iid : ℕ) (l : Option ℕ) (i : Instance) (s : Store)
    → step_at iid l (save_instance i s) ≡ step_at iid l s
unfolding save_instance
step_at-save_instance iid none i s = refl
step_at-save_instance iid (some l) i s = refl

pub save_step-IsStored : (s : Store) (x : Step) → IsStored s → IsStored (save_step x s)
unfolding save_step
save_step-IsStored s x h = record {
  instances = h.instances;
  steps = replace_row-IsDescending step_key s.next_step_id x s.steps h.steps;
}

pub save_instance-IsStored : (s : Store) (i : Instance) → IsStored s → IsStored (save_instance i s)
unfolding save_instance
save_instance-IsStored s i h = record {
  instances = replace_row-IsDescending instance_key s.next_instance_id i s.instances h.instances;
  steps = h.steps;
}

pub activate_level-IsStored :
    (iid : ℕ) (l : Level) (now : ℕ) (s : Store) → IsStored s → IsStored (activate_level iid l now s)
unfolding activate_level
activate_level-IsStored iid l now s h = record {
  instances = h.instances;
  steps = (omega arith, h.steps);
}

-- The journey has ended: the instance has the final status and no current level, and the step that
-- was current carries the action, the actor, the time and the notes.
pub record HasEnded (w : WorkflowType) (obj : ℕ) (i : Instance) (st : Step)
    (status : InstanceStatus) (action : StepAction) (actor : Option ℕ) (notes : Option Message)
    (now : ℕ) (s : Store) : Type 0 where
  pub stored : IsStored s
  pub latest : latest_instance w obj s ≡ some (close status now i)
  pub step : step_at i.id i.current_level_order s ≡ some (acted action actor notes now st)
  pub locked :
      (dir : Directory) (other : Option ℕ) (is_system : Bool)
      → assert_can_act dir w obj other is_system s ≡ err (conflict already_processed)

module _ (w : WorkflowType) (obj : ℕ) (s : Store) {i : Instance} {st : Step} (stored : IsStored s)
    (o : IsOpen w obj s i st) (actor : Option ℕ) (notes : Option Message) (now : ℕ) where
  -- Closing the instance after its step was written.
  pub end_step :
      (status : InstanceStatus) (action : StepAction)
      → status ≢ InstanceStatus.waiting_for_approval
      → HasEnded w obj i st status action actor notes now
          (save_instance (close status now i) (save_step (acted action actor notes now st) s))
  end_step status action ended =
      let x = acted action actor notes now st in
      let s' = save_step x s in
      let stored' = save_step-IsStored s x stored in
      let latest' : latest_instance w obj s' ≡ some i = unfold save_step in o.latest in
      let latest'' =
        latest-save_instance w obj s' stored' (close status now i) latest' refl refl refl in
      record {
        stored = save_instance-IsStored s' (close status now i) stored';
        latest = latest'';
        step =
            step_at-save_instance i.id i.current_level_order (close status now i) s'
            ∙ step_at-save_step s stored i.id i.current_level_order x o.step refl refl refl;
        locked =
            λ dir other is_system. assert_can_act-closed dir w obj other is_system _ latest'' ended;
      }

  -- In tables whose rows have descending ids, the approval of the final level of an object that is
  -- open at a step completes the journey: the call succeeds, the instance is COMPLETED, the step is
  -- APPROVED by the actor, and every later call of any actor, the system included, is refused as
  -- already processed.
  pub record_approval-HasEnded :
      is_final i s ≡ true
      → (s' : Store) × (record_approval (context_of i s) actor notes now s ≡ ok s')
        × HasEnded w obj i st InstanceStatus.completed StepAction.approved actor notes now s'
  unfolding record_approval
  record_approval-HasEnded final =
      (_, rw (o.step, final), end_step InstanceStatus.completed StepAction.approved (cc))

  -- In tables whose rows have descending ids, a rejection of an object that is open at a step, at
  -- any level, ends the journey: the instance is REJECTED, the step is REJECTED by the actor, and
  -- every later call of any actor, the system included, is refused as already processed.
  pub record_rejection-HasEnded :
      HasEnded w obj i st InstanceStatus.rejected StepAction.rejected actor notes now
        (record_rejection (context_of i s) actor notes now s)
  unfolding record_rejection
  record_rejection-HasEnded =
      rw (o.step) (end_step InstanceStatus.rejected StepAction.rejected (cc))
