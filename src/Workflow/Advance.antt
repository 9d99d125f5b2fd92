-- ===== src/Workflow/Advance.antt =====
-- An approval below the final level, or an escalation, moves the instance to the next level.
use ccb_api.Base.{ℕ, ◌+◌, ◌≡◌, refl, ◌≢◌, ◌∙◌, false, Option, none, some, arith, ◌==◌, find}
use mathlib.Core.Path.{subst}
use ccb_api.Base.Result.{Message, ok}
use ccb_api.Base.Rows.{find_holds}
use ccb_api.Workflow.Data.{WorkflowType, Instance, Step, Level, InstanceStatus, StepAction}
use ccb_api.Workflow.Store.{Store, latest_instance, step_at, level_at, save_instance, save_step}
use ccb_api.Workflow.Engine.{
  record_approval, record_escalation, activate_level, add_duration, acted, advance, is_final,
  escalation_note,
}
use ccb_api.Workflow.Access.{IsOpen, context_of}
use ccb_api.Workflow.Progress.{
  IsStored, latest-save_instance, step_at-save_step, save_step-IsStored, save_instance-IsStored,
  activate_level-IsStored,
}

-- The instance with its current level moved.
abbrev pub moved : Instance → Level → Instance
moved i next = record i { current_level_order = some next.level_order }

-- The object is open at the level `next`: its newest instance waits there, at a step that has the
-- level's role, is due after the level's SLA and was neither acted on nor breached; the step that
-- was current carries the action; and the definitions are what they were.
pub record HasAdvanced (w : WorkflowType) (obj : ℕ) (i : Instance) (l : ℕ) (old : Step)
    (next : Level) (now : ℕ) (before after : Store) : Type 0 where
  pub stored : IsStored after
  pub step : Step
  pub open_ : IsOpen w obj after (moved i next) step
  pub role : step.role_id ≡ next.role_id
  pub due : step.sla_due_at ≡ some (add_duration now next.sla_value next.sla_unit)
  pub unbreached : step.sla_breached_at ≡ none
  pub past : step_at i.id (some l) after ≡ some old
  pub same_levels : after.levels ≡ before.levels
  pub same_definitions : after.definitions ≡ before.definitions

-- The step that `activateLevel` creates.
abbrev pub activated : ℕ → Level → ℕ → Store → Step
activated iid l now s = record {
  id = s.next_step_id;
  instance_id = iid;
  level_order = l.level_order;
  role_id = l.role_id;
  sla_value = l.sla_value;
  sla_unit = l.sla_unit;
  activated_at = now;
  sla_due_at = some (add_duration now l.sla_value l.sla_unit);
  sla_breached_at = none;
  acted_by_id = none;
  action = none;
  acted_at = none;
  notes = none;
}

pub newest-step_at :
    (iid : ℕ) (l : Level) (now : ℕ) (s : Store)
    → step_at iid (some l.level_order) (activate_level iid l now s) ≡ some (activated iid l now s)
unfolding activate_level
newest-step_at iid l now s = ground arith

pub level_at_order :
    (did order : ℕ) (s : Store) {l : Level} → level_at did order s ≡ some l → l.level_order ≡ order
level_at_order did order s e = ground (arith, find_holds _ s.levels e)

pub latest-activate_level :
    (w : WorkflowType) (obj iid : ℕ) (l : Level) (now : ℕ) (s : Store)
    → latest_instance w obj (activate_level iid l now s) ≡ latest_instance w obj s
unfolding activate_level
latest-activate_level w obj iid l now s = refl

pub latest-save_step :
    (w : WorkflowType) (obj : ℕ) (x : Step) (s : Store)
    → latest_instance w obj (save_step x s) ≡ latest_instance w obj s
unfolding save_step
latest-save_step w obj x s = refl

pub step_at-activate_level_ne :
    (iid l : ℕ) (next : Level) (now : ℕ) (s : Store)
    → next.level_order ≢ l
    → step_at iid (some l) (activate_level iid next now s) ≡ step_at iid (some l) s
unfolding activate_level
step_at-activate_level_ne iid l next now s h = ground arith

module _ (w : WorkflowType) (obj : ℕ) (s : Store) {i : Instance} {st : Step} (stored : IsStored s)
    (latest : latest_instance w obj s ≡ some i)
    (waiting : i.status ≡ InstanceStatus.waiting_for_approval) (l : ℕ)
    (step : step_at i.id (some l) s ≡ some st) (next : Level) (later : next.level_order ≢ l)
    (now : ℕ) where
  pub advance-HasAdvanced :
      (x : Step)
      → x.id ≡ st.id
      → x.instance_id ≡ st.instance_id
      → x.level_order ≡ st.level_order
      → HasAdvanced w obj i l x next now s (advance i next now (save_step x s))
  unfolding save_instance save_step activate_level
  advance-HasAdvanced x same_id same_instance same_level =
      let s' = save_step x s in
      let stored' = save_step-IsStored s x stored in
      let s'' = save_instance (moved i next) s' in
      let stored'' = save_instance-IsStored s' (moved i next) stored' in
      record {
        stored = activate_level-IsStored i.id next now s'' stored'';
        step = activated i.id next now s'';
        open_ = record {
          latest = latest-save_instance w obj s' stored' (moved i next) latest refl refl refl;
          waiting = waiting;
          step = newest-step_at i.id next now s'';
          unacted = refl;
        };
        role = refl;
        due = refl;
        unbreached = refl;
        past =
            step_at-activate_level_ne i.id l next now s'' later
            ∙ step_at-save_step s stored i.id (some l) x step same_id same_instance same_level;
        same_levels = refl;
        same_definitions = refl;
      }

pub current-step_at :
    (i : Instance) (l : ℕ) (s : Store) {st : Step}
    → i.current_level_order ≡ some l
    → step_at i.id i.current_level_order s ≡ some st
    → step_at i.id (some l) s ≡ some st
current-step_at i l s {st} at_l e = subst (λ c. step_at i.id c s ≡ some st) at_l e

-- In tables whose rows have descending ids, the approval of an object that is open at a level below
-- the final one succeeds if the next level is configured: the instance keeps waiting, now at the
-- next level, whose step is open, has that level's role and is due after its SLA; the step approved
-- carries the actor, the time and the notes; and the workflow definitions are untouched.
pub record_approval-HasAdvanced :
    (w : WorkflowType) (obj : ℕ) (s : Store) (i : Instance) (st : Step)
    → IsStored s
    → IsOpen w obj s i st
    → (l : ℕ) → i.current_level_order ≡ some l
    → is_final i s ≡ false
    → (next : Level) → level_at i.definition_id (l + 1) s ≡ some next
    → (actor : Option ℕ) (notes : Option Message) (now : ℕ)
    → (s' : Store) × (record_approval (context_of i s) actor notes now s ≡ ok s')
      × HasAdvanced w obj i l (acted StepAction.approved actor notes now st) next now s s'
unfolding record_approval
record_approval-HasAdvanced w obj s i st stored o l at_l inner next configured actor notes now =
    let x = acted StepAction.approved actor notes now st in
    let step = current-step_at i l s at_l o.step in
    let configured' : level_at i.definition_id (l + 1) (save_step x s) ≡ some next =
      unfold save_step in configured in
    let later : next.level_order ≢ l =
      omega (arith, level_at_order i.definition_id (l + 1) s configured) in
    (
      advance i next now (save_step x s),
      rw (o.step, inner, at_l, configured'),
      advance-HasAdvanced w obj s stored o.latest o.waiting l step next later now x refl refl refl,
    )

-- In tables whose rows have descending ids, an escalation of the open step of an object's newest,
-- waiting instance, at its current level, succeeds if the next level is configured: the step is
-- closed as ESCALATED by no user, never as APPROVED, and the instance keeps waiting, now at the
-- next level, exactly as after an approval.
pub record_escalation-HasAdvanced :
    (w : WorkflowType) (obj : ℕ) (s : Store) (i : Instance) (st : Step)
    → IsStored s
    → IsOpen w obj s i st
    → find (λ j. j.id == st.instance_id) s.instances ≡ some i
    → i.current_level_order ≡ some st.level_order
    → (next : Level) → level_at i.definition_id (st.level_order + 1) s ≡ some next
    → (now : ℕ)
    → (s' : Store) × (record_escalation st now s ≡ ok s')
      × HasAdvanced w obj i st.level_order
          (acted StepAction.escalated none (some (escalation_note st.level_order)) now st)
          next
          now
          s
          s'
unfolding record_escalation
record_escalation-HasAdvanced w obj s i st stored o owner at_l next configured now =
    let x = acted StepAction.escalated none (some (escalation_note st.level_order)) now st in
    let step = current-step_at i st.level_order s at_l o.step in
    let later : next.level_order ≢ st.level_order =
      omega (arith, level_at_order i.definition_id (st.level_order + 1) s configured) in
    (
      advance i next now (save_step x s),
      rw (owner, configured),
      advance-HasAdvanced w obj s stored o.latest o.waiting st.level_order step next later now x
          refl refl refl,
    )
