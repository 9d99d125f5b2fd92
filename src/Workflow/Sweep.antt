-- ===== src/Workflow/Sweep.antt =====
-- The whole sweep, `processBreachedSteps`, where no level approves by itself.
use ccb_api.Base.{
  ℕ, ◌+◌, ◌≡◌, refl, ◌≢◌, ◌∙◌, sym, Bool, Option, none, some, List, [], ◌∷◌, arith, find, All,
  Option-cases, Bool-cases, inl, inr, is_some,
}
use mathlib.Core.Path.{subst}
use ccb_api.Workflow.Data.{OnBreach, Level, Instance, Step}
use ccb_api.Workflow.Store.{Store, save_step, save_instance, level_at, is_waiting}
use ccb_api.Workflow.Engine.{record_escalation, activate_level}
use ccb_api.Workflow.Progress.{
  IsStored, save_step-IsStored, save_instance-IsStored, activate_level-IsStored,
}
use ccb_api.Workflow.Sla.{
  Handlers, breach_one_step, react, escalate, or_keep, on_breach_of, step_by_id, instance_by_id,
  sweep, sweep_one, load_due, process_breached_steps,
}
use ccb_api.Workflow.Breach.{statuses, breach_one_step-IsFlagged, OnBreach-cases, flag_breach-cases}

-- No level of any definition is configured to approve by itself.
abbrev pub IsManual : List Level → Type 0
IsManual = All (λ l. l.on_breach ≢ OnBreach.auto_approve)

find-manual :
    (p : Level → Bool) (ls : List Level) {l : Level}
    → IsManual ls
    → find p ls ≡ some l
    → l.on_breach ≢ OnBreach.auto_approve
find-manual p [] h e = cc
find-manual p (x ∷ ls) {l} h e = elim (Bool-cases (p x)) [
  | inl here ↦ ground (arith, h.0)
  | inr there ↦ find-manual p ls {l = l} h.1 (ground arith)
]

on_breach-manual :
    (i : Instance) (st : Step) (s : Store)
    → IsManual s.levels
    → on_breach_of i st s ≢ OnBreach.auto_approve
on_breach-manual i st s h = elim (Option-cases (level_at i.definition_id st.level_order s)) [
  | inl e ↦ rw e (cc)
  | inr (l, e) ↦ rw e (find-manual _ s.levels h e)
]

-- A state that the sweep may go on from.
record IsNext (before after : Store) : Type 0 where
  stored : IsStored after
  levels : after.levels ≡ before.levels

record_escalation-IsNext :
    (x : Step) (now : ℕ) (s : Store) → IsStored s → IsNext s (or_keep (record_escalation x now s) s)
unfolding record_escalation
record_escalation-IsNext x now s stored = elim (Option-cases (instance_by_id x.instance_id s)) [
  | inl e ↦ rw (e, record_escalation) (record { stored = stored; levels = refl })
  | inr (i, e) ↦ elim (Option-cases (level_at i.definition_id (x.level_order + 1) s)) [
    | inl e' ↦ rw (e, e', record_escalation) (record { stored = stored; levels = refl })
    | inr (next, e') ↦
        rw (e, e', record_escalation)
          (record {
            stored =
                activate_level-IsStored i.id next now _
                  (save_instance-IsStored _ _ (save_step-IsStored s _ stored));
            levels = unfold activate_level save_instance save_step in refl;
          })
  ]
]

react-IsNext :
    (handlers : Handlers) (i : Instance) (st : Step) (now : ℕ) (s : Store)
    → IsStored s
    → on_breach_of i st s ≢ OnBreach.auto_approve
    → IsNext s (react handlers i st now s)
unfolding react escalate
react-IsNext handlers i st now s stored manual = elim (OnBreach-cases (on_breach_of i st s)) [
  | inl auto ↦ absurd (manual auto)
  | inr (inr mail) ↦ rw (mail, react) (record { stored = stored; levels = refl })
  | inr (inl up) ↦
      rw (up, react)
        (elim (Option-cases (step_by_id st.id s)) [
          | inl e ↦ rw (e, escalate) (record { stored = stored; levels = refl })
          | inr (x, e) ↦ elim (Bool-cases (is_some x.action)) [
            | inl done ↦ rw (e, done, escalate) (record { stored = stored; levels = refl })
            | inr open_ ↦ rw (e, open_, escalate) (record_escalation-IsNext x now s stored)
          ]
        ])
]

breach_one_step-IsNext :
    (handlers : Handlers) (i : Instance) (st : Step) (now : ℕ) (s : Store)
    → IsStored s
    → IsManual s.levels
    → IsNext s (breach_one_step handlers i st now s).0
unfolding breach_one_step
breach_one_step-IsNext handlers i st now s stored manual = elim (flag_breach-cases st now s) [
  | inl (touched, e) ↦ rw e (record { stored = stored; levels = refl })
  | inr (x, e, clean, unacted, flagged) ↦
      let s1 = save_step (record x { sla_breached_at = some now }) s in
      let st1 = save_step-IsStored s (record x { sla_breached_at = some now }) stored in
      let same : s1.levels ≡ s.levels = unfold save_step in refl in
      let next =
        react-IsNext handlers i st now s1 st1
          (on_breach-manual i st s1 (subst IsManual (sym same) manual)) in
      rw flagged (record { stored = next.stored; levels = next.levels ∙ same })
]

-- The state that a round leads to, and what it keeps.
record IsQuiet (before after : Store) : Type 0 where
  next : IsNext before after
  kept : statuses after ≡ statuses before

sweep_one-IsQuiet :
    (handlers : Handlers) (now : ℕ) (due : Step × Option Instance) (s : Store) (n : ℕ)
    → IsStored s
    → IsManual s.levels
    → IsQuiet s (sweep_one handlers now due (s, n)).0
sweep_one-IsQuiet handlers now (st, none) s n stored manual = record {
  next = record { stored = stored; levels = refl };
  kept = refl;
}
sweep_one-IsQuiet handlers now (st, some i) s n stored manual = elim (Bool-cases (is_waiting i)) [
  | inr closed ↦
      rw closed (record { next = record { stored = stored; levels = refl }; kept = refl })
  | inl open_ ↦ rw open_ (record {
    next = breach_one_step-IsNext handlers i st now s stored manual;
    kept =
        (breach_one_step-IsFlagged handlers i st now s stored (on_breach-manual i st s manual)).0;
  })
]

sweep-IsQuiet :
    (handlers : Handlers) (now : ℕ) (due : List (Step × Option Instance)) (s : Store) (n : ℕ)
    → IsStored s
    → IsManual s.levels
    → IsQuiet s (sweep handlers now due (s, n)).0
unfolding sweep
sweep-IsQuiet handlers now [] s n stored manual = record {
  next = record { stored = stored; levels = refl };
  kept = refl;
}
sweep-IsQuiet handlers now (x ∷ xs) s n stored manual =
    let one = sweep_one-IsQuiet handlers now x s n stored manual in
    let after = sweep_one handlers now x (s, n) in
    let rest =
      sweep-IsQuiet handlers now xs after.0 after.1 one.next.stored
        (subst IsManual (sym one.next.levels) manual) in
    record {
      next = record { stored = rest.next.stored; levels = rest.next.levels ∙ one.next.levels };
      kept = rest.kept ∙ one.kept;
    }

-- Where no level is configured to approve by itself, in tables whose rows have descending ids, a
-- whole sweep changes the status of no instance, whatever steps are due: it completes, rejects and
-- cancels nothing.
pub process_breached_steps-statuses :
    (handlers : Handlers) (now : ℕ) (s : Store)
    → IsStored s
    → IsManual s.levels
    → statuses (process_breached_steps handlers now s).0 ≡ statuses s
unfolding process_breached_steps
process_breached_steps-statuses handlers now s stored manual =
    (sweep-IsQuiet handlers now (load_due now s s.steps) s 0 stored manual).kept
