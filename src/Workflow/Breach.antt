-- ===== src/Workflow/Breach.antt =====
-- What the SLA sweep may do to a step and to the instances.
use ccb_api.Base.{
  ℕ, ◌+◌, ◌≡◌, refl, ◌≢◌, ◌⊎◌, ◌∙◌, sym, ◌<◌, inl, inr, true, false, none, some, List, [], ◌∷◌, map,
  arith, find, ◌==◌, Option-cases, is_some, Bool-cases, ◌||◌,
}
use mathlib.Core.Path.{subst}
use ccb_api.Base.Rows.{replace_row, find-replace_row_self, find_holds, find_bound}
use ccb_api.Workflow.Data.{OnBreach, Instance, Step, StepAction, InstanceStatus}
use ccb_api.Workflow.Store.{Store, save_step, save_instance, step_key, instance_key, level_at}
use ccb_api.Workflow.Engine.{record_escalation, acted, activate_level, escalation_note}
use ccb_api.Workflow.Progress.{IsStored, save_step-IsStored}
use ccb_api.Workflow.Sla.{
  Handlers, step_by_id, instance_by_id, flag_breach, or_keep, escalate, react, on_breach_of,
  breach_one_step,
}

pub OnBreach-cases :
    (b : OnBreach) → (b ≡ OnBreach.auto_approve) ⊎ ((b ≡ OnBreach.escalate) ⊎ (b ≡ OnBreach.notify))
OnBreach-cases OnBreach.auto_approve = inl refl
OnBreach-cases OnBreach.escalate = inr (inl refl)
OnBreach-cases OnBreach.notify = inr (inr refl)

abbrev pub status_of : Instance → ℕ × InstanceStatus
status_of i = (i.id, i.status)

-- The id and the status of each instance.
abbrev pub statuses : Store → List (ℕ × InstanceStatus)
statuses s = map status_of s.instances

statuses-replace_row :
    (i' : Instance) (rows : List Instance) {i : Instance}
    → find (λ j. j.id == i'.id) rows ≡ some i
    → i'.status ≡ i.status
    → map status_of (replace_row instance_key i' rows) ≡ map status_of rows
statuses-replace_row i' [] e h = refl
statuses-replace_row i' (r ∷ rows) {i} e h = ground (arith, statuses-replace_row i' rows {i = i})

-- An escalation changes no instance's status.
record_escalation-statuses :
    (st : Step) (now : ℕ) (s : Store)
    → statuses (or_keep (record_escalation st now s) s) ≡ statuses s
unfolding record_escalation save_instance save_step activate_level
record_escalation-statuses st now s = elim (Option-cases (instance_by_id st.instance_id s)) [
  | inl e ↦ rw (e, record_escalation)
  | inr (i, e) ↦ elim (Option-cases (level_at i.definition_id (st.level_order + 1) s)) [
    | inl e' ↦ ground arith
    | inr (next, e') ↦ ground (
      arith,
      find_holds (λ j. j.id == st.instance_id) s.instances e,
      statuses-replace_row (record i { current_level_order = some next.level_order }) s.instances
          {i = i},
    )
  ]
]

step_by_id-save_step :
    (s : Store) (stored : IsStored s) (x : Step) {old : Step}
    → step_by_id x.id s ≡ some old
    → step_by_id x.id (save_step x s) ≡ some x
unfolding save_step
step_by_id-save_step s stored x e =
    let same = find_holds (λ y. y.id == x.id) s.steps e in
    find-replace_row_self step_key (λ y. y.id == x.id) s.next_step_id x s.steps stored.steps e
      (ground (arith, same)) (ground arith)

-- The breached step stays flagged, and its action is what it was or ESCALATED.
abbrev pub IsFlagged : ℕ → ℕ → Store → Type 0
IsFlagged id now s =
    (y : Step) × (step_by_id id s ≡ some y)
    × (y.sla_breached_at ≡ some now)
    × ((y.action ≡ none) ⊎ (y.action ≡ some StepAction.escalated))

record_escalation-IsFlagged :
    (s : Store) (stored : IsStored s) (id : ℕ) (x : Step) (now : ℕ)
    → step_by_id id s ≡ some x
    → x.sla_breached_at ≡ some now
    → x.action ≡ none
    → IsFlagged id now (or_keep (record_escalation x now s) s)
unfolding record_escalation save_instance activate_level
record_escalation-IsFlagged s stored id x now e flagged unacted =
    elim (Option-cases (instance_by_id x.instance_id s)) [
      | inl e1 ↦ (x, ground arith, flagged, inl unacted)
      | inr (i, e1) ↦ elim (Option-cases (level_at i.definition_id (x.level_order + 1) s)) [
        | inl e2 ↦ (x, ground arith, flagged, inl unacted)
        | inr (next, e2) ↦
            let y = acted StepAction.escalated none (some (escalation_note x.level_order)) now x in
            let same : x.id ≡ id = ground (arith, find_holds (λ z. z.id == id) s.steps e) in
            let bound : id < s.next_step_id = omega (
              arith,
              find_bound step_key (λ z. z.id == id) s.next_step_id s.steps stored.steps e,
              same,
            ) in
            let saved =
              step_by_id-save_step s stored y (subst (λ k. step_by_id k s ≡ some x) (sym same) e) in
            (y, ground (arith, saved, bound, same), flagged, inr refl)
      ]
    ]

-- The step is in the table, unflagged and not acted on.
abbrev pub IsUntouched : ℕ → Store → Type 0
IsUntouched id s =
    (x : Step) × (step_by_id id s ≡ some x) × (x.sla_breached_at ≡ none) × (x.action ≡ none)

-- Flagging succeeds exactly for an untouched step.
pub flag_breach-cases :
    (st : Step) (now : ℕ) (s : Store)
    → ((¬ IsUntouched st.id s) × (flag_breach st now s ≡ (s, false)))
      ⊎ ((x : Step) × (step_by_id st.id s ≡ some x)
          × (x.sla_breached_at ≡ none)
          × (x.action ≡ none)
          × (flag_breach st now s ≡ (save_step (record x { sla_breached_at = some now }) s, true)))
unfolding flag_breach
flag_breach-cases st now s = elim (Option-cases (step_by_id st.id s)) [
  | inl e ↦ inl ((λ (x, there, clean, unacted). ground (arith, e, there)), ground arith)
  | inr (x, e) ↦ elim (Bool-cases (is_some x.sla_breached_at || is_some x.action)) [
    | inl b ↦ inl ((λ (y, there, clean, unacted). ground (arith, e, there, b)), ground arith)
    | inr b ↦ inr (x, e, ground arith, ground arith, ground arith)
  ]
]

flagged-IsFlagged :
    (s : Store) (stored : IsStored s) (id : ℕ) (x : Step) (now : ℕ)
    → step_by_id id s ≡ some x
    → x.sla_breached_at ≡ none
    → x.action ≡ none
    → let x' = record x { sla_breached_at = some now } in
      (x.id ≡ id) × (step_by_id id (save_step x' s) ≡ some x')
flagged-IsFlagged s stored id x now e clean unacted =
    let same : x.id ≡ id = ground (arith, find_holds (λ z. z.id == id) s.steps e) in
    (
      same,
      subst
          (λ k.
            step_by_id k (save_step (record x { sla_breached_at = some now }) s)
            ≡ some (record x { sla_breached_at = some now }))
          same
          (step_by_id-save_step s stored (record x { sla_breached_at = some now })
            (subst (λ k. step_by_id k s ≡ some x) (sym same) e)),
    )

escalate-open :
    (st : Step) (now : ℕ) (s : Store) (x : Step)
    → step_by_id st.id s ≡ some x
    → x.action ≡ none
    → escalate st now s ≡ or_keep (record_escalation x now s) s
unfolding escalate
escalate-open st now s x e unacted = ground arith

-- The reaction of a level that does not approve by itself.
react_manual :
    (handlers : Handlers) (i : Instance) (st : Step) (now : ℕ) (s : Store)
    → IsStored s
    → (x : Step) → step_by_id st.id s ≡ some x
    → x.sla_breached_at ≡ some now
    → x.action ≡ none
    → on_breach_of i st s ≢ OnBreach.auto_approve
    → (statuses (react handlers i st now s) ≡ statuses s)
      × IsFlagged st.id now (react handlers i st now s)
unfolding react
react_manual handlers i st now s stored x e flagged unacted manual =
    elim (OnBreach-cases (on_breach_of i st s)) [
      | inl auto ↦ absurd (manual auto)
      | inr (inl up) ↦
          rw (up, react)
            (rw (escalate-open st now s x e unacted) (
              record_escalation-statuses x now s,
              record_escalation-IsFlagged s stored st.id x now e flagged unacted,
            ))
      | inr (inr mail) ↦ rw (mail, react) (refl, (x, e, flagged, inl unacted))
    ]

-- In tables whose rows have descending ids, processing one due step, where its level is not
-- configured to approve by itself, changes no instance's status; if the step is in the table,
-- neither flagged nor acted on, it is counted, flagged at this time and left open or closed as
-- ESCALATED; if it is not, nothing changes and it is not counted.
pub breach_one_step-IsFlagged :
    (handlers : Handlers) (i : Instance) (st : Step) (now : ℕ) (s : Store)
    → IsStored s
    → on_breach_of i st s ≢ OnBreach.auto_approve
    → let (s', counted) = breach_one_step handlers i st now s in
      (statuses s' ≡ statuses s)
      × (((¬ IsUntouched st.id s) × (counted ≡ false) × (s' ≡ s))
          ⊎ (IsUntouched st.id s × (counted ≡ true) × IsFlagged st.id now s'))
unfolding breach_one_step
breach_one_step-IsFlagged handlers i st now s stored manual = elim (flag_breach-cases st now s) [
  | inl (touched, e) ↦ rw e (refl, inl (touched, refl, refl))
  | inr (x, e, clean, unacted, flagged) ↦
      let x' = record x { sla_breached_at = some now } in
      let s1 = save_step x' s in
      let (same, e1) = flagged-IsFlagged s stored st.id x now e clean unacted in
      let st1 = save_step-IsStored s x' stored in
      let manual' : on_breach_of i st s1 ≢ OnBreach.auto_approve = unfold save_step in manual in
      let kept : statuses s1 ≡ statuses s = unfold save_step in refl in
      let (decided, outcome) = react_manual handlers i st now s1 st1 x' e1 refl unacted manual' in
      rw flagged (decided ∙ kept, inr ((x, e, clean, unacted), refl, outcome))
]
