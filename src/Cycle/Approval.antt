-- ===== src/Cycle/Approval.antt =====
-- The approval of a version's final level: at once active if its date has come, and otherwise waiting
-- for the daily job.
use ccb_api.Base.{
  ℕ, ◌≡◌, ◌≢◌, ◌≤◌, ◌<◌, ◌∙◌, sym, ap, Bool, true, ◌||◌, Option, none, some, arith, ◌==◌,
  if◌then◌else◌, is_some, Option-cases, Bool-cases, inl, inr,
}
use mathlib.Core.Path.{subst}
use ccb_api.Base.Result.{Message, text, ok, Result-cases}
use ccb_api.Base.Rows.{find_holds, find-replace_row_key}
use ccb_api.Workflow.Data.{WorkflowType}
use ccb_api.Workflow.Store.{Store}
use ccb_api.Workflow.Engine.{Context, assert_can_act, record_approval, known_actor}
use ccb_api.Cycle.Data.{
  BillingCycleVersion, BillingCycleMaster, State, version_by_id, master_by_id, save_version,
  version_key, day_of, is_pending,
}
use ccb_api.Cycle.Create.{Settings}
use ccb_api.Cycle.Activation.{activate_version, has_arrived, is_due_for_activation}
use ccb_api.Cycle.Review.{
  version_for_review, as_approved, write_approval, approve_version, system_note,
}
use ccb_api.Cycle.Activated.{IsActivated, activate_version-IsActivated}

version_for_review-cases :
    (id : ℕ) (actor : Option ℕ) (action : Message) (st : State) {v : BillingCycleVersion}
    → version_for_review id actor action st ≡ ok v
    → (version_by_id id st ≡ some v) × (is_pending v ≡ true)
unfolding version_for_review
version_for_review-cases id actor action st {v} h = elim (Option-cases (version_by_id id st)) [
  | inl none_ ↦ absurd (ground arith)
  | inr (u, f) ↦ elim (Bool-cases (is_pending u)) [
    | inl p ↦
        let same : u ≡ v = ground arith in
        (subst (λ x. version_by_id id st ≡ some x) same f, subst (λ x. is_pending x ≡ true) same p)
    | inr p ↦ absurd (ground arith)
  ]
]

find_id : (id : ℕ) (st : State) {v : BillingCycleVersion} → version_by_id id st ≡ some v → v.id ≡ id
find_id id st {v} found =
    ground (arith, find_holds (λ (x : BillingCycleVersion). x.id == id) st.versions found)

abbrev with_workflow : Store → State → State
with_workflow w st = record st { workflow = w }

module _ (env : Settings) (id : ℕ) (actor : Option ℕ) (is_system : Bool) (now : ℕ) (st st' : State)
    (ctx : Context)
    (admitted : assert_can_act env.directory WorkflowType.billing_cycle id actor is_system
        st.workflow
      ≡ ok ctx)
    (final : ctx.is_final_level ≡ true)
    (approved : approve_version env id actor is_system now st ≡ ok st') where
  -- The version was pending, and the approval is written.
  approve_version-cases :
      (v : BillingCycleVersion) × (w : Store) × (version_by_id id st ≡ some v)
      × (v.id ≡ id)
      × (is_pending v ≡ true)
      × (st' ≡ record (write_approval v actor (day_of now) st) { workflow = w })
  unfolding approve_version
  approve_version-cases = elim (Result-cases (version_for_review id actor (text "approved") st)) [
    | inr (e, p) ↦ absurd (ground (arith, admitted))
    | inl (v, p) ↦
        let note = if is_system then some system_note else none in
        elim (Result-cases (record_approval ctx actor note now st.workflow)) [
          | inr (e, q) ↦ absurd (ground (arith, admitted, final))
          | inl (w, q) ↦
              let (found, pending) = version_for_review-cases id actor (text "approved") st p in
              (v, w, found, find_id id st found, pending, ground (arith, admitted, final))
        ]
  ]

  -- The approval of a version's final level, once its effective date has come, where its master
  -- exists and it is not its own parent, makes the version ACTIVE and the master's current one, and
  -- leaves the version that it replaces DEPRECATED.
  pub approve_version-IsActivated :
      (v : BillingCycleVersion) (m : BillingCycleMaster)
      → version_by_id id st ≡ some v
      → has_arrived v (day_of now) ≡ true
      → master_by_id v.master_id st ≡ some m
      → ((pid : ℕ) → v.parent_version_id ≡ some pid → pid ≢ v.id)
      → IsActivated v st st'
  approve_version-IsActivated v m stored arrived owned apart =
      let (u, w, found, same_id, pending, written) = approve_version-cases in
      let today = day_of now in
      let given = as_approved actor today v in
      let same : u ≡ v = ground (arith, stored) in
      let active : write_approval v actor today st ≡ activate_version given today st =
        ground (arith, arrived) in
      let a =
        activate_version-IsActivated given today st v m
          (subst (λ k. version_by_id k st ≡ some v) (sym (find_id id st stored)) stored) owned
          apart in
      subst (IsActivated v st)
        (sym (
          subst (λ x. st' ≡ with_workflow w (write_approval x actor today st)) same written
          ∙ ap (with_workflow w) active))
        (record { active = a.active; current = a.current; parent = a.parent })

  due_if_approved :
      (day : ℕ) (v : BillingCycleVersion)
      → is_pending v ≡ true
      → has_arrived v day ≡ true
      → is_due_for_activation day (as_approved actor (day_of now) v)
        ≡ (is_some (known_actor actor) || is_some v.approved_by_id)
  due_if_approved day v waiting come =
      rw (waiting, come)
        (elim (Option-cases (known_actor actor)) [
          | inl e ↦ ground (arith, e)
          | inr (a, e) ↦ ground (arith, e)
        ])

  -- The approval of a version's final level before its effective date leaves it PENDING; from that
  -- date on the daily job selects it exactly if the approval names an actor, or the version had an
  -- approver already.
  pub approve_version-due :
      (v : BillingCycleVersion) (date : ℕ)
      → version_by_id id st ≡ some v
      → v.effective_from ≡ some date
      → day_of now < date
      → (waiting : BillingCycleVersion) × (version_by_id id st' ≡ some waiting)
        × (is_pending waiting ≡ true)
        × ((today : ℕ)
            → date ≤ today
            → is_due_for_activation today waiting
              ≡ (is_some (known_actor actor) || is_some v.approved_by_id))
  approve_version-due v date stored effective later =
      let (u, w, found, same_id, pending, written) = approve_version-cases in
      let today = day_of now in
      let given = as_approved actor today v in
      let same : u ≡ v = ground (arith, stored) in
      let waiting : is_pending v ≡ true = subst (λ x. is_pending x ≡ true) same pending in
      let waits : write_approval v actor today st ≡ save_version given st =
        ground (arith, effective, later) in
      let after : st' ≡ with_workflow w (save_version given st) =
        subst (λ x. st' ≡ with_workflow w (write_approval x actor today st)) same written
        ∙ ap (with_workflow w) waits in
      (
        given,
        subst (λ s. version_by_id id s ≡ some given) (sym after)
            (find-replace_row_key version_key id given st.versions stored (find_id id st stored)),
        waiting,
        λ day reached.
            let come : has_arrived v day ≡ true = ground (arith, effective) in
            due_if_approved day v waiting come,
      )
