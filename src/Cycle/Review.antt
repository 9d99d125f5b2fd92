-- ===== src/Cycle/Review.antt =====
-- `approve`, `reject` and `resubmit`, under the engine's check.
use ccb_api.Base.{ℕ, Bool, false, not, Option, none, some, ◌∷◌, if◌then◌else◌}
use ccb_api.Base.Result.{
  Message, text, lit, not_found, bad_request, Result, ok, ◌>>=◌, ◌>>◌, throw_if, or_throw,
}
use ccb_api.Workflow.Data.{WorkflowType}
use ccb_api.Workflow.Engine.{assert_can_act, record_approval, record_rejection, known_actor}
use ccb_api.BillRun.Review.{assert_not_self_review}
use ccb_api.Cycle.Data.{
  BillingCycleStatus, BillingCycleVersion, State, version_by_id, save_version, day_of, is_pending,
  is_rejected,
}
use ccb_api.Cycle.Create.{Settings, cycle_not_found, start_workflow}
use ccb_api.Cycle.Activation.{activate_version, has_arrived}

-- The pending version under review.
unfoldable pub version_for_review : ℕ → Option ℕ → Message → State → Result BillingCycleVersion
version_for_review id actor action st = do
  v ← or_throw (version_by_id id st) (not_found cycle_not_found)
  throw_if (not (is_pending v))
      (bad_request (lit "Only a pending billing cycle version can be " ∷ action))
  assert_not_self_review v.submitted_by_id actor action
  ok v

-- The approver and the date; the system leaves the approver as it is.
abbrev pub as_approved : Option ℕ → ℕ → BillingCycleVersion → BillingCycleVersion
as_approved actor today v = record v {
  approved_by_id = elim (known_actor actor) [ none ↦ v.approved_by_id | some a ↦ some a ];
  approval_date = some today;
}

-- The approval of the final level: the version becomes active if its date has come.
abbrev pub write_approval : BillingCycleVersion → Option ℕ → ℕ → State → State
write_approval v actor today st =
    let approved = as_approved actor today v in
    if has_arrived v today then activate_version approved today st else save_version approved st

abbrev pub system_note : Message
system_note = text "Auto-approved by system — SLA breach, no human action taken on this level."

unfoldable pub approve_version : Settings → ℕ → Option ℕ → Bool → ℕ → State → Result State
approve_version env id actor is_system now st = do
  ctx ← assert_can_act env.directory WorkflowType.billing_cycle id actor is_system st.workflow
  v ← version_for_review id actor (text "approved") st
  let after = if ctx.is_final_level then write_approval v actor (day_of now) st else st
  w ← record_approval ctx actor (if is_system then some system_note else none) now st.workflow
  ok (record after { workflow = w })

abbrev pub as_rejected : Message → Option ℕ → ℕ → BillingCycleVersion → BillingCycleVersion
as_rejected notes actor today v = record (as_approved actor today v) {
  status = BillingCycleStatus.rejected;
  rejection_notes = some notes;
}

unfoldable pub reject_version : Settings → ℕ → Message → Option ℕ → ℕ → State → Result State
reject_version env id notes actor now st = do
  ctx ← assert_can_act env.directory WorkflowType.billing_cycle id actor false st.workflow
  v ← version_for_review id actor (text "rejected") st
  ok (record (save_version (as_rejected notes actor (day_of now) v) st) {
    workflow = record_rejection ctx actor (some notes) now st.workflow;
  })

abbrev pub as_resubmitted : Option ℕ → ℕ → BillingCycleVersion → BillingCycleVersion
as_resubmitted actor today v = record v {
  status = BillingCycleStatus.pending;
  rejection_notes = none;
  approved_by_id = none;
  approval_date = none;
  submitted_by_id = elim (known_actor actor) [ none ↦ v.submitted_by_id | some a ↦ some a ];
  submitted_on = some today;
}

unfoldable pub resubmit_version : ℕ → Option ℕ → ℕ → State → Result State
resubmit_version id actor now st = do
  v ← or_throw (version_by_id id st) (not_found cycle_not_found)
  throw_if (not (is_rejected v))
      (bad_request (text "Only a rejected billing cycle version can be resubmitted"))
  ok (start_workflow id actor now (save_version (as_resubmitted actor (day_of now) v) st))
