-- ===== src/BillRun/Review.antt =====
-- `approve`, `reject` and `returnForCorrection`, each one transaction: the workflow's check, the
-- run's own checks, the change of the run and the workflow's record. The bills of an approved run
-- are generated after the transaction of `approve`.
use ccb_api.Base.{ℕ, Bool, true, false, not, ◌&&◌, Option, none, some, ◌==◌, if◌then◌else◌}
use ccb_api.Base.Result.{
  Message, text, lit, not_found, bad_request, Result, ok, ◌>>=◌, ◌>>◌, throw_if, or_throw,
}
use ccb_api.Base.Rows.{replace_row}
use mathlib.Core.List.{◌∷◌, ◌++◌}
use ccb_api.Workflow.Data.{WorkflowType}
use ccb_api.Workflow.Engine.{Directory, Context, assert_can_act, record_approval, record_rejection}
use ccb_api.BillRun.Data.{BillRunStatus, BillRun, State, is_pending, run_by_id, run_key}
use ccb_api.BillRun.Submit.{run_not_found}

-- An actor that is known and is the submitter; an id of 0 is no actor.
abbrev pub is_self_review : Option ℕ → Option ℕ → Bool
is_self_review (some submitter) (some actor) = not (actor == 0) && (submitter == actor)
is_self_review _ _ = false

-- `assertNotSelfReview` of src/common/utils/versioning.util.ts.
abbrev pub assert_not_self_review : Option ℕ → Option ℕ → Message → Result (Unit {0})
assert_not_self_review submitter actor action = throw_if (is_self_review submitter actor) (
    bad_request (
      lit "This item cannot be "
      ∷ (action ++ text " by the same user who submitted it. Ask another reviewer to action it.")))

-- The pending run under review.
unfoldable pub run_for_review : ℕ → Option ℕ → Message → State → Result BillRun
run_for_review id actor action st = do
  run ← or_throw (run_by_id id st) (not_found run_not_found)
  throw_if (not (is_pending run))
      (bad_request (lit "Only a bill run pending approval can be " ∷ action))
  assert_not_self_review run.submitted_by_id actor action
  ok run

abbrev pub reviewed : Option ℕ → ℕ → Option Message → BillRunStatus → BillRun → BillRun
reviewed actor now notes status run = record run {
  status = status;
  reviewed_by_id = actor;
  reviewed_on = some now;
  review_notes = notes;
}

abbrev pub save_run : BillRun → State → State
save_run run st = record st { runs = replace_row run_key run st.runs }

-- Only the approval of the final level approves the run.
abbrev pub status_after : Context → BillRunStatus → BillRunStatus
status_after ctx status = if ctx.is_final_level then BillRunStatus.approved else status

unfoldable pub approve_transaction :
    Directory → ℕ → Option Message → Option ℕ → Bool → ℕ → State → Result State
unfolding run_for_review
approve_transaction dir id notes actor is_system now st = do
  ctx ← assert_can_act dir WorkflowType.bill_run id actor is_system st.workflow
  run ← run_for_review id actor (text "approved") st
  workflow ← record_approval ctx actor notes now st.workflow
  ok (record (save_run (reviewed actor now notes (status_after ctx run.status) run) st) {
    workflow = workflow;
  })

-- Whether the transaction of `approve` is followed by the generation of the run's bills.
unfoldable pub generates_bills : ℕ → State → Bool
generates_bills id st = elim (run_by_id id st) [
  | none ↦ false
  | some r ↦ elim r.status [ BillRunStatus.approved ↦ true | _ ↦ false ]
]

unfoldable pub approve :
    Directory → ℕ → Option Message → Option ℕ → Bool → ℕ → State → Result (State × Bool)
unfolding approve_transaction generates_bills
approve dir id notes actor is_system now st = do
  after ← approve_transaction dir id notes actor is_system now st
  ok (after, generates_bills id after)

-- `reject` and `returnForCorrection` differ in the word and the status.
unfoldable pub refuse :
    Message → BillRunStatus → Directory → ℕ → Message → Option ℕ → ℕ → State → Result State
unfolding run_for_review
refuse action status dir id notes actor now st = do
  ctx ← assert_can_act dir WorkflowType.bill_run id actor false st.workflow
  run ← run_for_review id actor action st
  ok (record (save_run (reviewed actor now (some notes) status run) st) {
    workflow = record_rejection ctx actor (some notes) now st.workflow;
  })

unfoldable pub reject : Directory → ℕ → Message → Option ℕ → ℕ → State → Result State
unfolding refuse
reject = refuse (text "rejected") BillRunStatus.rejected

unfoldable pub return_for_correction : Directory → ℕ → Message → Option ℕ → ℕ → State → Result State
unfolding refuse
return_for_correction =
    refuse (text "returned for correction") BillRunStatus.returned_for_correction
