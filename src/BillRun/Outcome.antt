-- ===== src/BillRun/Outcome.antt =====
-- What a review that succeeds has checked and what it has done.
use ccb_api.Base.{ℕ, ◌≡◌, Bool, false, Option, some, arith, Option-cases, inl, inr}
use ccb_api.Base.Result.{Message, text, ok, Result-cases}
use ccb_api.Workflow.Data.{WorkflowType}
use ccb_api.Workflow.Store.{Store}
use ccb_api.Workflow.Engine.{Directory, Context, assert_can_act, record_approval, record_rejection}
use ccb_api.BillRun.Data.{BillRunStatus, BillRun, State, run_by_id}
use ccb_api.BillRun.Review.{
  approve_transaction, refuse, run_for_review, is_self_review, reviewed, save_run, status_after,
}

-- The run under review is pending, and the actor is not its submitter.
pub record IsReviewable (id : ℕ) (actor : Option ℕ) (st : State) (run : BillRun) : Type 0 where
  pub found : run_by_id id st ≡ some run
  pub pending : run.status ≡ BillRunStatus.pending_approval
  pub other : is_self_review run.submitted_by_id actor ≡ false

pub run_for_review-IsReviewable :
    (id : ℕ) (actor : Option ℕ) (action : Message) (st : State) {run : BillRun}
    → run_for_review id actor action st ≡ ok run
    → IsReviewable id actor st run
unfolding run_for_review
run_for_review-IsReviewable id actor action st {run} h = elim (Option-cases (run_by_id id st)) [
  | inl e ↦ ground arith
  | inr (r, e) ↦ record { found = ground arith; pending = ground arith; other = ground arith }
]

pub run_for_review-eq :
    (id : ℕ) (actor : Option ℕ) (action : Message) (st : State) {run : BillRun}
    → IsReviewable id actor st run
    → run_for_review id actor action st ≡ ok run
unfolding run_for_review
run_for_review-eq id actor action st {run} h = ground (arith, h.found, h.pending, h.other)

-- An approval: the workflow's check and record, and the run's change.
pub record IsApproval (dir : Directory) (id : ℕ) (notes : Option Message) (actor : Option ℕ)
    (is_system : Bool) (now : ℕ) (st st' : State) : Type 0 where
  pub ctx : Context
  pub run : BillRun
  pub workflow : Store
  pub admitted : assert_can_act dir WorkflowType.bill_run id actor is_system st.workflow ≡ ok ctx
  pub reviewable : IsReviewable id actor st run
  pub recorded : record_approval ctx actor notes now st.workflow ≡ ok workflow
  pub written :
      st' ≡ record (save_run (reviewed actor now notes (status_after ctx run.status) run) st) {
        workflow = workflow;
      }

pub approve_transaction-IsApproval :
    (dir : Directory) (id : ℕ) (notes : Option Message) (actor : Option ℕ) (is_system : Bool)
    (now : ℕ) (st st' : State)
    → approve_transaction dir id notes actor is_system now st ≡ ok st'
    → IsApproval dir id notes actor is_system now st st'
unfolding approve_transaction
approve_transaction-IsApproval dir id notes actor is_system now st st' h =
    elim (Result-cases (assert_can_act dir WorkflowType.bill_run id actor is_system st.workflow)) [
      | inr (e, p) ↦ ground arith
      | inl (ctx, p) ↦ elim (Result-cases (run_for_review id actor (text "approved") st)) [
        | inr (e, q) ↦ ground arith
        | inl (run, q) ↦ elim (Result-cases (record_approval ctx actor notes now st.workflow)) [
          | inr (e, r) ↦ ground arith
          | inl (w, r) ↦ record {
            ctx = ctx;
            run = run;
            workflow = w;
            admitted = p;
            reviewable = run_for_review-IsReviewable id actor (text "approved") st q;
            recorded = r;
            written = ground arith;
          }
        ]
      ]
    ]

-- A rejection or a return.
pub record IsRefusal (status : BillRunStatus) (dir : Directory) (id : ℕ) (notes : Message)
    (actor : Option ℕ) (now : ℕ) (st st' : State) : Type 0 where
  pub ctx : Context
  pub run : BillRun
  pub admitted : assert_can_act dir WorkflowType.bill_run id actor false st.workflow ≡ ok ctx
  pub reviewable : IsReviewable id actor st run
  pub written : st' ≡ record (save_run (reviewed actor now (some notes) status run) st) {
    workflow = record_rejection ctx actor (some notes) now st.workflow;
  }

pub refuse-IsRefusal :
    (action : Message) (status : BillRunStatus) (dir : Directory) (id : ℕ) (notes : Message)
    (actor : Option ℕ) (now : ℕ) (st st' : State)
    → refuse action status dir id notes actor now st ≡ ok st'
    → IsRefusal status dir id notes actor now st st'
unfolding refuse
refuse-IsRefusal action status dir id notes actor now st st' h =
    elim (Result-cases (assert_can_act dir WorkflowType.bill_run id actor false st.workflow)) [
      | inr (e, p) ↦ ground arith
      | inl (ctx, p) ↦ elim (Result-cases (run_for_review id actor action st)) [
        | inr (e, q) ↦ ground arith
        | inl (run, q) ↦ record {
          ctx = ctx;
          run = run;
          admitted = p;
          reviewable = run_for_review-IsReviewable id actor action st q;
          written = ground arith;
        }
      ]
    ]
