-- ===== src/BillRun/Approval.antt =====
-- `approve` at a level of the run's journey, and a run's approvals up to the generation of its bills.
use ccb_api.Base.{
  ℕ, suc, ◌≡◌, refl, Bool, true, false, Option, none, some, List, [], ◌∷◌, arith, ◌==◌, ap,
}
use ccb_api.Base.Result.{text, Result, ok, ◌>>=◌}
use ccb_api.Base.Rows.{IsDescending, find_holds, find-replace_row_self}
use ccb_api.Workflow.Data.{WorkflowType, Level}
use ccb_api.Workflow.Store.{Store}
use ccb_api.Workflow.Engine.{Directory, Context, assert_can_act, record_approval}
use ccb_api.Workflow.Access.{IsApprover, context_of}
use ccb_api.Workflow.Journey.{IsAt, approve_level, admitted}
use ccb_api.BillRun.Data.{BillRunStatus, BillRun, State, run_by_id, run_key}
use ccb_api.BillRun.Review.{
  approve_transaction, approve, is_self_review, reviewed, save_run, status_after, generates_bills,
}
use ccb_api.BillRun.Outcome.{IsReviewable, run_for_review-eq}

-- A run saved over the one that a query by id finds.
pub saved_run :
    (id : ℕ) (st : State) (y : BillRun) {run : BillRun}
    → IsDescending run_key st.next_run_id st.runs
    → run_by_id id st ≡ some run
    → y.id ≡ run.id
    → run_by_id id (save_run y st) ≡ some y
saved_run id st y d e same =
    find-replace_row_self run_key (λ r. r.id == id) st.next_run_id y st.runs d e same
      (ground (arith, find_holds (λ r. r.id == id) st.runs e))

-- The state after an approval.
abbrev pub approved_state : Option ℕ → ℕ → BillRunStatus → BillRun → Store → State → State
approved_state actor now status run w st =
    record (save_run (reviewed actor now none status run) st) { workflow = w }

abbrev pub is_approved : BillRunStatus → Bool
is_approved BillRunStatus.approved = true
is_approved _ = false

pub generates_bills-found :
    (id : ℕ) (st : State) {y : BillRun}
    → run_by_id id st ≡ some y
    → generates_bills id st ≡ is_approved y.status
unfolding generates_bills
generates_bills-found id st {y} e = ground arith

pub approve-eq :
    (dir : Directory) (id : ℕ) (actor : Option ℕ) (now : ℕ) (st : State) {run : BillRun}
    {ctx : Context} {w : Store}
    → IsDescending run_key st.next_run_id st.runs
    → IsReviewable id actor st run
    → assert_can_act dir WorkflowType.bill_run id actor false st.workflow ≡ ok ctx
    → record_approval ctx actor none now st.workflow ≡ ok w
    → approve dir id none actor false now st
      ≡ ok (
        approved_state actor now (status_after ctx run.status) run w st,
        is_approved (status_after ctx run.status),
      )
unfolding approve approve_transaction
approve-eq dir id actor now st {run} {ctx} {w} d r a h =
    let status = status_after ctx run.status in
    let after = approved_state actor now status run w st in
    let found : run_by_id id after ≡ some (reviewed actor now none status run) =
      saved_run id st (reviewed actor now none status run) d r.found refl in
    rw (a, run_for_review-eq id actor (text "approved") st r, h)
      (ap (λ b. ok (after, b)) (generates_bills-found id after found))

-- The calls of `approve` one after another, each by an actor at a time and without notes, with
-- the number of times that bills are generated.
abbrev pub add_if : Bool → ℕ → ℕ
add_if true n = suc n
add_if false n = n

unfoldable pub approve_all : Directory → ℕ → List (Option ℕ × ℕ) → State → Result (State × ℕ)
approve_all dir id [] st = ok (st, 0)
approve_all dir id ((actor, now) ∷ more) st = do
  (after, generated) ← approve dir id none actor false now st
  (final, times) ← approve_all dir id more after
  ok (final, add_if generated times)

-- None of the actors submitted the run.
abbrev pub AreOthers : Option ℕ → List (Option ℕ × ℕ) → Type 0
AreOthers submitter [] = Unit
AreOthers submitter (a ∷ more) = (is_self_review submitter a.0 ≡ false) × AreOthers submitter more

module _ (dir : Directory) (id did n : ℕ) (levels : ℕ → Level) (submitter : Option ℕ) where
  -- The run is pending and its journey waits at the level `l`.
  pub record IsPendingAt (l : ℕ) (st : State) : Type 0 where
    pub ids : IsDescending run_key st.next_run_id st.runs
    pub run : BillRun
    pub found : run_by_id id st ≡ some run
    pub pending : run.status ≡ BillRunStatus.pending_approval
    pub submitter_is : run.submitted_by_id ≡ submitter
    pub at : IsAt dir WorkflowType.bill_run id did n levels l st.workflow

  pub reviewable :
      (l : ℕ) (st : State) (at : IsPendingAt l st) (actor : Option ℕ)
      → is_self_review submitter actor ≡ false
      → IsReviewable id actor st at.run
  reviewable l st at actor other = record {
    found = at.found;
    pending = at.pending;
    other = rw (at.submitter_is) other;
  }

  pub recorded :
      (l : ℕ) (st : State) (at : IsPendingAt l st) (actor : Option ℕ) (now : ℕ) {w : Store}
      → IsApprover dir actor (levels l).role_id
      → approve_level dir WorkflowType.bill_run id (actor, now) st.workflow ≡ ok w
      → record_approval (context_of at.at.instance_ st.workflow) actor none now st.workflow ≡ ok w
  unfolding approve_level
  recorded l st at actor now a h =
      let let_in = admitted dir WorkflowType.bill_run id did n levels l st.workflow at.at actor a in
      ground (arith, let_in)
