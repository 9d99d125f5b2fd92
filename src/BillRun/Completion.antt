-- ===== src/BillRun/Completion.antt =====
-- The approvals of a run at all levels of its journey: the last one approves it and generates its
-- bills.
use ccb_api.Base.{
  ℕ, suc, ◌+◌, ◌≡◌, refl, ◌≢◌, ◌<◌, true, false, Option, none, some, List, [], ◌∷◌, arith, length,
  leb,
}
use mathlib.Core.Path.{subst}
use ccb_api.Base.Result.{ok}
use ccb_api.Base.Rows.{replace_row-IsDescending}
use ccb_api.Workflow.Data.{WorkflowType, Level}
use ccb_api.Workflow.Engine.{Directory, is_final}
use ccb_api.Workflow.Access.{IsApprover, context_of}
use ccb_api.Workflow.Journey.{AreApprovers, is_final-eq, admitted, approve_inner, approve_last}
use ccb_api.BillRun.Data.{BillRunStatus, BillRun, State, run_by_id, run_key}
use ccb_api.BillRun.Review.{approve, reviewed, status_after, is_self_review}
use ccb_api.BillRun.Approval.{
  approve-eq, approve_all, AreOthers, IsPendingAt, reviewable, recorded, approved_state, saved_run,
  is_approved,
}

module _ (dir : Directory) (id did n : ℕ) (levels : ℕ → Level) (submitter : Option ℕ) where
  status_after-eq :
      (l : ℕ) (st : State) (at : IsPendingAt dir id did n levels submitter l st)
      → is_final at.at.instance_ st.workflow ≡ leb n (l + 1)
  status_after-eq l st at =
      is_final-eq dir WorkflowType.bill_run id did n levels l st.workflow at.at

  -- An approval below the last level: the run stays pending and no bill is generated.
  approve_below :
      (l : ℕ) (st : State) (at : IsPendingAt dir id did n levels submitter l st) (actor : Option ℕ)
      (now : ℕ)
      → IsApprover dir actor (levels l).role_id
      → is_self_review submitter actor ≡ false
      → l + 1 < n
      → (st' : State) × (approve dir id none actor false now st ≡ ok (st', false))
        × IsPendingAt dir id did n levels submitter (suc l) st'
  approve_below l st at actor now a other more =
      let (w, e, at') =
        approve_inner dir WorkflowType.bill_run id did n levels l st.workflow at.at actor now a
          more in
      let run' = reviewed actor now none BillRunStatus.pending_approval at.run in
      let st' = approved_state actor now BillRunStatus.pending_approval at.run w st in
      let kept : status_after (context_of at.at.instance_ st.workflow) at.run.status
          ≡ BillRunStatus.pending_approval =
        rw (status_after-eq l st at) ground (arith, at.pending) in
      let done =
        approve-eq dir id actor now st at.ids
          (reviewable dir id did n levels submitter l st at actor other)
          (admitted dir WorkflowType.bill_run id did n levels l st.workflow at.at actor a)
          (recorded dir id did n levels submitter l st at actor now a e) in
      (
        st',
        subst
            (λ status.
              approve dir id none actor false now st
              ≡ ok (approved_state actor now status at.run w st, is_approved status))
            kept done,
        record {
          ids = replace_row-IsDescending run_key st.next_run_id run' st.runs at.ids;
          run = run';
          found = saved_run id st run' at.ids at.found refl;
          pending = refl;
          submitter_is = at.submitter_is;
          at = at';
        },
      )

  -- The approval at the last level: the run is approved and its bills are generated.
  approve_at_last :
      (l : ℕ) (st : State) (at : IsPendingAt dir id did n levels submitter l st) (actor : Option ℕ)
      (now : ℕ)
      → IsApprover dir actor (levels l).role_id
      → is_self_review submitter actor ≡ false
      → l + 1 ≡ n
      → (st' : State) × (run : BillRun) × (approve dir id none actor false now st ≡ ok (st', true))
        × (run_by_id id st' ≡ some run)
        × (run.status ≡ BillRunStatus.approved)
  approve_at_last l st at actor now a other last =
      let (w, e, at') =
        approve_last dir WorkflowType.bill_run id did n levels l st.workflow at.at actor now a
          last in
      let run' = reviewed actor now none BillRunStatus.approved at.run in
      let kept : status_after (context_of at.at.instance_ st.workflow) at.run.status
          ≡ BillRunStatus.approved =
        rw (status_after-eq l st at) ground (arith, at.pending) in
      let done =
        approve-eq dir id actor now st at.ids
          (reviewable dir id did n levels submitter l st at actor other)
          (admitted dir WorkflowType.bill_run id did n levels l st.workflow at.at actor a)
          (recorded dir id did n levels submitter l st at actor now a e) in
      (
        approved_state actor now BillRunStatus.approved at.run w st,
        run',
        subst
            (λ status.
              approve dir id none actor false now st
              ≡ ok (approved_state actor now status at.run w st, is_approved status))
            kept done,
        saved_run id st run' at.ids at.found refl,
        refl,
      )

  -- A pending run whose journey waits at level `l` of `n` is approved by n - l calls of `approve`,
  -- each by a user other than the submitter who may act for the role of the level reached: all the
  -- calls succeed, the run is then APPROVED, and the generation of bills is started exactly once.
  pub approve_all-IsApproved :
      (approvals : List (Option ℕ × ℕ)) (l : ℕ) (st : State)
      → l + length approvals ≡ n
      → approvals ≢ []
      → AreApprovers dir WorkflowType.bill_run id did n levels l approvals
      → AreOthers submitter approvals
      → IsPendingAt dir id did n levels submitter l st
      → (st' : State) × (run : BillRun) × (approve_all dir id approvals st ≡ ok (st', 1))
        × (run_by_id id st' ≡ some run)
        × (run.status ≡ BillRunStatus.approved)
  unfolding approve_all
  approve_all-IsApproved [] l st total some_left a others at = absurd (some_left refl)
  approve_all-IsApproved ((actor, now) ∷ []) l st total some_left a others at =
      let (st1, run, e, found, done) =
        approve_at_last l st at actor now a.0 others.0 (omega arith) in
      (st1, run, rw e refl, found, done)
  approve_all-IsApproved ((actor, now) ∷ b ∷ more) l st total some_left a others at =
      let (st1, e1, at1) = approve_below l st at actor now a.0 others.0 (omega arith) in
      let (st2, run, e2, found, done) =
        approve_all-IsApproved (b ∷ more) (suc l) st1 (omega arith) (cc) a.1 others.1 at1 in
      (st2, run, rw (e1, e2) refl, found, done)
