-- ===== src/BillRun/Authority.antt =====
-- Who approves a run, and what a refused run still admits.
use ccb_api.Base.{
  ℕ, ◌+◌, ◌≡◌, refl, ◌≢◌, ◌↔◌, ◌≤◌, ◌∙◌, sym, Bool, true, false, Option, some, arith, Option-cases,
  inl, inr, get_or_else,
}
use mathlib.Core.Path.{subst}
use ccb_api.Base.Result.{Message, ok, Result-cases}
use ccb_api.Workflow.Data.{WorkflowType, Instance, Step}
use ccb_api.Workflow.Store.{Store, latest_instance, step_at, count_levels}
use ccb_api.Workflow.Engine.{Directory, Context, assert_can_act}
use ccb_api.Workflow.Access.{IsApprover, IsOpen, assert_can_act-IsApprover}
use ccb_api.BillRun.Data.{BillRunStatus, BillRun, State, run_by_id}
use ccb_api.BillRun.Review.{
  approve_transaction, approve, refuse, reject, return_for_correction, reviewed, save_run,
  status_after, generates_bills,
}
use ccb_api.BillRun.Outcome.{
  IsReviewable, IsApproval, approve_transaction-IsApproval, refuse-IsRefusal,
}
use ccb_api.BillRun.Unique.{IsConsistent}
use ccb_api.BillRun.Approval.{saved_run, generates_bills-found}

assert_can_act-instance :
    (dir : Directory) (w : WorkflowType) (obj : ℕ) (actor : Option ℕ) (s : Store) {ctx : Context}
    {i : Instance}
    → assert_can_act dir w obj actor false s ≡ ok ctx
    → latest_instance w obj s ≡ some i
    → ctx.instance_ ≡ some i
unfolding assert_can_act
assert_can_act-instance dir w obj actor s {ctx} {i} h e =
    elim (Option-cases (step_at i.id i.current_level_order s)) [
      | inl e' ↦ ground arith
      | inr (st, e') ↦ ground arith
    ]

approve-cases :
    (dir : Directory) (id : ℕ) (notes : Option Message) (actor : Option ℕ) (is_system : Bool)
    (now : ℕ) (st st' : State) (generates : Bool)
    → approve dir id notes actor is_system now st ≡ ok (st', generates)
    → (approve_transaction dir id notes actor is_system now st ≡ ok st')
      × (generates_bills id st' ≡ generates)
unfolding approve
approve-cases dir id notes actor is_system now st st' generates h =
    elim (Result-cases (approve_transaction dir id notes actor is_system now st)) [
      | inr (e, p) ↦ ground arith
      | inl (after, p) ↦ (ground arith, ground arith)
    ]

generates-eq :
    (dir : Directory) (id : ℕ) (notes : Option Message) (actor : Option ℕ) (now : ℕ)
    (st st' : State)
    → IsConsistent st
    → (a : IsApproval dir id notes actor false now st st')
    → generates_bills id st' ≡ a.ctx.is_final_level
generates-eq dir id notes actor now st st' c a =
    let run' = reviewed actor now notes (status_after a.ctx a.run.status) a.run in
    let after : State = record (save_run run' st) { workflow = a.workflow } in
    let found : run_by_id id after ≡ some run' =
      saved_run id st run' c.ids a.reviewable.found refl in
    subst (λ s. generates_bills id s ≡ a.ctx.is_final_level) (sym a.written)
      (generates_bills-found id after found ∙ ground (arith, a.reviewable.pending))

-- In a consistent state, an approval of a run under a workflow by a human actor that succeeds was
-- made while the run was pending, by a user other than its submitter, at an open step of its newest
-- instance for whose role the user may act; and the generation of bills is started exactly when no
-- level follows the current one.
pub approve-IsApprover :
    (dir : Directory) (id : ℕ) (notes : Option Message) (actor : Option ℕ) (now : ℕ)
    (st st' : State) (generates : Bool) (i : Instance)
    → IsConsistent st
    → latest_instance WorkflowType.bill_run id st.workflow ≡ some i
    → approve dir id notes actor false now st ≡ ok (st', generates)
    → (run : BillRun) × (step : Step) × IsReviewable id actor st run
      × IsOpen WorkflowType.bill_run id st.workflow i step
      × IsApprover dir actor step.role_id
      × ((generates ≡ true)
          ↔ (count_levels i.definition_id st.workflow ≤ get_or_else i.current_level_order 0 + 1))
approve-IsApprover dir id notes actor now st st' generates i c latest h =
    let (p, g) = approve-cases dir id notes actor false now st st' generates h in
    let a = approve_transaction-IsApproval dir id notes actor false now st st' p in
    let flag : a.ctx.is_final_level ≡ generates =
      sym (generates-eq dir id notes actor now st st' c a) ∙ g in
    let named =
      assert_can_act-instance dir WorkflowType.bill_run id actor st.workflow a.admitted latest in
    let admitted' : assert_can_act dir WorkflowType.bill_run id actor false st.workflow
        ≡ ok (record { instance_ = some i; is_final_level = generates }) =
      ground (arith, a.admitted) in
    let (step, open_, approver, last) =
      assert_can_act-IsApprover dir WorkflowType.bill_run id actor st.workflow admitted' in
    (a.run, step, a.reviewable, open_, approver, last)

-- The run has been refused with a status, and no review of it succeeds any more.
pub record IsRefused (id : ℕ) (status : BillRunStatus) (st : State) : Type 0 where
  pub run : BillRun
  pub found : run_by_id id st ≡ some run
  pub status_is : run.status ≡ status
  pub no_approval :
      (dir : Directory) (notes : Option Message) (actor : Option ℕ) (is_system : Bool) (now : ℕ)
      (r : State × Bool)
      → approve dir id notes actor is_system now st ≢ ok r
  pub no_refusal :
      (action : Message) (other : BillRunStatus) (dir : Directory) (notes : Message)
      (actor : Option ℕ) (now : ℕ) (r : State)
      → refuse action other dir id notes actor now st ≢ ok r

not_pending-IsRefused :
    (id : ℕ) (st : State) (run : BillRun)
    → run_by_id id st ≡ some run
    → run.status ≢ BillRunStatus.pending_approval
    → IsRefused id run.status st
not_pending-IsRefused id st run found closed = record {
  run = run;
  found = found;
  status_is = refl;
  no_approval = λ dir notes actor is_system now (after, b) h.
      let (p, g) = approve-cases dir id notes actor is_system now st after b h in
      let a = approve_transaction-IsApproval dir id notes actor is_system now st after p in
      ground (arith, a.reviewable.found, a.reviewable.pending);
  no_refusal = λ action other dir notes actor now after h.
      let a = refuse-IsRefusal action other dir id notes actor now st after h in
      ground (arith, a.reviewable.found, a.reviewable.pending);
}

refuse-IsRefused :
    (action : Message) (status : BillRunStatus) (dir : Directory) (id : ℕ) (notes : Message)
    (actor : Option ℕ) (now : ℕ) (st st' : State)
    → IsConsistent st
    → status ≢ BillRunStatus.pending_approval
    → refuse action status dir id notes actor now st ≡ ok st'
    → IsRefused id status st'
refuse-IsRefused action status dir id notes actor now st st' c closed h =
    let a = refuse-IsRefusal action status dir id notes actor now st st' h in
    let run' = reviewed actor now (some notes) status a.run in
    subst (IsRefused id status) (sym a.written)
      (not_pending-IsRefused id _ run' (saved_run id st run' c.ids a.reviewable.found refl) closed)

-- A rejection that succeeds in a consistent state leaves the run REJECTED, and no approval,
-- rejection or return of it succeeds any more, whoever makes it, the system included.
pub reject-IsRefused :
    (dir : Directory) (id : ℕ) (notes : Message) (actor : Option ℕ) (now : ℕ) (st st' : State)
    → IsConsistent st
    → reject dir id notes actor now st ≡ ok st'
    → IsRefused id BillRunStatus.rejected st'
unfolding reject
reject-IsRefused dir id notes actor now st st' c h =
    refuse-IsRefused _ BillRunStatus.rejected dir id notes actor now st st' c (cc) h

-- A return for correction that succeeds in a consistent state leaves the run
-- RETURNED_FOR_CORRECTION, and no approval, rejection or return of it succeeds any more, whoever
-- makes it, the system included.
pub return_for_correction-IsRefused :
    (dir : Directory) (id : ℕ) (notes : Message) (actor : Option ℕ) (now : ℕ) (st st' : State)
    → IsConsistent st
    → return_for_correction dir id notes actor now st ≡ ok st'
    → IsRefused id BillRunStatus.returned_for_correction st'
unfolding return_for_correction
return_for_correction-IsRefused dir id notes actor now st st' c h =
    refuse-IsRefused _ BillRunStatus.returned_for_correction dir id notes actor now st st' c (cc) h
