-- ===== src/BillRun/Lifecycle.antt =====
-- A run from its submission to the generation of its bills.
use ccb_api.Base.{ℕ, ◌≡◌, ◌<◌, sym, Option, none, some, List, arith, length}
use mathlib.Core.Path.{subst}
use ccb_api.Base.Result.{Message, ok}
use ccb_api.Workflow.Data.{WorkflowType, Level, Definition}
use ccb_api.Workflow.Progress.{IsStored}
use ccb_api.Workflow.Journey.{IsPublished, AreApprovers}
use ccb_api.Workflow.Start.{active_definition, start_instance-opens}
use ccb_api.BillRun.Data.{BillRunStatus, BillRun, State, Surroundings, run_by_id}
use ccb_api.BillRun.Plan.{Recovery}
use ccb_api.BillRun.Submit.{new_run, insert_run, submit}
use ccb_api.BillRun.Unique.{IsConsistent, submit_within-cases, insert-IsConsistent}
use ccb_api.BillRun.Approval.{IsPendingAt, approve_all, AreOthers}
use ccb_api.BillRun.Completion.{approve_all-IsApproved}

module _ (env : Surroundings) (st : State) (c : IsConsistent st) (stored : IsStored st.workflow)
    (d : Definition) (active : active_definition WorkflowType.bill_run st.workflow ≡ some d) (n : ℕ)
    (levels : ℕ → Level) (published : IsPublished d.id n levels st.workflow.levels)
    (some_level : 0 < n) where
  -- The inserted row waits for the first level.
  insert-IsPendingAt :
      (run : BillRun) (actor : Option ℕ) (now : ℕ)
      → run.id ≡ st.next_run_id
      → run.status ≡ BillRunStatus.pending_approval
      → run.submitted_by_id ≡ actor
      → IsConsistent (insert_run run actor now st)
      → IsPendingAt env.directory run.id d.id n levels actor 0 (insert_run run actor now st)
  unfolding insert_run
  insert-IsPendingAt run actor now fresh pending by c' = record {
    ids = c'.ids;
    run = run;
    found = ground arith;
    pending = pending;
    submitter_is = by;
    at =
        (start_instance-opens env.directory WorkflowType.bill_run run.id n levels st.workflow d
          stored active published some_level actor now).0;
  }

  -- A submission that succeeds while bill runs have an active workflow of n > 0 levels leaves a
  -- pending run by its actor, whose journey waits at level 0.
  pub submit-IsPendingAt :
      (pid : ℕ) (notes : Option Message) (recovery : Option Recovery) (actor : Option ℕ) (now : ℕ)
      (run : BillRun) (st' : State)
      → submit env pid notes recovery actor now st ≡ ok (run, st')
      → IsPendingAt env.directory run.id d.id n levels actor 0 st'
  unfolding submit new_run
  submit-IsPendingAt pid notes recovery actor now run st' h =
      let (plan, p, free, made, written) =
        submit_within-cases env pid notes none actor recovery now st st' run h in
      subst (IsPendingAt env.directory run.id d.id n levels actor 0) (sym written) (
        insert-IsPendingAt run actor now (ground arith) (ground arith) (ground arith)
          (insert-IsConsistent st run actor now c (ground arith) (ground arith)))

  -- In a consistent state whose workflow tables have descending ids, a submission that succeeds
  -- while bill runs have an active workflow of n > 0 levels, followed by n approvals, the k-th by a
  -- user who holds the role of level k and no SUPER_ADMIN role and did not submit the run, leads to
  -- an APPROVED run, with the generation of its bills started exactly once, by the last approval.
  pub submit-IsApproved :
      (pid : ℕ) (notes : Option Message) (recovery : Option Recovery) (actor : Option ℕ) (now : ℕ)
      (run : BillRun) (st' : State) (approvals : List (Option ℕ × ℕ))
      → submit env pid notes recovery actor now st ≡ ok (run, st')
      → length approvals ≡ n
      → AreApprovers env.directory WorkflowType.bill_run run.id d.id n levels 0 approvals
      → AreOthers actor approvals
      → (final : State) × (done : BillRun) × (approve_all env.directory run.id approvals st'
          ≡ ok (final, 1))
        × (run_by_id run.id final ≡ some done)
        × (done.status ≡ BillRunStatus.approved)
  submit-IsApproved pid notes recovery actor now run st' approvals h total are others =
      approve_all-IsApproved env.directory run.id d.id n levels actor approvals 0 st' (omega arith)
        (λ empty. ground arith) are others
        (submit-IsPendingAt pid notes recovery actor now run st' h)
