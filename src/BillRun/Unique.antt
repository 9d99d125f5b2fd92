-- ===== src/BillRun/Unique.antt =====
-- No property has two active runs in one cycle version.
use ccb_api.Base.{
  ℕ, ◌≡◌, ◌≤◌, ◌∙◌, sym, Bool, true, Option, none, some, arith, ◌==◌, find, count_if, Option-cases,
  inl, inr, ap, is_some,
}
use mathlib.Core.Path.{subst}
use ccb_api.Base.Result.{Message, ok, Result-cases}
use ccb_api.Base.Rows.{
  IsDescending, find_holds, replace_row-IsDescending, count_if-replace_row, count_if-absent,
}
use ccb_api.Workflow.Store.{Store}
use ccb_api.Workflow.Engine.{Directory, record_rejection}
use ccb_api.BillRun.Data.{
  BillRunStatus, BillRun, State, Surroundings, is_active_for, run_by_id, run_key,
}
use ccb_api.BillRun.Plan.{Recovery, Plan, plan_for, existing_active}
use ccb_api.BillRun.Submit.{new_run, insert_run, submit_within_transaction, resubmit, link_to}
use ccb_api.BillRun.Review.{approve_transaction, approve, refuse, reviewed, save_run, status_after}
use ccb_api.BillRun.Outcome.{IsReviewable, approve_transaction-IsApproval, refuse-IsRefusal}

-- The ids descend below the next one, and each property has at most one active run per version.
pub record IsConsistent (st : State) : Type 0 where
  pub ids : IsDescending run_key st.next_run_id st.runs
  pub unique : (pid vid : ℕ) → count_if (is_active_for pid vid) st.runs ≤ 1

-- Saving a row that is in the table and is active only if it was.
save-IsConsistent :
    (st : State) (y : BillRun) {x : BillRun}
    → IsConsistent st
    → find (λ r. r.id == y.id) st.runs ≡ some x
    → ((pid vid : ℕ) → is_active_for pid vid y ≡ true → is_active_for pid vid x ≡ true)
    → IsConsistent (save_run y st)
save-IsConsistent st y c e kept = record {
  ids = replace_row-IsDescending run_key st.next_run_id y st.runs c.ids;
  unique = λ pid vid. omega (
    arith,
    count_if-replace_row run_key (is_active_for pid vid) y st.runs e (kept pid vid),
    c.unique pid vid,
  );
}

-- The row inserted is the property's only active one in its version.
pub insert-IsConsistent :
    (st : State) (run : BillRun) (actor : Option ℕ) (now : ℕ)
    → IsConsistent st
    → run.id ≡ st.next_run_id
    → existing_active st run.property_id run.cycle_version_id ≡ none
    → IsConsistent (insert_run run actor now st)
unfolding insert_run
insert-IsConsistent st run actor now c fresh free = record {
  ids = (omega arith, subst (λ k. IsDescending run_key k st.runs) (sym fresh) c.ids);
  unique = λ pid vid. ground (
    arith,
    c.unique pid vid,
    count_if-absent (is_active_for run.property_id run.cycle_version_id) st.runs free,
  );
}

-- What a submission that succeeds has found and done.
pub submit_within-cases :
    (env : Surroundings) (pid : ℕ) (notes : Option Message) (batch actor : Option ℕ)
    (recovery : Option Recovery) (now : ℕ) (st st' : State) (run : BillRun)
    → submit_within_transaction env pid notes batch actor recovery now st ≡ ok (run, st')
    → (plan : Plan) × (plan_for env pid recovery st ≡ ok plan)
      × (existing_active st pid plan.cycle_version_id ≡ none)
      × (run ≡ new_run env pid notes batch actor (is_some recovery) now plan st.next_run_id)
      × (st' ≡ insert_run run actor now st)
unfolding submit_within_transaction
submit_within-cases env pid notes batch actor recovery now st st' run h =
    elim (Result-cases (plan_for env pid recovery st)) [
      | inr (e, p) ↦ ground arith
      | inl (plan, p) ↦ elim (Option-cases (existing_active st pid plan.cycle_version_id)) [
        | inr (r, e) ↦ ground arith
        | inl e ↦ (plan, ground arith, e, ground arith, ground arith)
      ]
    ]

pub submit_within-IsConsistent :
    (env : Surroundings) (pid : ℕ) (notes : Option Message) (batch actor : Option ℕ)
    (recovery : Option Recovery) (now : ℕ) (st st' : State) (run : BillRun)
    → IsConsistent st
    → submit_within_transaction env pid notes batch actor recovery now st ≡ ok (run, st')
    → IsConsistent st'
unfolding new_run
submit_within-IsConsistent env pid notes batch actor recovery now st st' run c h =
    let (plan, p, free, made, written) =
      submit_within-cases env pid notes batch actor recovery now st st' run h in
    subst IsConsistent (sym written)
      (insert-IsConsistent st run actor now c (ground arith) (ground arith))

-- A reviewed run is active only if it was, and it was.
pub reviewed-IsConsistent :
    (id : ℕ) (actor : Option ℕ) (now : ℕ) (notes : Option Message) (status : BillRunStatus)
    (st : State) (run : BillRun) (w : Store)
    → IsConsistent st
    → IsReviewable id actor st run
    → IsConsistent (record (save_run (reviewed actor now notes status run) st) { workflow = w })
reviewed-IsConsistent id actor now notes status st run w c r =
    let same : run.id ≡ id = ground (arith, find_holds (λ x. x.id == id) st.runs r.found) in
    let saved =
      save-IsConsistent st (reviewed actor now notes status run) c
        (subst (λ k. find (λ x. x.id == k) st.runs ≡ some run) (sym same) r.found)
        (λ pid vid active. ground (arith, r.pending)) in
    record { ids = saved.ids; unique = saved.unique }

pub approve-IsConsistent :
    (dir : Directory) (id : ℕ) (notes : Option Message) (actor : Option ℕ) (is_system : Bool)
    (now : ℕ) (st st' : State) (b : Bool)
    → IsConsistent st
    → approve dir id notes actor is_system now st ≡ ok (st', b)
    → IsConsistent st'
unfolding approve
approve-IsConsistent dir id notes actor is_system now st st' b c h =
    elim (Result-cases (approve_transaction dir id notes actor is_system now st)) [
      | inr (e, p) ↦ ground arith
      | inl (after, p) ↦
          let a = approve_transaction-IsApproval dir id notes actor is_system now st after p in
          let same : after ≡ st' = ground arith in
          subst IsConsistent (sym a.written ∙ same) (
            reviewed-IsConsistent id actor now notes (status_after a.ctx a.run.status) st a.run
              a.workflow c a.reviewable)
    ]

pub refuse-IsConsistent :
    (action : Message) (status : BillRunStatus) (dir : Directory) (id : ℕ) (notes : Message)
    (actor : Option ℕ) (now : ℕ) (st st' : State)
    → IsConsistent st
    → refuse action status dir id notes actor now st ≡ ok st'
    → IsConsistent st'
refuse-IsConsistent action status dir id notes actor now st st' c h =
    let a = refuse-IsRefusal action status dir id notes actor now st st' h in
    subst IsConsistent (sym a.written) (
      reviewed-IsConsistent id actor now (some notes) status st a.run
        (record_rejection a.ctx actor (some notes) now st.workflow) c a.reviewable)

-- The link to the original changes no status.
link_to-IsConsistent :
    (original : ℕ) (run : BillRun) (st st' : State) (run' : BillRun)
    → IsConsistent st
    → find (λ r. r.id == run.id) st.runs ≡ some run
    → link_to original (run, st) ≡ (run', st')
    → IsConsistent st'
link_to-IsConsistent original run st st' run' c e h =
    subst IsConsistent (ap (λ (x : BillRun × State). x.1) h) (
      save-IsConsistent st (record run { resubmitted_from_id = some original }) c e
        (λ pid vid active. active))

pub resubmit-IsConsistent :
    (env : Surroundings) (id : ℕ) (notes : Option Message) (actor : Option ℕ) (now : ℕ)
    (st st' : State) (run' : BillRun)
    → IsConsistent st
    → resubmit env id notes actor now st ≡ ok (run', st')
    → IsConsistent st'
unfolding resubmit
resubmit-IsConsistent env id notes actor now st st' run' c h =
    elim (Option-cases (run_by_id id st)) [
      | inl e ↦ ground arith
      | inr (original, e) ↦
          elim (Result-cases (
            submit_within_transaction env original.property_id notes original.batch_id actor none
              now st)) [
                | inr (x, p) ↦ ground arith
                | inl ((run, s1), p) ↦
                    let c1 =
                      submit_within-IsConsistent env original.property_id notes original.batch_id
                        actor none now st s1 run c p in
                    let (plan, planned, free, made, written) =
                      submit_within-cases env original.property_id notes original.batch_id actor
                        none now st s1 run p in
                    link_to-IsConsistent original.id run s1 st' run' c1
                      (unfold insert_run in ground arith) (ground arith)
              ]
    ]
