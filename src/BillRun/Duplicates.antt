-- ===== src/BillRun/Duplicates.antt =====
-- The duplicate check of `submitWithinTransaction`, which compares cycle versions and not periods.
use ccb_api.Base.{
  sym, Bool, true, List, [], ◌∷◌, ◌⊎◌, ◌==◌, inl, inr, find, Bool-cases, ℕ, ◌≡◌, ◌≢◌, ◌∙◌, Option,
  none, some, arith,
}
use ccb_api.Base.Result.{Message, ok}
use ccb_api.Readiness.Data.{CycleInfo}
use ccb_api.BillRun.Data.{BillRunStatus, BillRun, State, Surroundings, run_by_id, is_active_for}
use ccb_api.BillRun.Plan.{Plan, existing_active, plan_routine}
use ccb_api.BillRun.Submit.{new_run, submit}
use ccb_api.BillRun.Unique.{submit_within-cases}

-- A routine plan is for the current version.
plan_routine-version :
    (env : Surroundings) (pid : ℕ) (st : State) (c : CycleInfo) {plan : Plan}
    → env.services.reading_period pid ≡ some c
    → plan_routine env pid st ≡ ok plan
    → plan.cycle_version_id ≡ c.version_id
unfolding plan_routine
plan_routine-version env pid st c e h = ground arith

-- A run of the property and version that is active, under any id, is found by the duplicate check.
find_other :
    (p q : BillRun → Bool) (rows : List BillRun) {x : BillRun}
    → find p rows ≡ some x
    → q x ≡ true
    → find q rows ≢ none
find_other p q [] e h = cc
find_other p q (y ∷ rows) {x} e h = elim (Bool-cases (p y)) [
  | inl a ↦ ground (arith, a, e, h)
  | inr a ↦ ground (arith, find_other p q rows {x = x} (ground arith) h)
]

existing-active :
    (st : State) (pid vid id : ℕ) (r : BillRun)
    → run_by_id id st ≡ some r
    → is_active_for pid vid r ≡ true
    → existing_active st pid vid ≢ none
existing-active st pid vid id r e active =
    find_other (λ r. r.id == id) (is_active_for pid vid) st.runs e active

-- After a routine submission that succeeds, in every later state in which its run, under its
-- property and cycle version, is PENDING APPROVAL or APPROVED, no other routine submission for the
-- property succeeds, of any actor, as long as the property's current cycle has the same version,
-- whatever else the surroundings say by then, the period of the current cycle included.
pub submit-refused_again :
    (env env' : Surroundings) (pid : ℕ) (notes notes' : Option Message) (actor actor' : Option ℕ)
    (now now' : ℕ) (st st' later : State) (run r : BillRun) (c : CycleInfo)
    → submit env pid notes none actor now st ≡ ok (run, st')
    → run_by_id run.id later ≡ some r
    → r.property_id ≡ run.property_id
    → r.cycle_version_id ≡ run.cycle_version_id
    → (r.status ≡ BillRunStatus.pending_approval) ⊎ (r.status ≡ BillRunStatus.approved)
    → env'.services.reading_period pid ≡ some c
    → c.version_id ≡ run.cycle_version_id
    → (x : BillRun × State) → submit env' pid notes' none actor' now' later ≢ ok x
unfolding submit
submit-refused_again env env' pid notes notes' actor actor' now now' st st' later run r c h there
      same_property same_version live e same (again, after) h' =
    let (plan, p, free, made, written) =
      submit_within-cases env pid notes none actor none now st st' run h in
    let (plan', p', free', made', written') =
      submit_within-cases env' pid notes' none actor' none now' later after again h' in
    let property : r.property_id ≡ pid = unfold new_run in ground (arith, same_property, made) in
    let version : plan'.cycle_version_id ≡ r.cycle_version_id =
      plan_routine-version env' pid later c e p' ∙ same ∙ sym same_version in
    let active : is_active_for pid plan'.cycle_version_id r ≡ true =
      ground (arith, property, version, live) in
    existing-active later pid plan'.cycle_version_id run.id r there active free'
