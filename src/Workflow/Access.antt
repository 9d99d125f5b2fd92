-- ===== src/Workflow/Access.antt =====
-- Who may act on a workflow instance: `assertCanAct`.
use ccb_api.Base.{
  ℕ, ◌≡◌, ◌≢◌, ◌↔◌, ◌⊎◌, inl, inr, ◌≤◌, ◌+◌, Bool, true, false, Option, none, some, List, [], ◌∷◌,
  arith, ◌==◌, All, any, Option-cases, get_or_else,
}
use ccb_api.Base.Result.{ok}
use ccb_api.Workflow.Data.{WorkflowType, Instance, Step, InstanceStatus}
use ccb_api.Workflow.Store.{Store, latest_instance, step_at, count_levels}
use ccb_api.Workflow.Engine.{Directory, Context, assert_actor, assert_can_act, is_final}

-- A number is listed.
abbrev pub IsListed : ℕ → List ℕ → Type 0
IsListed r [] = ⊥
IsListed r (x ∷ xs) = (x ≡ r) ⊎ IsListed r xs

pub any-eq_iff : (r : ℕ) (xs : List ℕ) → (any (λ x. x == r) xs ≡ true) ↔ IsListed r xs
any-eq_iff r [] = ground arith
any-eq_iff r (x ∷ xs) = ground (arith, any-eq_iff r xs)

pub any-false_iff : (p : ℕ → Bool) (xs : List ℕ) → (any p xs ≡ false) ↔ All (λ x. p x ≡ false) xs
any-false_iff p [] = ground arith
any-false_iff p (x ∷ xs) = ground (arith, any-false_iff p xs)

-- A user who may act for a role: known, no SUPER_ADMIN, and holding the role.
abbrev pub IsApprover : Directory → Option ℕ → ℕ → Type 0
IsApprover dir none role = ⊥
IsApprover dir (some a) role =
    (a ≢ 0)
    × All (λ r. dir.is_super_admin r ≡ false) (dir.role_ids a)
    × IsListed role (dir.role_ids a)

pub assert_actor_iff :
    (dir : Directory) (actor : Option ℕ) (i : Instance) (st : Step)
    → (assert_actor dir actor i st ≡ ok tt) ↔ IsApprover dir actor st.role_id
unfolding assert_actor
assert_actor_iff dir none i st = ground arith
assert_actor_iff dir (some a) i st = ground (
  arith,
  any-eq_iff st.role_id (dir.role_ids a),
  any-false_iff dir.is_super_admin (dir.role_ids a),
)

-- The object's newest instance waits at a step that nobody has acted on.
pub record IsOpen (w : WorkflowType) (obj : ℕ) (s : Store) (i : Instance) (st : Step) : Type 0 where
  pub latest : latest_instance w obj s ≡ some i
  pub waiting : i.status ≡ InstanceStatus.waiting_for_approval
  pub step : step_at i.id i.current_level_order s ≡ some st
  pub unacted : st.action ≡ none

-- The context that the call hands back for an instance.
abbrev pub context_of : Instance → Store → Context
context_of i s = record { instance_ = some i; is_final_level = is_final i s }

pub assert_can_act-open :
    (dir : Directory) (w : WorkflowType) (obj : ℕ) (actor : Option ℕ) (s : Store) {i : Instance}
    {st : Step}
    → IsOpen w obj s i st
    → (assert_can_act dir w obj actor false s ≡ ok (context_of i s))
      ↔ IsApprover dir actor st.role_id
unfolding assert_can_act
assert_can_act-open dir w obj actor s {i} {st} o = ground (arith, assert_actor_iff dir actor i st)

-- What a call that finds the instance `j` and the step `st` has checked.
pub assert_can_act-found :
    (dir : Directory) (w : WorkflowType) (obj : ℕ) (actor : Option ℕ) (s : Store) (j : Instance)
    (st : Step) {ctx : Context}
    → latest_instance w obj s ≡ some j
    → step_at j.id j.current_level_order s ≡ some st
    → assert_can_act dir w obj actor false s ≡ ok ctx
    → IsOpen w obj s j st × IsApprover dir actor st.role_id × (ctx ≡ context_of j s)
unfolding assert_can_act
assert_can_act-found dir w obj actor s j st e e' h = ground (arith, assert_actor_iff dir actor j st)

-- A call of assertCanAct for a human actor that finds an instance succeeds only for the object's
-- newest instance, while it waits at a step that nobody has acted on, and for a known actor who
-- holds the step's role and no SUPER_ADMIN role; the final-level flag says whether the definition
-- has no level above the current one.
pub assert_can_act-IsApprover :
    (dir : Directory) (w : WorkflowType) (obj : ℕ) (actor : Option ℕ) (s : Store) {i : Instance}
    {final : Bool}
    → assert_can_act dir w obj actor false s
      ≡ ok (record { instance_ = some i; is_final_level = final })
    → (st : Step) × IsOpen w obj s i st
      × IsApprover dir actor st.role_id
      × ((final ≡ true)
          ↔ (count_levels i.definition_id s ≤ get_or_else i.current_level_order 0 + 1))
unfolding assert_can_act
assert_can_act-IsApprover dir w obj actor s {i} {final} h =
    elim (Option-cases (latest_instance w obj s)) [
      | inl e ↦ ground arith
      | inr (j, e) ↦ elim (Option-cases (step_at j.id j.current_level_order s)) [
        | inl e' ↦ ground arith
        | inr (st, e') ↦
            let (o, a, c) = assert_can_act-found dir w obj actor s j st e e' h in
            let same : i ≡ j = cc in (st, rw same o, a, rw same ground arith)
      ]
    ]
