-- ===== src/Workflow/Journey.antt =====
-- A whole approval journey, from `startInstance` through the levels of the published definition.
use ccb_api.Base.{
  ℕ, suc, ◌+◌, ◌≡◌, refl, ◌≢◌, ◌∙◌, sym, ◌<◌, false, Option, none, some, List, [], ◌∷◌, ap, arith,
  ◌==◌, find, length, count_if, ◌&&◌, leb,
}
use mathlib.Core.Path.{subst, subst₂}
use ccb_api.Base.Result.{Result, ok, ◌>>=◌}
use ccb_api.Workflow.Data.{WorkflowType, Instance, Step, Level, InstanceStatus}
use ccb_api.Workflow.Store.{Store, latest_instance, level_at, is_of_definition}
use ccb_api.Workflow.Engine.{Directory, assert_can_act, record_approval, is_final, close}
use ccb_api.Workflow.Access.{IsOpen, IsApprover, context_of, assert_can_act-open}
use ccb_api.Workflow.Progress.{IsStored, record_approval-HasEnded}
use ccb_api.Workflow.Advance.{HasAdvanced, record_approval-HasAdvanced, moved, level_at_order}

-- One approval as the domain services make it: the check, then the record.
unfoldable pub approve_level : Directory → WorkflowType → ℕ → Option ℕ × ℕ → Store → Result Store
approve_level dir w obj (actor, now) s = do
  ctx ← assert_can_act dir w obj actor false s
  record_approval ctx actor none now s

-- A sequence of approvals, each by an actor at a time.
pub approve_levels : Directory → WorkflowType → ℕ → List (Option ℕ × ℕ) → Store → Result Store
unfolding approve_level
approve_levels dir w obj [] s = ok s
approve_levels dir w obj (a ∷ more) s = do
  s' ← approve_level dir w obj a s
  approve_levels dir w obj more s'

module _ (did n : ℕ) (levels : ℕ → Level) where
  -- The definition has the levels 0 to n - 1.
  pub record IsPublished (rows : List Level) : Type 0 where
    pub count : count_if (is_of_definition did) rows ≡ n
    pub each :
        (k : ℕ)
        → k < n
        → find (λ l. is_of_definition did l && (l.level_order == k)) rows ≡ some (levels k)

module _ (dir : Directory) (w : WorkflowType) (obj : ℕ) (did n : ℕ) (levels : ℕ → Level) where
  -- The object waits at the level `l` of the definition.
  pub record IsAt (l : ℕ) (s : Store) : Type 0 where
    pub stored : IsStored s
    pub published : IsPublished did n levels s.levels
    pub instance_ : Instance
    pub step : Step
    pub open_ : IsOpen w obj s instance_ step
    pub definition : instance_.definition_id ≡ did
    pub level : instance_.current_level_order ≡ some l
    pub role : step.role_id ≡ (levels l).role_id

  -- Each actor may act for the role of the level that is reached, counting from `l`.
  abbrev pub AreApprovers : ℕ → List (Option ℕ × ℕ) → Type 0
  AreApprovers l [] = Unit
  AreApprovers l (a ∷ more) = IsApprover dir a.0 (levels l).role_id × AreApprovers (suc l) more

  pub is_final-eq : (l : ℕ) (s : Store) (at : IsAt l s) → is_final at.instance_ s ≡ leb n (l + 1)
  is_final-eq l s at = rw (at.level, at.definition, at.published.count)

  pub admitted :
      (l : ℕ) (s : Store) (at : IsAt l s) (actor : Option ℕ)
      → IsApprover dir actor (levels l).role_id
      → assert_can_act dir w obj actor false s ≡ ok (context_of at.instance_ s)
  admitted l s at actor a = (assert_can_act-open dir w obj actor s at.open_).1 (rw at.role a)

  next_level :
      (l : ℕ) (s : Store) (at : IsAt l s)
      → l + 1 < n
      → level_at at.instance_.definition_id (l + 1) s ≡ some (levels (suc l))
  next_level l s at more =
      let up : suc l ≡ l + 1 = omega arith in
      subst₂ (λ d k. level_at d k s ≡ some (levels (suc l))) (sym at.definition) up
        (at.published.each (suc l) (omega arith))

  IsAt-HasAdvanced :
      (l : ℕ) (s s' : Store) (at : IsAt l s) (old : Step) (now : ℕ)
      → l + 1 < n
      → HasAdvanced w obj at.instance_ l old (levels (suc l)) now s s'
      → IsAt (suc l) s'
  IsAt-HasAdvanced l s s' at old now more h = record {
    stored = h.stored;
    published = subst (IsPublished did n levels) (sym h.same_levels) at.published;
    instance_ = moved at.instance_ (levels (suc l));
    step = h.step;
    open_ = h.open_;
    definition = at.definition;
    level = ap some (
        level_at_order at.instance_.definition_id (l + 1) s (next_level l s at more) ∙ omega arith);
    role = h.role;
  }

  pub approve_inner :
      (l : ℕ) (s : Store) (at : IsAt l s) (actor : Option ℕ) (now : ℕ)
      → IsApprover dir actor (levels l).role_id
      → l + 1 < n
      → (s' : Store) × (approve_level dir w obj (actor, now) s ≡ ok s') × IsAt (suc l) s'
  unfolding approve_level
  approve_inner l s at actor now a more =
      let (s', e, h) =
        record_approval-HasAdvanced w obj s at.instance_ at.step at.stored at.open_ l at.level
          (is_final-eq l s at ∙ ground arith) (levels (suc l)) (next_level l s at more) actor none
          now in
      (s', rw (admitted l s at actor a) e, IsAt-HasAdvanced l s s' at _ now more h)

  pub approve_last :
      (l : ℕ) (s : Store) (at : IsAt l s) (actor : Option ℕ) (now : ℕ)
      → IsApprover dir actor (levels l).role_id
      → l + 1 ≡ n
      → (s' : Store) × (approve_level dir w obj (actor, now) s ≡ ok s')
        × (latest_instance w obj s' ≡ some (close InstanceStatus.completed now at.instance_))
  unfolding approve_level
  approve_last l s at actor now a last =
      let (s', e, h) =
        record_approval-HasEnded w obj s at.stored at.open_ actor none now
          (is_final-eq l s at ∙ ground arith) in
      (s', rw (admitted l s at actor a) e, h.latest)

  -- Fewer approvals than there are levels left, each by an approver of the level reached, all
  -- succeed and move the object on by as many levels.
  pub approve_levels-IsAt :
      (actors : List (Option ℕ × ℕ)) (l : ℕ) (s : Store)
      → l + length actors < n
      → AreApprovers l actors
      → IsAt l s
      → (s' : Store) × (approve_levels dir w obj actors s ≡ ok s') × IsAt (l + length actors) s'
  unfolding approve_levels
  approve_levels-IsAt [] l s more a at = (s, refl, subst (λ k. IsAt k s) (omega arith) at)
  approve_levels-IsAt ((actor, now) ∷ actors) l s more a at =
      let (s1, e1, at1) = approve_inner l s at actor now a.0 (omega arith) in
      let (s2, e2, at2) = approve_levels-IsAt actors (suc l) s1 (omega arith) a.1 at1 in
      (s2, rw e1 e2, subst (λ k. IsAt k s2) (omega arith) at2)

  -- One approval for each level left completes the journey.
  pub approve_levels-completes :
      (actors : List (Option ℕ × ℕ)) (l : ℕ) (s : Store)
      → l + length actors ≡ n
      → actors ≢ []
      → AreApprovers l actors
      → IsAt l s
      → (s' : Store) × (i : Instance) × (approve_levels dir w obj actors s ≡ ok s')
        × (latest_instance w obj s' ≡ some i)
        × (i.status ≡ InstanceStatus.completed)
  unfolding approve_levels
  approve_levels-completes [] l s total some_left a at = absurd (some_left refl)
  approve_levels-completes ((actor, now) ∷ []) l s total some_left a at =
      let (s1, e1, at1) = approve_last l s at actor now a.0 (omega arith) in
      (s1, _, rw e1, at1, refl)
  approve_levels-completes ((actor, now) ∷ b ∷ actors) l s total some_left a at =
      let (s1, e1, at1) = approve_inner l s at actor now a.0 (omega arith) in
      let (s2, i, e2, latest, done) =
        approve_levels-completes (b ∷ actors) (suc l) s1 (omega arith) (cc) a.1 at1 in
      (s2, i, rw e1 e2, latest, done)
