-- ===== src/Workflow/Start.antt =====
-- `startInstance`: what a submission does to the object's instances.
use ccb_api.Base.{
  ℕ, suc, ◌≡◌, refl, ◌≢◌, ◌∙◌, ◌<◌, Bool, true, Option, none, some, List, [], ◌∷◌, arith, ◌==◌,
  find, map, length, count_if, ◌&&◌, filter,
}
use ccb_api.Base.Result.{ok}
use ccb_api.Base.Rows.{find_holds, map-IsDescending}
use ccb_api.Workflow.Data.{
  WorkflowType, Instance, Level, Definition, InstanceStatus, tariff, bill_run, billing_cycle,
}
use ccb_api.Workflow.Store.{
  Store, latest_instance, is_for, is_waiting, same_type, instance_key, is_of_definition,
  is_active_definition, levels_of, sort_levels,
}
use ccb_api.Workflow.Engine.{
  Directory, start_instance, activate_level, get_active_definition, cancel_waiting, new_instance,
}
use ccb_api.Workflow.Progress.{IsStored, activate_level-IsStored}
use ccb_api.Workflow.Advance.{activated, level_at_order, latest-activate_level}
use ccb_api.Workflow.Journey.{
  IsPublished, IsAt, AreApprovers, approve_levels, approve_levels-completes,
}

abbrev head : List Level → Option Level
head [] = none
head (l ∷ ls) = some l

abbrev pub is_level : ℕ → ℕ → Level → Bool
is_level did k l = is_of_definition did l && (l.level_order == k)

-- The levels in order begin with level 0.
head-sort_levels :
    (did : ℕ) (rows : List Level) {x : Level}
    → find (is_level did 0) rows ≡ some x
    → head (sort_levels (filter (is_of_definition did) rows)) ≡ some x
head-sort_levels did [] e = cc
head-sort_levels did (r ∷ rows) {x} e =
    ground (arith, head-sort_levels did rows {x = x}, find_holds (is_level did 0) rows {x = x})

List-cases :
    (ls : List Level) {x : Level} → head ls ≡ some x → (rest : List Level) × (ls ≡ x ∷ rest)
List-cases [] e = cc
List-cases (l ∷ ls) e = (ls, ground arith)

-- The active definition of a type.
abbrev pub active_definition : WorkflowType → Store → Option Definition
active_definition w s =
    find (λ d. same_type d.workflow_type w && is_active_definition d) s.definitions

pub same_type_refl : (w : WorkflowType) → same_type w w ≡ true
same_type_refl tariff = refl
same_type_refl bill_run = refl
same_type_refl billing_cycle = refl

no_waiting :
    (w : WorkflowType) (obj now : ℕ) (rows : List Instance)
    → count_if (λ j. is_for w obj j && is_waiting j) (map (cancel_waiting w obj now) rows) ≡ 0
no_waiting w obj now [] = refl
no_waiting w obj now (r ∷ rows) = ground (arith, no_waiting w obj now rows)

cancel_waiting_id :
    (w : WorkflowType) (obj now : ℕ) (j : Instance)
    → instance_key (cancel_waiting w obj now j) ≡ instance_key j
cancel_waiting_id w obj now j = ground arith

module _ (dir : Directory) (w : WorkflowType) (obj n : ℕ) (levels : ℕ → Level) (s : Store)
    (stored : IsStored s) (d : Definition) (active : active_definition w s ≡ some d)
    (published : IsPublished d.id n levels s.levels) (some_level : 0 < n) (actor : Option ℕ)
    (now : ℕ) where
  inserted : Store
  inserted = record s {
    instances = new_instance w obj actor d.id now s ∷ map (cancel_waiting w obj now) s.instances;
    next_instance_id = suc s.next_instance_id;
  }

  inserted-IsStored : IsStored inserted
  unfolding inserted
  inserted-IsStored = record {
    instances = (
      omega arith,
      map-IsDescending instance_key (cancel_waiting w obj now) s.next_instance_id s.instances
          (cancel_waiting_id w obj now) stored.instances,
    );
    steps = stored.steps;
  }

  start_instance-eq :
      start_instance w obj actor now s ≡ activate_level s.next_instance_id (levels 0) now inserted
  unfolding start_instance inserted get_active_definition
  start_instance-eq =
      let (rest, e) =
        List-cases (levels_of d.id s)
          (head-sort_levels d.id s.levels (published.each 0 some_level)) in
      rw (active, e, start_instance, get_active_definition)

  start_instance-IsAt : IsAt dir w obj d.id n levels 0 (start_instance w obj actor now s)
  start_instance-IsAt = rw start_instance-eq (record {
    stored = activate_level-IsStored s.next_instance_id (levels 0) now inserted inserted-IsStored;
    published = unfold activate_level inserted in published;
    instance_ = new_instance w obj actor d.id now s;
    step = activated s.next_instance_id (levels 0) now inserted;
    open_ = record {
      latest =
          latest-activate_level w obj s.next_instance_id (levels 0) now inserted
          ∙ (unfold inserted in ground (arith, same_type_refl w));
      waiting = refl;
      step =
          unfold activate_level in
          ground (arith, level_at_order d.id 0 s (published.each 0 some_level));
      unacted = refl;
    };
    definition = refl;
    level = refl;
    role = refl;
  })

  start_instance-one_waiting :
      count_if (λ j. is_for w obj j && is_waiting j) (start_instance w obj actor now s).instances
      ≡ 1
  start_instance-one_waiting = rw start_instance-eq (
      unfold activate_level inserted in
      ground (arith, same_type_refl w, no_waiting w obj now s.instances))

-- In tables whose rows have descending ids, a submission of a type that has an active definition
-- with levels 0 to n - 1, n > 0, leaves the object with exactly one waiting instance, the newest:
-- it is pinned to that definition and waits at level 0, at an open step with that level's role;
-- whatever waited for the object before is cancelled.
pub start_instance-opens :
    (dir : Directory) (w : WorkflowType) (obj n : ℕ) (levels : ℕ → Level) (s : Store)
    (d : Definition)
    → IsStored s
    → active_definition w s ≡ some d
    → IsPublished d.id n levels s.levels
    → 0 < n
    → (actor : Option ℕ) (now : ℕ)
    → IsAt dir w obj d.id n levels 0 (start_instance w obj actor now s)
      × (count_if (λ j. is_for w obj j && is_waiting j) (start_instance w obj actor now s).instances
          ≡ 1)
start_instance-opens dir w obj n levels s d stored active published some_level actor now = (
  start_instance-IsAt dir w obj n levels s stored d active published some_level actor now,
  start_instance-one_waiting dir w obj n levels s stored d active published some_level actor now,
)

-- In tables whose rows have descending ids, a submission of a type with an active definition of n >
-- 0 levels, followed by n approvals, the k-th by a user who holds the role of level k and no
-- SUPER_ADMIN role, succeeds at every call, and the object's newest instance is then COMPLETED.
pub journey_completes :
    (dir : Directory) (w : WorkflowType) (obj n : ℕ) (levels : ℕ → Level) (s : Store)
    (d : Definition)
    → IsStored s
    → active_definition w s ≡ some d
    → IsPublished d.id n levels s.levels
    → (actor : Option ℕ) (now : ℕ) (approvals : List (Option ℕ × ℕ)) → length approvals ≡ n
    → approvals ≢ []
    → AreApprovers dir w obj d.id n levels 0 approvals
    → (s' : Store) × (i : Instance) × (approve_levels dir w obj approvals
          (start_instance w obj actor now s)
        ≡ ok s')
      × (latest_instance w obj s' ≡ some i)
      × (i.status ≡ InstanceStatus.completed)
journey_completes dir w obj n levels s d stored active published actor now [] total some_left are =
    absurd (some_left refl)
journey_completes dir w obj n levels s d stored active published actor now (a ∷ more) total
      some_left are =
    approve_levels-completes dir w obj d.id n levels (a ∷ more) 0 (start_instance w obj actor now s)
      (omega arith) some_left are
      (start_instance-IsAt dir w obj n levels s stored d active published (omega arith) actor now)
