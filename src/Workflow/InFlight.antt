-- ===== src/Workflow/InFlight.antt =====
-- What a publication does to the journeys that are running.
use ccb_api.Base.{
  ℕ, suc, ◌≡◌, refl, ◌≢◌, ◌∙◌, Option, none, some, List, [], ◌∷◌, ◌++◌, arith, find, count_if,
  Option-cases, inl, inr,
}
use mathlib.Core.Path.{subst}
use ccb_api.Workflow.Data.{WorkflowType, Level}
use ccb_api.Workflow.Store.{Store, is_of_definition, step_at}
use ccb_api.Workflow.Publish.{
  LevelDto, Roles, to_level, create_levels, write_version, publish_new_version, published,
}
use ccb_api.Workflow.Engine.{Directory}
use ccb_api.Workflow.Journey.{IsAt}
use ccb_api.Workflow.Start.{is_level}
use ccb_api.Workflow.Versions.{publish_new_version-cases, to_level_fields}

find-append_ne :
    (did k n order : ℕ) (ls : List LevelDto) (rest : List Level)
    → did ≢ n
    → find (is_level did k) (create_levels n order ls ++ rest) ≡ find (is_level did k) rest
unfolding create_levels
find-append_ne did k n order [] rest h = refl
find-append_ne did k n order (l ∷ ls) rest h = elim (Option-cases (to_level n order l)) [
  | inl e ↦ rw (e, create_levels) (find-append_ne did k n (suc order) ls rest h)
  | inr (x, e) ↦
      rw (e, create_levels)
        (ground (arith, to_level_fields n order l e, find-append_ne did k n (suc order) ls rest h))
]

count-append_ne :
    (did n order : ℕ) (ls : List LevelDto) (rest : List Level)
    → did ≢ n
    → count_if (is_of_definition did) (create_levels n order ls ++ rest)
      ≡ count_if (is_of_definition did) rest
unfolding create_levels
count-append_ne did n order [] rest h = refl
count-append_ne did n order (l ∷ ls) rest h = elim (Option-cases (to_level n order l)) [
  | inl e ↦ rw (e, create_levels) (count-append_ne did n (suc order) ls rest h)
  | inr (x, e) ↦
      rw (e, create_levels)
        (ground (arith, to_level_fields n order l e, count-append_ne did n (suc order) ls rest h))
]

step_at-write_version :
    (v : WorkflowType) (ls : List LevelDto) (actor : Option ℕ) (s : Store) (iid : ℕ) (l : Option ℕ)
    → step_at iid l (write_version v ls actor s) ≡ step_at iid l s
unfolding write_version
step_at-write_version v ls actor s iid none = refl
step_at-write_version v ls actor s iid (some l) = refl

write_version-IsAt :
    (dir : Directory) (w v : WorkflowType) (obj did n : ℕ) (levels : ℕ → Level) (l : ℕ)
    (ls : List LevelDto) (actor : Option ℕ) (s : Store)
    → did ≢ s.next_definition_id
    → IsAt dir w obj did n levels l s
    → IsAt dir w obj did n levels l (write_version v ls actor s)
unfolding write_version
write_version-IsAt dir w v obj did n levels l ls actor s old at = record {
  stored = record { instances = at.stored.instances; steps = at.stored.steps };
  published = record {
    count = count-append_ne did s.next_definition_id 0 ls s.levels old ∙ at.published.count;
    each = λ k less.
        find-append_ne did k s.next_definition_id 0 ls s.levels old ∙ at.published.each k less;
  };
  instance_ = at.instance_;
  step = at.step;
  open_ = record {
    latest = at.open_.latest;
    waiting = at.open_.waiting;
    step =
        step_at-write_version v ls actor s at.instance_.id at.instance_.current_level_order
        ∙ at.open_.step;
    unacted = at.open_.unacted;
  };
  definition = at.definition;
  level = at.level;
  role = at.role;
}

-- A publication of a new version, of any type, that is accepted leaves a running journey under a
-- definition with another id than the new one's where it is: at the same level of the definition
-- that it was started under, with that definition's levels as they were.
pub publish_new_version-IsAt :
    (dir : Directory) (roles : Roles) (w v : WorkflowType) (obj did n : ℕ) (levels : ℕ → Level)
    (l : ℕ) (ls : List LevelDto) (actor : Option ℕ) (s s' : Store)
    → did ≢ s.next_definition_id
    → IsAt dir w obj did n levels l s
    → publish_new_version roles v ls actor s ≡ published s'
    → IsAt dir w obj did n levels l s'
publish_new_version-IsAt dir roles w v obj did n levels l ls actor s s' old at h =
    subst (IsAt dir w obj did n levels l) (publish_new_version-cases roles v ls actor s s' h).1
      (write_version-IsAt dir w v obj did n levels l ls actor s old at)
