-- ===== src/Workflow/Versions.antt =====
-- What a publication does to the definitions, the levels and the running journeys.
use ccb_api.Base.{
  ℕ, zero, suc, ◌+◌, ◌≡◌, refl, ◌≢◌, ◌≤◌, ◌<◌, Bool, true, false, Option, none, some, List, [], ◌∷◌,
  ◌++◌, arith, find, All, count_if, length, ◌&&◌, Option-cases, inl, inr,
}
use mathlib.Core.Path.{subst}
use ccb_api.Workflow.Data.{WorkflowType, Level, Definition}
use ccb_api.Workflow.Store.{Store, same_type, is_active_definition, is_of_definition}
use ccb_api.Workflow.Publish.{
  Input, LevelDto, Roles, new_version, to_level, create_levels, max_version, archive_active,
  write_version, publish_new_version, published, sequence_problems,
}
use ccb_api.Workflow.Levels.{IsAcceptable, sequence_problems-nil_iff}
use ccb_api.Workflow.Journey.{IsPublished}
use ccb_api.Workflow.Start.{active_definition, is_level, same_type_refl}

-- The row at a position, or the fallback behind the end.
abbrev pub get_or : List Level → ℕ → Level → Level
get_or [] k d = d
get_or (l ∷ ls) zero d = l
get_or (l ∷ ls) (suc k) d = get_or ls k d

-- The levels that a publication creates, by their order.
abbrev pub published_levels : ℕ → List LevelDto → Level → ℕ → Level
published_levels did ls d k = get_or (create_levels did 0 ls) k d

to_level-ne-none :
    (roles : Roles) (w : WorkflowType) (did order : ℕ) (l : LevelDto)
    → IsAcceptable roles w l
    → to_level did order l ≢ none
unfolding to_level
to_level-ne-none roles w did order l h = ground arith

pub to_level_fields :
    (did order : ℕ) (l : LevelDto) {x : Level}
    → to_level did order l ≡ some x
    → (x.definition_id ≡ did) × (x.level_order ≡ order)
unfolding to_level
to_level_fields did order l e = ground arith

to_level_acceptable :
    (roles : Roles) (w : WorkflowType) (did order : ℕ) (l : LevelDto)
    → IsAcceptable roles w l
    → (x : Level) × (to_level did order l ≡ some x)
      × (x.definition_id ≡ did)
      × (x.level_order ≡ order)
to_level_acceptable roles w did order l h = elim (Option-cases (to_level did order l)) [
  | inl e ↦ absurd (to_level-ne-none roles w did order l h e)
  | inr (x, e) ↦ (x, e, (to_level_fields did order l e).0, (to_level_fields did order l e).1)
]

module _ (roles : Roles) (w : WorkflowType) (did : ℕ) (rest : List Level) (fallback : Level)
    (fresh : All (λ l. is_of_definition did l ≡ false) rest) where
  count_fresh :
      (rows : List Level)
      → All (λ l. is_of_definition did l ≡ false) rows
      → count_if (is_of_definition did) rows ≡ 0
  count_fresh [] h = refl
  count_fresh (r ∷ rows) h = ground (arith, count_fresh rows h.1)

  count-create_levels :
      (order : ℕ) (ls : List LevelDto)
      → All (IsAcceptable roles w) ls
      → count_if (is_of_definition did) (create_levels did order ls ++ rest) ≡ length ls
  unfolding create_levels
  count-create_levels order [] h = count_fresh rest fresh
  count-create_levels order (l ∷ ls) h =
      let (x, e, d, o) = to_level_acceptable roles w did order l h.0 in
      rw (e, create_levels) (ground (arith, count-create_levels (suc order) ls h.1))

  find-create_levels :
      (order : ℕ) (ls : List LevelDto) (k : ℕ)
      → All (IsAcceptable roles w) ls
      → k < length ls
      → find (is_level did (order + k)) (create_levels did order ls ++ rest)
        ≡ some (get_or (create_levels did order ls) k fallback)
  unfolding create_levels
  find-create_levels order [] k h less = elim less [ ]
  find-create_levels order (l ∷ ls) zero h less =
      let (x, e, d, o) = to_level_acceptable roles w did order l h.0 in
      rw (e, create_levels) (ground arith)
  find-create_levels order (l ∷ ls) (suc k) h less =
      let (x, e, d, o) = to_level_acceptable roles w did order l h.0 in
      let ih = find-create_levels (suc order) ls k h.1 (omega arith) in
      let shift : suc order + k ≡ order + suc k = omega arith in
      rw (e, create_levels)
        (ground (
          arith,
          subst
              (λ m.
                find (is_level did m) (create_levels did (suc order) ls ++ rest)
                ≡ some (get_or (create_levels did (suc order) ls) k fallback))
              shift ih,
        ))

-- A row has the role, the department, the SLA and the reaction of a proposed level.
abbrev pub IsLevelOf : LevelDto → Level → Type 0
IsLevelOf l x =
    (l.role_id ≡ some x.role_id)
    × (l.sla_value ≡ some x.sla_value)
    × (l.sla_unit ≡ Input.known x.sla_unit)
    × (l.on_breach ≡ Input.known x.on_breach)
    × elim l.department [ Input.known d ↦ x.department ≡ some d | _ ↦ x.department ≡ none ]

-- Each of the proposed levels has its row, under the next order.
abbrev pub AreStored : ℕ → ℕ → List LevelDto → List Level → Type 0
AreStored did order [] rows = Unit {0}
AreStored did order (l ∷ ls) rows =
    ((x : Level) × (find (is_level did order) rows ≡ some x) × IsLevelOf l x)
    × AreStored did (suc order) ls rows

to_level-IsLevelOf :
    (did order : ℕ) (l : LevelDto) {x : Level} → to_level did order l ≡ some x → IsLevelOf l x
unfolding to_level
to_level-IsLevelOf did order l e = ground arith

AreStored-cons :
    (did order : ℕ) (ls : List LevelDto) (x : Level) (rows : List Level)
    → x.level_order < order
    → AreStored did order ls rows
    → AreStored did order ls (x ∷ rows)
AreStored-cons did order [] x rows below h = tt
AreStored-cons did order (l ∷ ls) x rows below h =
    let (y, found, level_of) = h.0 in
    (
      (y, ground (arith, found), level_of),
      AreStored-cons did (suc order) ls x rows (omega arith) h.1,
    )

create_levels-AreStored :
    (roles : Roles) (w : WorkflowType) (did order : ℕ) (ls : List LevelDto) (rest : List Level)
    → All (IsAcceptable roles w) ls
    → AreStored did order ls (create_levels did order ls ++ rest)
unfolding create_levels
create_levels-AreStored roles w did order [] rest h = tt
create_levels-AreStored roles w did order (l ∷ ls) rest h =
    let (x, e, d, o) = to_level_acceptable roles w did order l h.0 in
    let rows = create_levels did (suc order) ls ++ rest in
    rw (e, create_levels)
      (
        (x, ground arith, to_level-IsLevelOf did order l e),
        AreStored-cons did (suc order) ls x rows (omega arith)
            (create_levels-AreStored roles w did (suc order) ls rest h.1),
      )

-- An active definition of the type.
abbrev pub is_active_of : WorkflowType → Definition → Bool
is_active_of w d = same_type d.workflow_type w && is_active_definition d

archive_active-count :
    (w : WorkflowType) (ds : List Definition)
    → count_if (is_active_of w) ds ≤ 1
    → count_if (is_active_of w) (archive_active w ds) ≡ 0
unfolding archive_active
archive_active-count w [] h = refl
archive_active-count w (d ∷ ds) h = ground (arith, archive_active-count w ds)

versions_at_most :
    (w : WorkflowType) (m : ℕ) (ds : List Definition)
    → max_version w ds ≤ m
    → All (λ d. same_type d.workflow_type w ≡ true → d.version ≤ m) ds
unfolding max_version
versions_at_most w m [] h = tt
versions_at_most w m (d ∷ ds) h = (λ same. ground arith, versions_at_most w m ds (ground arith))

write_version_active :
    (w : WorkflowType) (ls : List LevelDto) (actor : Option ℕ) (s : Store)
    → count_if (is_active_of w) s.definitions ≤ 1
    → (d : Definition) × (active_definition w (write_version w ls actor s) ≡ some d)
      × (d.id ≡ s.next_definition_id)
      × (d.version ≡ suc (max_version w s.definitions))
      × (count_if (is_active_of w) (write_version w ls actor s).definitions ≡ 1)
unfolding write_version
write_version_active w ls actor s h = (
  new_version w actor s,
  ground (arith, same_type_refl w),
  refl,
  refl,
  ground (arith, same_type_refl w, archive_active-count w s.definitions h),
)

-- The rows of the levels table refer to definitions that exist.
abbrev pub HasOldLevels : Store → Type 0
HasOldLevels s = All (λ l. l.definition_id < s.next_definition_id) s.levels

old-is_of_definition :
    (did : ℕ) (rows : List Level)
    → All (λ l. l.definition_id < did) rows
    → All (λ l. is_of_definition did l ≡ false) rows
old-is_of_definition did [] h = tt
old-is_of_definition did (r ∷ rows) h = (ground arith, old-is_of_definition did rows h.1)

write_version-IsPublished :
    (roles : Roles) (w : WorkflowType) (ls : List LevelDto) (actor : Option ℕ) (s : Store)
    (fallback : Level)
    → All (IsAcceptable roles w) ls
    → HasOldLevels s
    → IsPublished s.next_definition_id
        (length ls)
        (published_levels s.next_definition_id ls fallback)
        (write_version w ls actor s).levels
unfolding write_version
write_version-IsPublished roles w ls actor s fallback good old =
    let did = s.next_definition_id in
    let fresh = old-is_of_definition did s.levels old in
    record {
      count = count-create_levels roles w did s.levels fallback fresh 0 ls good;
      each = λ k less.
          subst
            (λ m.
              find (is_level did m) (create_levels did 0 ls ++ s.levels)
              ≡ some (get_or (create_levels did 0 ls) k fallback))
            (omega arith) (find-create_levels roles w did s.levels fallback fresh 0 ls k good less);
    }

pub publish_new_version-cases :
    (roles : Roles) (w : WorkflowType) (ls : List LevelDto) (actor : Option ℕ) (s s' : Store)
    → publish_new_version roles w ls actor s ≡ published s'
    → (sequence_problems roles w ls ≡ []) × (write_version w ls actor s ≡ s')
unfolding publish_new_version
publish_new_version-cases roles w ls actor s s' h = ground arith

-- The new version is the type's only active definition, with a number above the earlier ones and
-- the proposed levels; the running instances are untouched.
pub record HasPublished (w : WorkflowType) (ls : List LevelDto) (fallback : Level) (s s' : Store)
    : Type 0 where
  pub version : Definition
  pub active : active_definition w s' ≡ some version
  pub only : count_if (is_active_of w) s'.definitions ≡ 1
  pub next : version.version ≡ suc (max_version w s.definitions)
  pub above :
      All (λ e. same_type e.workflow_type w ≡ true → e.version < version.version) s.definitions
  pub levels :
      IsPublished version.id (length ls) (published_levels version.id ls fallback) s'.levels
  pub proposed : AreStored version.id 0 ls s'.levels
  pub instances : s'.instances ≡ s.instances
  pub steps : s'.steps ≡ s.steps

versions_below :
    (w : WorkflowType) (m : ℕ) (ds : List Definition)
    → All (λ d. same_type d.workflow_type w ≡ true → d.version ≤ m) ds
    → All (λ d. same_type d.workflow_type w ≡ true → d.version < suc m) ds
versions_below w m [] h = tt
versions_below w m (d ∷ ds) h = (λ same. omega (arith, h.0 same), versions_below w m ds h.1)

write_version-HasPublished :
    (roles : Roles) (w : WorkflowType) (ls : List LevelDto) (actor : Option ℕ) (s : Store)
    (fallback : Level)
    → count_if (is_active_of w) s.definitions ≤ 1
    → HasOldLevels s
    → All (IsAcceptable roles w) ls
    → HasPublished w ls fallback s (write_version w ls actor s)
write_version-HasPublished roles w ls actor s fallback one old good =
    let (d, active, id, version, only) = write_version_active w ls actor s one in
    let levels = write_version-IsPublished roles w ls actor s fallback good old in
    record {
      version = d;
      active = active;
      only = only;
      next = version;
      above = rw version (
          versions_below w (max_version w s.definitions) s.definitions
            (versions_at_most w (max_version w s.definitions) s.definitions (omega arith)));
      levels = rw id levels;
      proposed = rw id (
          unfold write_version in
          create_levels-AreStored roles w s.next_definition_id 0 ls s.levels good);
      instances = unfold write_version in refl;
      steps = unfold write_version in refl;
    }

-- A publication that is accepted, over a table with at most one active version of the type and
-- levels of existing definitions only, makes the new version the type's only active definition; its
-- number is one more than the highest before and above every earlier version of the type; it has as
-- many levels as were proposed, numbered from 0, each with the role, department, SLA and reaction
-- to a breach of the proposed one; and no instance or step changes.
pub publish_new_version-HasPublished :
    (roles : Roles) (w : WorkflowType) (ls : List LevelDto) (actor : Option ℕ) (s s' : Store)
    (fallback : Level)
    → count_if (is_active_of w) s.definitions ≤ 1
    → HasOldLevels s
    → publish_new_version roles w ls actor s ≡ published s'
    → HasPublished w ls fallback s s'
publish_new_version-HasPublished roles w ls actor s s' fallback one old h =
    let (accepted, written) = publish_new_version-cases roles w ls actor s s' h in
    let (nonempty, good, twins, final) = (sequence_problems-nil_iff roles w ls).0 accepted in
    subst (HasPublished w ls fallback s) written
      (write_version-HasPublished roles w ls actor s fallback one old good)
