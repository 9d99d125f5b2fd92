-- ===== src/Workflow/Levels.antt =====
-- When a proposed level sequence is accepted.
use ccb_api.Base.{
  ℕ, map, suc, ◌≡◌, ◌≢◌, ◌↔◌, ◌<◌, inl, inr, Bool, true, false, Option, none, some, List, [], ◌∷◌,
  ◌++◌, arith, find, All, Option-cases, ◌∙◌, sym,
}
use mathlib.Core.List.{map-append}
use ccb_api.Workflow.Data.{WorkflowType, OnBreach}
use ccb_api.Workflow.Publish.{
  Input, LevelDto, Problem, Roles, level_problems, all_level_problems, same_fingerprint,
  twin_problems, final_problems, sequence_problems, report,
}

-- An existing role, not SUPER_ADMIN, that holds an approve action of the type; a known or absent
-- department; an SLA of at least 1 in a known unit; a known behaviour on breach.
abbrev IsGoodRole : Roles → WorkflowType → Option ℕ → Type 0
IsGoodRole roles w none = ⊥
IsGoodRole roles w (some r) =
    (roles.exists_ r ≡ true) × (roles.is_super_admin r ≡ false) × (roles.is_eligible w r ≡ true)

abbrev IsGoodSla : Option ℕ → Type 0
IsGoodSla none = ⊥
IsGoodSla (some v) = 0 < v

abbrev IsKnown : {A : Type 0} → Input A → Type 0
IsKnown (Input.known a) = Unit
IsKnown _ = ⊥

abbrev pub IsAcceptable : Roles → WorkflowType → LevelDto → Type 0
IsAcceptable roles w l =
    IsGoodRole roles w l.role_id
    × (l.department ≢ Input.unknown)
    × IsGoodSla l.sla_value
    × IsKnown l.sla_unit
    × IsKnown l.on_breach

-- No level has the fingerprint of an earlier one.
abbrev IsNew : LevelDto → List LevelDto → Type 0
IsNew l earlier = All (λ e. same_fingerprint e l ≡ false) earlier

abbrev pub HasNoTwins : List LevelDto → List LevelDto → Type 0
HasNoTwins earlier [] = Unit
HasNoTwins earlier (l ∷ ls) = IsNew l earlier × HasNoTwins (earlier ++ l ∷ []) ls

abbrev pub EndsInPlace : List LevelDto → Type 0
EndsInPlace [] = Unit
EndsInPlace (l ∷ []) = l.on_breach ≢ Input.known OnBreach.escalate
EndsInPlace (l ∷ m ∷ ls) = EndsInPlace (m ∷ ls)

level_problems_iff :
    (roles : Roles) (w : WorkflowType) (at : ℕ) (l : LevelDto)
    → (level_problems roles w at l ≡ []) ↔ IsAcceptable roles w l
unfolding level_problems
level_problems_iff roles w at l = ground arith

all_level_problems_iff :
    (roles : Roles) (w : WorkflowType) (at : ℕ) (ls : List LevelDto)
    → (all_level_problems roles w at ls ≡ []) ↔ All (IsAcceptable roles w) ls
unfolding all_level_problems
all_level_problems_iff roles w at [] = ground arith
all_level_problems_iff roles w at (l ∷ ls) =
    ground (arith, level_problems_iff roles w at l, all_level_problems_iff roles w (suc at) ls)

-- `seen` lists the levels of `earlier`.
module _ (p : LevelDto → Bool) where
  pairs_find :
      (seen : List (LevelDto × ℕ))
      → (find (λ e. p e.0) seen ≡ none)
        ↔ All (λ e. p e ≡ false) (map (λ (e : LevelDto × ℕ). e.0) seen)
  pairs_find [] = ground arith
  pairs_find (e ∷ seen) = ground (arith, pairs_find seen)

twin_problems_iff :
    (seen : List (LevelDto × ℕ)) (at : ℕ) (ls : List LevelDto)
    → (twin_problems seen at ls ≡ []) ↔ HasNoTwins (map (λ (e : LevelDto × ℕ). e.0) seen) ls
unfolding twin_problems
twin_problems_iff seen at [] = ground arith
twin_problems_iff seen at (l ∷ ls) = elim (Option-cases (find (λ e. same_fingerprint e.0 l) seen)) [
  | inl e ↦
      let ih = twin_problems_iff (seen ++ (l, at) ∷ []) (suc at) ls in
      let ih' = rw (map-append) at ih in
      rw (e, twin_problems)
        (λ h. ((pairs_find (λ m. same_fingerprint m l) seen).0 e, ih'.0 h), λ h. ih'.1 h.1)
  | inr (x, e) ↦
      rw (e, twin_problems)
        (
          λ h. cc,
          λ h.
              let missed = (pairs_find (λ m. same_fingerprint m l) seen).1 h.0 in
              cc (sym missed ∙ e),
        )
]

final_problems_iff : (at : ℕ) (ls : List LevelDto) → (final_problems at ls ≡ []) ↔ EndsInPlace ls
unfolding final_problems
final_problems_iff at [] = ground arith
final_problems_iff at (l ∷ []) = ground arith
final_problems_iff at (l ∷ m ∷ ls) = ground (arith, final_problems_iff (suc at) (m ∷ ls))

report-nil_iff :
    (each twins final : List Problem)
    → (report each twins final ≡ []) ↔ ((each ≡ []) × (twins ≡ []) × (final ≡ []))
unfolding report
report-nil_iff [] [] final = ground arith
report-nil_iff [] (t ∷ twins) final = ground arith
report-nil_iff (p ∷ each) twins final = ground arith

-- A level sequence is accepted, with no problem reported, exactly when it is not empty, every level
-- names an existing role other than SUPER_ADMIN that holds an approve action of the type, a known
-- or no department, a whole SLA above zero in a known unit and a known behaviour on breach, no
-- level equals an earlier one in all fields, and the final level does not escalate.
pub sequence_problems-nil_iff :
    (roles : Roles) (w : WorkflowType) (ls : List LevelDto)
    → (sequence_problems roles w ls ≡ [])
      ↔ ((ls ≢ []) × All (IsAcceptable roles w) ls × HasNoTwins [] ls × EndsInPlace ls)
unfolding sequence_problems
sequence_problems-nil_iff roles w [] = ground arith
sequence_problems-nil_iff roles w (l ∷ ls) =
    let each = all_level_problems_iff roles w 1 (l ∷ ls) in
    let twins = twin_problems_iff [] 1 (l ∷ ls) in
    let final = final_problems_iff 1 (l ∷ ls) in
    let all =
      report-nil_iff (all_level_problems roles w 1 (l ∷ ls)) (twin_problems [] 1 (l ∷ ls))
        (final_problems 1 (l ∷ ls)) in
    (
      λ h. let (a, b, c) = all.0 h in (cc, each.0 a, twins.0 b, final.0 c),
      λ (some_level, a, b, c). all.1 (each.1 a, twins.1 b, final.1 c),
    )
