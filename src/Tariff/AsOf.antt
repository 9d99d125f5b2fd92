-- ===== src/Tariff/AsOf.antt =====
-- What the resolution as of a date answers for a unit: the version of the first scope that has one.
use ccb_api.Base.{
  ℕ, ◌≡◌, refl, sym, ◌∙◌, Bool, true, ◌&&◌, none, some, List, [], ◌∷◌, ◌==◌, filter, or_else,
}
use ccb_api.Base.Rows.{filter-filter, filter_ext}
use ccb_api.Readiness.Data.{TariffAsOf}
use ccb_api.Tariff.Data.{
  TariffApplicability, Tariff, TariffUnit, State, is_for_units, is_for_properties, is_global,
}
use ccb_api.Tariff.Uniform.{IsUniform, regroup, find_unit-batch, batch_types-uniform, scoped_row}
use ccb_api.Tariff.Resolve.{
  includes_id, find_unit, batch_units, batch_types, scoped, is_in_force_on, resolve_tier,
  pick_as_of, resolve_for_units_as_of,
}

-- A version lists a unit, or the unit's property, or is for all.
abbrev pub lists_unit : TariffApplicability → TariffUnit → Tariff → Bool
lists_unit TariffApplicability.unit u v = includes_id u.id v.unit_ids
lists_unit TariffApplicability.property u v = includes_id u.property_id v.property_ids
lists_unit TariffApplicability.global u v = true

abbrev pub has_scope : TariffApplicability → Tariff → Bool
has_scope TariffApplicability.unit v = is_for_units v
has_scope TariffApplicability.property v = is_for_properties v
has_scope TariffApplicability.global v = is_global v

-- The versions of a scope that are in force on a date, of a unit's type, and list the unit.
abbrev pub versions_at : State → ℕ → TariffUnit → TariffApplicability → List Tariff
versions_at st date u scope =
    filter
      (λ v.
        (is_in_force_on date v && has_scope scope v)
        && (v.property_type == u.property_type && lists_unit scope u v))
      st.tariffs

-- No narrower scope has such a version.
abbrev pub IsFirstScope : State → ℕ → TariffUnit → TariffApplicability → Type 0
IsFirstScope st date u TariffApplicability.unit = Unit {0}
IsFirstScope st date u TariffApplicability.property =
    versions_at st date u TariffApplicability.unit ≡ []
IsFirstScope st date u TariffApplicability.global =
    (versions_at st date u TariffApplicability.unit ≡ [])
    × (versions_at st date u TariffApplicability.property ≡ [])

pub data IsAnswerAsOf (st : State) (date : ℕ) (u : TariffUnit) : TariffAsOf → Type 0 where
  uncovered :
      IsFirstScope st date u TariffApplicability.global
      → versions_at st date u TariffApplicability.global ≡ []
      → IsAnswerAsOf st date u TariffAsOf.no_match
  sole :
      (scope : TariffApplicability) (v : Tariff)
      → IsFirstScope st date u scope
      → versions_at st date u scope ≡ v ∷ []
      → IsAnswerAsOf st date u (TariffAsOf.version v.id)
  overlapping :
      (scope : TariffApplicability) (v w : Tariff) (more : List Tariff)
      → IsFirstScope st date u scope
      → versions_at st date u scope ≡ v ∷ w ∷ more
      → IsAnswerAsOf st date u TariffAsOf.ambiguous

conclude_as_of : List Tariff → List Tariff → List Tariff → TariffAsOf
conclude_as_of a b c = elim (or_else (resolve_tier a) (or_else (resolve_tier b) (resolve_tier c))) [
  | none ↦ TariffAsOf.no_match
  | some answer ↦ answer
]

conclude_as_of-IsAnswerAsOf :
    (st : State) (date : ℕ) (u : TariffUnit) (a b c : List Tariff)
    → versions_at st date u TariffApplicability.unit ≡ a
    → versions_at st date u TariffApplicability.property ≡ b
    → versions_at st date u TariffApplicability.global ≡ c
    → IsAnswerAsOf st date u (conclude_as_of a b c)
unfolding conclude_as_of
conclude_as_of-IsAnswerAsOf st date u (v ∷ []) b c p q r = sole TariffApplicability.unit v tt p
conclude_as_of-IsAnswerAsOf st date u (v ∷ w ∷ more) b c p q r =
    overlapping TariffApplicability.unit v w more tt p
conclude_as_of-IsAnswerAsOf st date u [] (v ∷ []) c p q r = sole TariffApplicability.property v p q
conclude_as_of-IsAnswerAsOf st date u [] (v ∷ w ∷ more) c p q r =
    overlapping TariffApplicability.property v w more p q
conclude_as_of-IsAnswerAsOf st date u [] [] (v ∷ []) p q r =
    sole TariffApplicability.global v (p, q) r
conclude_as_of-IsAnswerAsOf st date u [] [] (v ∷ w ∷ more) p q r =
    overlapping TariffApplicability.global v w more (p, q) r
conclude_as_of-IsAnswerAsOf st date u [] [] [] p q r = uncovered (p, q) r

module _ (st : State) (types : List ℕ) (date : ℕ) (u : TariffUnit)
    (one : (t : ℕ) → includes_id t types ≡ (t == u.property_type)) where
  -- What a tier keeps of the batch's query are the versions of its scope.
  filter-scoped :
      (scope : TariffApplicability) (p : Tariff → Bool)
      → ((v : Tariff)
          → ((v.property_type == u.property_type) && p v)
            ≡ ((v.property_type == u.property_type) && lists_unit scope u v))
      → versions_at st date u scope
        ≡ filter p (scoped (is_in_force_on date) (has_scope scope) types st.tariffs)
  filter-scoped scope p h = sym (
      filter-filter p
        (λ v. (is_in_force_on date v && has_scope scope v) && includes_id v.property_type types)
        st.tariffs
      ∙ filter_ext _ _ st.tariffs (
          scoped_row types u.property_type one (is_in_force_on date) (has_scope scope) p
            (λ v. v.property_type == u.property_type && lists_unit scope u v) h))

  pick_as_of-IsAnswerAsOf : IsAnswerAsOf st date u (
      pick_as_of
        (scoped (is_in_force_on date) is_for_units types st.tariffs)
        (scoped (is_in_force_on date) is_for_properties types st.tariffs)
        (scoped (is_in_force_on date) is_global types st.tariffs)
        u)
  unfolding conclude_as_of
  pick_as_of-IsAnswerAsOf =
      conclude_as_of-IsAnswerAsOf st date u _ _ _
        (filter-scoped TariffApplicability.unit (λ v. includes_id u.id v.unit_ids) (λ v. refl))
        (filter-scoped TariffApplicability.property
          (λ v. includes_id u.property_id v.property_ids && v.property_type == u.property_type)
          (λ v.
            regroup (v.property_type == u.property_type)
              (includes_id u.property_id v.property_ids)))
        (filter-scoped TariffApplicability.global (λ v. v.property_type == u.property_type)
          (λ v. regroup (v.property_type == u.property_type) true))

-- For a unit of a batch whose units are all of one property type, in the order unit, property, all:
-- the resolution as of a date looks at the first scope with versions in force on that date that are
-- of the unit's type and list it; it answers the version if there is one, that the date is
-- ambiguous if there are several, and that nothing matches if no scope has any.
pub resolve_for_units_as_of-IsAnswerAsOf :
    (st : State) (ids : List ℕ) (date type : ℕ) (u : TariffUnit)
    → IsUniform st ids type
    → includes_id u.id ids ≡ true
    → find_unit u.id st.units ≡ some u
    → IsAnswerAsOf st date u (resolve_for_units_as_of st ids date u.id)
unfolding resolve_for_units_as_of
resolve_for_units_as_of-IsAnswerAsOf st ids date type u uniform listed there =
    let found : find_unit u.id (batch_units st ids) ≡ some u =
      find_unit-batch st ids u.id listed ∙ there in
    rw (found, resolve_for_units_as_of)
      (pick_as_of-IsAnswerAsOf st (batch_types st ids) date u
        (λ t. batch_types-uniform type t (batch_units st ids) u.id uniform found))
