-- ===== src/Tariff/Resolve.antt =====
-- `resolveForUnit`, its batched sibling `resolveForUnits` and `resolveForUnitsAsOf`: a tariff for the
-- unit before one for its property, before a global one. Of several rows that a query finds, the
-- table's first is taken.
use ccb_api.Base.{
  ℕ, Bool, true, ◌&&◌, Option, none, some, List, [], ◌∷◌, map, leb, ◌==◌, find, filter, any,
  or_else,
}
use ccb_api.Readiness.Data.{TariffAsOf}
use ccb_api.Tariff.Data.{
  Tariff, TariffUnit, State, is_active, was_in_force, is_for_units, is_for_properties, is_global,
}

abbrev pub includes_id : ℕ → List ℕ → Bool
includes_id id ids = any (λ x. x == id) ids

abbrev pub find_unit : ℕ → List TariffUnit → Option TariffUnit
find_unit uid units = find (λ u. u.id == uid) units

abbrev pub resolve_unit : List Tariff → TariffUnit → Option Tariff
resolve_unit tariffs u =
    or_else
      (find
        (λ v.
          (is_active v && is_for_units v)
          && (v.property_type == u.property_type && includes_id u.id v.unit_ids))
        tariffs)
      (or_else
        (find
          (λ v.
            (is_active v && is_for_properties v)
            && (v.property_type == u.property_type && includes_id u.property_id v.property_ids))
          tariffs)
        (find (λ v. (is_active v && is_global v) && v.property_type == u.property_type) tariffs))

unfoldable pub resolve_for_unit : State → ℕ → Option Tariff
resolve_for_unit st uid = elim (find_unit uid st.units) [
  | none ↦ none
  | some u ↦ resolve_unit st.tariffs u
]

-- The units of a batch, and the property types of all of them.
abbrev pub batch_units : State → List ℕ → List TariffUnit
batch_units st ids = filter (λ u. includes_id u.id ids) st.units

abbrev pub batch_types : State → List ℕ → List ℕ
batch_types st ids = map (λ (u : TariffUnit). u.property_type) (batch_units st ids)

-- One query for each scope, over the property types of the whole batch.
abbrev pub scoped : (Tariff → Bool) → (Tariff → Bool) → List ℕ → List Tariff → List Tariff
scoped live for_scope types tariffs =
    filter (λ v. (live v && for_scope v) && includes_id v.property_type types) tariffs

-- What the maps hold for a unit: the first version of its id, of its property and type, of its type.
abbrev pub pick : List Tariff → List Tariff → List Tariff → TariffUnit → Option Tariff
pick unit_scoped property_scoped global_scoped u =
    or_else (find (λ v. includes_id u.id v.unit_ids) unit_scoped) (
      or_else
        (find (λ v. includes_id u.property_id v.property_ids && v.property_type == u.property_type)
          property_scoped)
        (find (λ v. v.property_type == u.property_type) global_scoped))

-- The answer for a unit of the batch.
unfoldable pub resolve_for_units : State → List ℕ → ℕ → Option Tariff
resolve_for_units st ids uid =
    let types = batch_types st ids in
    elim (find_unit uid (batch_units st ids)) [
      | none ↦ none
      | some u ↦
          pick (scoped is_active is_for_units types st.tariffs)
            (scoped is_active is_for_properties types st.tariffs)
            (scoped is_active is_global types st.tariffs) u
    ]

-- A missing bound is open.
abbrev pub is_in_force_on : ℕ → Tariff → Bool
is_in_force_on date v =
    was_in_force v
    && (elim v.effective_to [ none ↦ true | some d ↦ leb date d ]
        && elim v.effective_from [ none ↦ true | some d ↦ leb d date ])

-- `resolveTier`; nothing matches at a tier that is left out.
abbrev pub resolve_tier : List Tariff → Option TariffAsOf
resolve_tier [] = none
resolve_tier (v ∷ []) = some (TariffAsOf.version v.id)
resolve_tier (v ∷ w ∷ more) = some TariffAsOf.ambiguous

abbrev pub pick_as_of : List Tariff → List Tariff → List Tariff → TariffUnit → TariffAsOf
pick_as_of unit_scoped property_scoped global_scoped u =
    elim (or_else (resolve_tier (filter (λ v. includes_id u.id v.unit_ids) unit_scoped)) (
      or_else
        (resolve_tier (
          filter
            (λ v. includes_id u.property_id v.property_ids && v.property_type == u.property_type)
            property_scoped))
        (resolve_tier (filter (λ v. v.property_type == u.property_type) global_scoped)))) [
          | none ↦ TariffAsOf.no_match
          | some answer ↦ answer
        ]

unfoldable pub resolve_for_units_as_of : State → List ℕ → ℕ → ℕ → TariffAsOf
resolve_for_units_as_of st ids date uid =
    let types = batch_types st ids in
    elim (find_unit uid (batch_units st ids)) [
      | none ↦ TariffAsOf.no_match
      | some u ↦
          pick_as_of (scoped (is_in_force_on date) is_for_units types st.tariffs)
            (scoped (is_in_force_on date) is_for_properties types st.tariffs)
            (scoped (is_in_force_on date) is_global types st.tariffs) u
    ]
