-- ===== src/Tariff/Batch.antt =====
-- The batched resolution gives each unit of one property type the tariff that it has by itself.
use ccb_api.Base.{
  ℕ, ◌≡◌, refl, ◌∙◌, Bool, true, ◌&&◌, Option, none, some, List, arith, ◌==◌, find, or_else,
  Option-cases, inl, inr,
}
use ccb_api.Base.Rows.{find-filter, find_congr}
use ccb_api.Tariff.Data.{
  Tariff, TariffUnit, State, is_active, is_for_units, is_for_properties, is_global,
}
use ccb_api.Tariff.Uniform.{
  IsUniform, regroup, idem, find_unit-batch, batch_types-uniform, scoped_row,
}
use ccb_api.Tariff.Resolve.{
  includes_id, find_unit, resolve_unit, resolve_for_unit, batch_units, batch_types, scoped, pick,
  resolve_for_units,
}

or_else_congr :
    {a a' b b' c c' : Option Tariff}
    → a ≡ a'
    → b ≡ b'
    → c ≡ c'
    → or_else a (or_else b c) ≡ or_else a' (or_else b' c')
or_else_congr p q r = cc

module _ (tariffs : List Tariff) (types : List ℕ) (u : TariffUnit)
    (one : (t : ℕ) → includes_id t types ≡ (t == u.property_type)) where
  -- A search in the rows of the batch's query is one in all rows.
  find-scoped :
      (for_scope : Tariff → Bool) (p q : Tariff → Bool)
      → ((v : Tariff) → ((v.property_type == u.property_type) && p v) ≡ q v)
      → find p (scoped is_active for_scope types tariffs)
        ≡ find (λ v. (is_active v && for_scope v) && q v) tariffs
  find-scoped for_scope p q h =
      find-filter p (λ v. (is_active v && for_scope v) && includes_id v.property_type types) tariffs
      ∙ find_congr (λ v. ((is_active v && for_scope v) && includes_id v.property_type types) && p v)
          (λ v. (is_active v && for_scope v) && q v) tariffs
          (scoped_row types u.property_type one is_active for_scope p q h)

  pick-resolve_unit :
      pick
        (scoped is_active is_for_units types tariffs)
        (scoped is_active is_for_properties types tariffs)
        (scoped is_active is_global types tariffs)
        u
      ≡ resolve_unit tariffs u
  pick-resolve_unit =
      or_else_congr
        (find-scoped is_for_units (λ v. includes_id u.id v.unit_ids)
          (λ v. v.property_type == u.property_type && includes_id u.id v.unit_ids) (λ v. refl))
        (find-scoped is_for_properties
          (λ v. includes_id u.property_id v.property_ids && v.property_type == u.property_type)
          (λ v. v.property_type == u.property_type && includes_id u.property_id v.property_ids)
          (λ v.
            regroup (v.property_type == u.property_type)
              (includes_id u.property_id v.property_ids)))
        (find-scoped is_global (λ v. v.property_type == u.property_type)
          (λ v. v.property_type == u.property_type)
          (λ v. idem (v.property_type == u.property_type)))

-- For a batch whose units are all of one property type, the batched resolution gives each unit of
-- the batch the tariff that resolveForUnit gives it.
pub resolve_for_units-eq :
    (st : State) (ids : List ℕ) (uid type : ℕ)
    → IsUniform st ids type
    → includes_id uid ids ≡ true
    → resolve_for_units st ids uid ≡ resolve_for_unit st uid
unfolding resolve_for_units resolve_for_unit
resolve_for_units-eq st ids uid type uniform listed =
    let there = find_unit-batch st ids uid listed in
    elim (Option-cases (find_unit uid st.units)) [
      | inl e ↦
          let gone : find_unit uid (batch_units st ids) ≡ none = there ∙ e in ground (arith, gone)
      | inr (u, e) ↦
          let found : find_unit uid (batch_units st ids) ≡ some u = there ∙ e in
          let same =
            pick-resolve_unit st.tariffs (batch_types st ids) u
              (λ t. batch_types-uniform type t (batch_units st ids) uid uniform found) in
          ground (arith, found, e, same)
    ]
