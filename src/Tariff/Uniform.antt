-- ===== src/Tariff/Uniform.antt =====
-- Batches whose units are of one property type: what their queries find.
use ccb_api.Base.{
  ℕ, ◌≡◌, refl, ap, ◌∙◌, Bool, true, false, ◌&&◌, some, List, [], ◌∷◌, map, arith, ◌==◌, All, inl,
  inr, Bool-cases,
}
use mathlib.Core.Path.{subst}
use ccb_api.Base.Rows.{find-filter, find_congr, find-All}
use ccb_api.Tariff.Data.{Tariff, TariffUnit, State}
use ccb_api.Tariff.Resolve.{includes_id, find_unit, batch_units}

-- The units of the batch are all of one property type.
abbrev pub IsUniform : State → List ℕ → ℕ → Type 0
IsUniform st ids type = All (λ (u : TariffUnit). u.property_type ≡ type) (batch_units st ids)

and_assoc : (a b c : Bool) → ((a && b) && c) ≡ (a && (b && c))
and_assoc true b c = refl
and_assoc false b c = refl

pub regroup : (a b : Bool) → (a && (b && a)) ≡ (a && b)
regroup true true = refl
regroup true false = refl
regroup false b = refl

pub idem : (a : Bool) → (a && a) ≡ a
idem true = refl
idem false = refl

pub find_unit-batch :
    (st : State) (ids : List ℕ) (uid : ℕ)
    → includes_id uid ids ≡ true
    → find_unit uid (batch_units st ids) ≡ find_unit uid st.units
find_unit-batch st ids uid h =
    find-filter (λ (u : TariffUnit). u.id == uid) (λ u. includes_id u.id ids) st.units
    ∙ find_congr (λ (u : TariffUnit). includes_id u.id ids && u.id == uid) (λ u. u.id == uid)
        st.units
        (λ u. elim (Bool-cases (u.id == uid)) [
          | inl e ↦
              let listed : includes_id u.id ids ≡ true =
                subst (λ k. includes_id k ids ≡ true) (ground arith) h in
              ground (arith, listed)
          | inr e ↦ ground arith
        ])

includes-uniform :
    (type t : ℕ) (v : TariffUnit) (us : List TariffUnit)
    → All (λ (w : TariffUnit). w.property_type ≡ type) (v ∷ us)
    → includes_id t (map (λ (w : TariffUnit). w.property_type) (v ∷ us)) ≡ (t == type)
includes-uniform type t v [] h = ground (arith, h.0)
includes-uniform type t v (w ∷ us) h = ground (arith, h.0, includes-uniform type t w us h.1)

-- The types of a uniform batch that has a unit are that one type.
pub batch_types-uniform :
    (type t : ℕ) (us : List TariffUnit) (uid : ℕ) {u : TariffUnit}
    → All (λ (w : TariffUnit). w.property_type ≡ type) us
    → find_unit uid us ≡ some u
    → includes_id t (map (λ (w : TariffUnit). w.property_type) us) ≡ (t == u.property_type)
batch_types-uniform type t [] uid h e = absurd (ground arith)
batch_types-uniform type t (v ∷ us) uid {u} h e =
    let same : u.property_type ≡ type =
      find-All (λ (w : TariffUnit). w.property_type ≡ type) (λ (w : TariffUnit). w.id == uid)
        (v ∷ us) e h in
    rw same (includes-uniform type t v us h)

-- A row of one scope in the query of a batch of one type, which a condition selects.
pub scoped_row :
    (types : List ℕ) (type : ℕ)
    → ((t : ℕ) → includes_id t types ≡ (t == type))
    → (live for_scope p q : Tariff → Bool)
    → ((v : Tariff) → ((v.property_type == type) && p v) ≡ q v)
    → (v : Tariff)
    → (((live v && for_scope v) && includes_id v.property_type types) && p v)
      ≡ ((live v && for_scope v) && q v)
scoped_row types type one live for_scope p q h v =
    and_assoc (live v && for_scope v) (includes_id v.property_type types) (p v)
    ∙ ap (λ b. (live v && for_scope v) && b) (ap (λ c. c && p v) (one v.property_type) ∙ h v)
