-- ===== src/Tariff/Tiers.antt =====
-- assertTiersValid, which `create` and `update` call: the tiers in the order of their minimum, and the
-- refusal of open tiers before the last and of tiers that overlap.
use ccb_api.Base.{
  if◌then◌else◌, ℕ, suc, Bool, true, false, Option, none, some, List, [], ◌∷◌, ◌&&◌, not, leb, ltb,
  is_some,
}
use ccb_api.Base.Result.{Part, lit, num, HttpError, bad_request, Result, ok, ◌>>◌, throw_if}

-- A row of the request; minima and maxima are in kWh.
pub record TariffTierDto : Type 0 where
  pub min_kwh : ℕ
  pub max_kwh : Option ℕ
  pub rate_per_kwh : ℕ

-- `[...tiers].sort((a, b) => a.minKwh - b.minKwh)`
abbrev pub insert_tier : TariffTierDto → List TariffTierDto → List TariffTierDto
insert_tier t [] = t ∷ []
insert_tier t (u ∷ us) = if leb t.min_kwh u.min_kwh then t ∷ u ∷ us else u ∷ insert_tier t us

abbrev pub sort_tiers : List TariffTierDto → List TariffTierDto
sort_tiers [] = []
sort_tiers (t ∷ ts) = insert_tier t (sort_tiers ts)

abbrev pub is_last : List TariffTierDto → Bool
is_last [] = true
is_last (t ∷ ts) = false

abbrev pub upper_bound : Option ℕ → Part
upper_bound none = lit "∞"
upper_bound (some m) = num m

abbrev pub max_or_zero : TariffTierDto → ℕ
max_or_zero t = elim t.max_kwh [ none ↦ 0 | some m ↦ m ]

abbrev pub open_tier : ℕ → TariffTierDto → HttpError
open_tier index t = bad_request (
    lit "Tier "
    ∷ num (suc index)
    ∷ lit " ("
    ∷ num t.min_kwh
    ∷ lit "–"
    ∷ upper_bound t.max_kwh
    ∷ lit " kWh) must have a maximum — only the last tier may be open-ended."
    ∷ [])

abbrev pub overlapping_tier : ℕ → TariffTierDto → TariffTierDto → HttpError
overlapping_tier index previous t = bad_request (
    lit "Tier "
    ∷ num (suc index)
    ∷ lit "'s minimum ("
    ∷ num t.min_kwh
    ∷ lit " kWh) overlaps tier "
    ∷ num index
    ∷ lit "'s range (up to "
    ∷ upper_bound previous.max_kwh
    ∷ lit " kWh)."
    ∷ [])

abbrev pub check_previous : ℕ → Option TariffTierDto → TariffTierDto → Result (Unit {0})
check_previous index none t = ok tt
check_previous index (some previous) t =
    throw_if (ltb t.min_kwh (max_or_zero previous)) (overlapping_tier index previous t)

abbrev pub check_tiers : ℕ → Option TariffTierDto → List TariffTierDto → Result (Unit {0})
check_tiers index previous [] = ok tt
check_tiers index previous (t ∷ ts) =
    throw_if (not (is_last ts) && not (is_some t.max_kwh)) (open_tier index t)
    >> check_previous index previous t
    >> check_tiers (suc index) (some t) ts

unfoldable pub assert_tiers_valid : List TariffTierDto → Result (List TariffTierDto)
assert_tiers_valid tiers = check_tiers 0 none (sort_tiers tiers) >> ok (sort_tiers tiers)
