-- ===== src/Tariff/Tests.antt =====
-- The resolution at two properties: one with a tariff of its own and a unit with another, one under
-- the global tariff, and in the mixed batch a commercial unit that a residential tariff lists.
use ccb_api.Base.{ℕ, ◌≡◌, refl, Option, none, some, List, [], ◌∷◌, map}
use ccb_api.Billing.Data.{TariffRateType}
use ccb_api.Readiness.Data.{TariffAsOf}
use ccb_api.Tariff.Data.{TariffStatus, TariffApplicability, Tariff, TariffUnit, State}
use ccb_api.Tariff.Resolve.{resolve_for_unit, resolve_for_units, resolve_for_units_as_of}
use ccb_api.Tariff.Batch.{resolve_for_units-eq}
use ccb_api.Base.Result.{lit, num, bad_request, ok, err}
use ccb_api.Tariff.Tiers.{TariffTierDto, assert_tiers_valid}
use ccb_api.Tariff.Ordered.{HasOrderedOutcome, assert_tiers_valid-AreSeparate}
use ccb_api.Tariff.AsOf.{IsAnswerAsOf, resolve_for_units_as_of-IsAnswerAsOf}

abbrev residential : ℕ
residential = 1

abbrev commercial : ℕ
commercial = 2

abbrev a_tariff :
    ℕ → TariffStatus → TariffApplicability → List ℕ → List ℕ → Option ℕ → Option ℕ → Tariff
a_tariff id status applicability properties units from until = record {
  id = id;
  status = status;
  property_type = residential;
  rate_type = TariffRateType.flat;
  applicability = applicability;
  flat_rate = some 45;
  billing_service_fee = none;
  vat = none;
  vat_applicable_fees = none;
  effective_from = from;
  effective_to = until;
  property_ids = properties;
  unit_ids = units;
  tiers = [];
}

abbrev a_unit : ℕ → ℕ → ℕ → TariffUnit
a_unit id property_id property_type = record {
  id = id;
  property_id = property_id;
  property_type = property_type;
}

-- Tariffs 4 and 5 are of the past and overlap on the days 40 to 50.
abbrev a_state : State
a_state = record {
  tariffs =
      a_tariff 1 TariffStatus.active TariffApplicability.global [] [] (some 60) none
      ∷ a_tariff 2 TariffStatus.active TariffApplicability.property (7 ∷ []) [] (some 60) none
      ∷ a_tariff 3 TariffStatus.active TariffApplicability.unit [] (11 ∷ 30 ∷ []) (some 60) none
      ∷ a_tariff 4 TariffStatus.deprecated TariffApplicability.global [] [] none (some 50)
      ∷ a_tariff 5 TariffStatus.expired TariffApplicability.global [] [] (some 40) (some 59)
      ∷ a_tariff 6 TariffStatus.rejected TariffApplicability.global [] [] none none
      ∷ [];
  units =
      a_unit 10 7 residential
      ∷ a_unit 11 7 residential
      ∷ a_unit 20 8 residential
      ∷ a_unit 30 9 commercial
      ∷ [];
}

resolve_for_unit_runs :
    map (resolve_for_unit a_state) (11 ∷ 30 ∷ 99 ∷ [])
    ≡ some
        (a_tariff 3 TariffStatus.active TariffApplicability.unit [] (11 ∷ 30 ∷ []) (some 60) none)
      ∷ none
      ∷ none
      ∷ []
unfolding resolve_for_unit
resolve_for_unit_runs = refl

-- In a batch with residential units, the commercial unit 30 has the residential tariff 3.
resolve_for_units_mixed :
    resolve_for_units a_state (10 ∷ 30 ∷ []) 30
    ≡ some
        (a_tariff 3 TariffStatus.active TariffApplicability.unit [] (11 ∷ 30 ∷ []) (some 60) none)
unfolding resolve_for_units
resolve_for_units_mixed = refl

as_of_runs :
    map (λ date. resolve_for_units_as_of a_state (10 ∷ 11 ∷ []) date 10) (39 ∷ 45 ∷ 59 ∷ 60 ∷ [])
    ≡ TariffAsOf.version 4 ∷ TariffAsOf.ambiguous ∷ TariffAsOf.version 5 ∷ TariffAsOf.version 2 ∷ []
unfolding resolve_for_units_as_of
as_of_runs = refl

resolve_for_units_example :
    resolve_for_units a_state (10 ∷ 11 ∷ 20 ∷ []) 11 ≡ resolve_for_unit a_state 11
resolve_for_units_example =
    resolve_for_units-eq a_state (10 ∷ 11 ∷ 20 ∷ []) 11 residential (refl, (refl, (refl, tt))) refl

resolve_for_units_as_of_example :
    IsAnswerAsOf a_state 45
      (a_unit 10 7 residential)
      (resolve_for_units_as_of a_state (10 ∷ 11 ∷ 20 ∷ []) 45 10)
resolve_for_units_as_of_example =
    resolve_for_units_as_of-IsAnswerAsOf a_state (10 ∷ 11 ∷ 20 ∷ []) 45 residential
      (a_unit 10 7 residential) (refl, (refl, (refl, tt))) refl refl

abbrev a_tier : ℕ → Option ℕ → ℕ → TariffTierDto
a_tier from until rate = record { min_kwh = from; max_kwh = until; rate_per_kwh = rate }

-- A gap is accepted, and so is a maximum below the minimum; the answer is sorted.
assert_tiers_valid_runs :
    assert_tiers_valid
      (a_tier 300 none 60 ∷ a_tier 10 (some 100) 20 ∷ a_tier 200 (some 150) 40 ∷ [])
    ≡ ok (a_tier 10 (some 100) 20 ∷ a_tier 200 (some 150) 40 ∷ a_tier 300 none 60 ∷ [])
unfolding assert_tiers_valid
assert_tiers_valid_runs = refl

assert_tiers_valid_overlap :
    assert_tiers_valid (a_tier 0 (some 100) 20 ∷ a_tier 90 none 40 ∷ [])
    ≡ err (
        bad_request (
          lit "Tier "
          ∷ num 2
          ∷ lit "'s minimum ("
          ∷ num 90
          ∷ lit " kWh) overlaps tier "
          ∷ num 1
          ∷ lit "'s range (up to "
          ∷ num 100
          ∷ lit " kWh)."
          ∷ []))
unfolding assert_tiers_valid
assert_tiers_valid_overlap = refl

assert_tiers_valid_example :
    HasOrderedOutcome (a_tier 300 none 60 ∷ a_tier 0 (some 100) 20 ∷ a_tier 90 (some 300) 40 ∷ [])
assert_tiers_valid_example =
    assert_tiers_valid-AreSeparate
      (a_tier 300 none 60 ∷ a_tier 0 (some 100) 20 ∷ a_tier 90 (some 300) 40 ∷ [])
