-- ===== src/Tariff/Data.antt =====
-- The enums and the rows of src/modules/tariff/entities/ by the columns that decide, with the ids of the
-- properties and the units that a version is for, and what is read of units. A property type, a
-- value of a lookup category, is a number; dates are day numbers.
use ccb_api.Base.{ℕ, Bool, true, false, Option, List, String}
use ccb_api.Billing.Data.{TariffRateType, TariffTier}

pub data TariffStatus : Type 0 where
  draft pending request_for_correction active inactive deprecated expired rejected : TariffStatus

pub data TariffApplicability : Type 0 where
  global property unit : TariffApplicability

pub record Tariff : Type 0 where
  pub id : ℕ
  pub status : TariffStatus
  pub property_type : ℕ
  pub rate_type : TariffRateType
  pub applicability : TariffApplicability
  pub flat_rate : Option ℕ
  pub billing_service_fee : Option ℕ
  pub vat : Option ℕ
  pub vat_applicable_fees : Option (List String)
  pub effective_from : Option ℕ
  pub effective_to : Option ℕ
  pub property_ids : List ℕ
  pub unit_ids : List ℕ
  pub tiers : List TariffTier

-- A unit with its property's id and type.
pub record TariffUnit : Type 0 where
  pub id : ℕ
  pub property_id : ℕ
  pub property_type : ℕ

pub record State : Type 0 where
  pub tariffs : List Tariff
  pub units : List TariffUnit

abbrev pub is_active : Tariff → Bool
is_active v = elim v.status [ TariffStatus.active ↦ true | _ ↦ false ]

-- `HISTORICAL_MATCH_STATUSES`
abbrev pub was_in_force : Tariff → Bool
was_in_force v = elim v.status [
  | TariffStatus.active ↦ true
  | TariffStatus.deprecated ↦ true
  | TariffStatus.expired ↦ true
  | _ ↦ false
]

abbrev pub is_for_units : Tariff → Bool
is_for_units v = elim v.applicability [ TariffApplicability.unit ↦ true | _ ↦ false ]

abbrev pub is_for_properties : Tariff → Bool
is_for_properties v = elim v.applicability [ TariffApplicability.property ↦ true | _ ↦ false ]

abbrev pub is_global : Tariff → Bool
is_global v = elim v.applicability [ TariffApplicability.global ↦ true | _ ↦ false ]
