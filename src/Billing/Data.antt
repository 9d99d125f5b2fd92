-- ===== src/Billing/Data.antt =====
-- The enums and the rows of src/modules/billing-management/entities/ and what a bill reads of tariffs
-- and readings. Dates are day numbers and times milliseconds. Decimals are integers: kWh and rates
-- in units of 1/10000, money in cents, the bounds of a tier in units of 1/100 kWh, VAT in units of
-- 1/100 percent. No decimal is rounded but where the service rounds it; `Halves` says how.
use ccb_api.Base.{ℕ, Bool, Option, List}
use ccb_api.Base.Int.{ℤ}
use ccb_api.Base.Result.{Message}
use ccb_api.Base.{String}
use ccb_api.Readiness.Data.{Services, Tables}

pub data BillStatus : Type 0 where
  pending_review issued cancelled : BillStatus

pub data BillLineItemType : Type 0 where
  consumption_charge billing_service_fee vat : BillLineItemType

pub record Bill : Type 0 where
  pub id : ℕ
  pub business_code : Option Message
  pub bill_run_id : ℕ
  pub property_id : ℕ
  pub unit_id : ℕ
  pub customer_id : ℕ
  pub billing_cycle_master_id : ℕ
  pub billing_cycle_version_id : ℕ
  pub billing_period_start : ℕ
  pub billing_period_end : ℕ
  pub bill_issue_date : ℕ
  pub bill_due_date : ℕ
  pub consumption_kwh : ℕ
  pub tariff_version_id : ℕ
  pub tariff_rate_snapshot : ℤ
  pub billing_service_fee_snapshot : ℕ
  pub vat_rate_snapshot : ℕ
  pub subtotal : ℤ
  pub vat_amount : ℤ
  pub total_due : ℤ
  pub status : BillStatus
  pub generated_at : ℕ
  pub generated_by_id : Option ℕ
  pub issued_at : Option ℕ
  pub issued_by_id : Option ℕ
  pub cancelled_at : Option ℕ
  pub cancelled_by_id : Option ℕ
  pub cancellation_reason : Option Message

-- A line before it belongs to a bill, as `calculateCharges` lists it.
pub record ChargeLine : Type 0 where
  pub line_type : BillLineItemType
  pub description : Message
  pub quantity : Option ℕ
  pub unit_rate : Option ℤ
  pub amount : ℤ
  pub taxable : Bool

pub record BillLineItem : Type 0 where
  pub bill_id : ℕ
  pub line : ChargeLine
  pub display_order : ℕ

pub data TariffRateType : Type 0 where
  flat tiered : TariffRateType

pub record TariffVersion : Type 0 where
  pub id : ℕ
  pub rate_type : TariffRateType
  pub flat_rate : Option ℕ
  pub billing_service_fee : Option ℕ
  pub vat : Option ℕ
  pub vat_applicable_fees : Option (List String)

pub record TariffTier : Type 0 where
  pub tier_order : ℕ
  pub min_kwh : ℕ
  pub max_kwh : Option ℕ
  pub rate_per_kwh : ℕ

-- The service rounds doubles, and the double of an amount that is half-way between two results may lie
-- on either side of it: 0.145 * 100 is 14.499999999999998, while 0.125 * 100 is 12.5. Whether it goes
-- up, of the charge, the effective rate, the VAT and the consumption as it is printed, by the
-- operands; `Billing/Doubles.antt` computes it.
pub record Halves : Type 0 where
  pub charge_up : ℕ → TariffVersion → List TariffTier → Bool
  pub rate_up : ℤ → ℕ → Bool
  pub vat_up : TariffVersion → ℤ → ℕ → Bool
  pub printed_up : ℕ → Bool

-- A row of `meter_readings`, by the columns that a bill reads.
pub record Reading : Type 0 where
  pub unit_id : ℕ
  pub reading_date : ℕ
  pub reading_value : Option ℕ

-- Bills are listed newest first.
pub record State : Type 0 where
  pub bills : List Bill
  pub next_bill_id : ℕ
  pub line_items : List BillLineItem

-- What a bill reads and does not change: the other services, the tables, the readings, and the
-- rows of the tariff versions with their tiers.
pub record Sources : Type 0 where
  pub services : Services
  pub tables : Tables
  pub readings : List Reading
  pub tariff_version : ℕ → TariffVersion
  pub tiers_of : ℕ → List TariffTier

abbrev pub bill_key : Bill → ℕ
bill_key b = b.id
