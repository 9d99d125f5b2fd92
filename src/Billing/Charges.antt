-- ===== src/Billing/Charges.antt =====
-- `calculateConsumption`, `calculateCharges` and `validateReconciliation`.
use ccb_api.Base.{
  ℕ, ◌+◌, ◌*◌, ◌/◌, ◌%◌, Bool, false, ◌||◌, Option, none, some, List, [], ◌∷◌, ◌++◌, ltb, leb, ◌==◌,
  ◌&&◌, if◌then◌else◌, filter, get_or_else, String, any,
}
use ccb_api.Base.Int.{ℤ, pos, negsuc, ◌+ℤ◌, ◌-ℤ◌, ◌*ℤ◌, ltb_ℤ, min_ℤ, abs_ℤ, round_div}
use ccb_api.Base.Result.{Message, lit, num, padded, decimal, Result, bad_request, throw_if}
use ccb_api.Readiness.Current.{between}
use ccb_api.Billing.Data.{
  BillLineItemType, ChargeLine, TariffRateType, Halves, TariffVersion, TariffTier, Reading, Sources,
}
use text.Mathlib.Text.{◌==◌ as str_eq}

-- The readings of a unit in a period, the latest first; those of one day stay in the table's order.
abbrev pub insert_reading : Reading → List Reading → List Reading
insert_reading r [] = r ∷ []
insert_reading r (s ∷ rows) =
    if leb s.reading_date r.reading_date then r ∷ s ∷ rows else s ∷ insert_reading r rows

abbrev pub latest_first : List Reading → List Reading
latest_first [] = []
latest_first (r ∷ rows) = insert_reading r (latest_first rows)

-- `Number(reading.readingValue)`
abbrev pub value_of_reading : Reading → ℕ
value_of_reading r = get_or_else r.reading_value 0

-- The last of the rows, or this one.
abbrev pub last_reading : Reading → List Reading → Reading
last_reading r [] = r
last_reading r (s ∷ rows) = last_reading s rows

-- The latest reading less the earliest one.
abbrev pub consumption_of : List Reading → Option ℤ
consumption_of [] = none
consumption_of (r ∷ []) = none
consumption_of (r ∷ s ∷ rows) =
    some (pos (value_of_reading r) -ℤ pos (value_of_reading (last_reading s rows)))

unfoldable pub calculate_consumption : Sources → ℕ → ℕ → ℕ → Option ℤ
unfolding ◌-ℤ◌
calculate_consumption src uid start end = consumption_of (
    latest_first (
      filter (λ (r : Reading). (r.unit_id == uid) && between r.reading_date start end)
        src.readings))

-- What `calculateCharges` returns.
pub record Calculation : Type 0 where
  pub consumption_charge : ℤ
  pub billing_service_fee : ℕ
  pub subtotal : ℤ
  pub vat_amount : ℤ
  pub total_due : ℤ
  pub effective_rate : ℤ
  pub line_items : List ChargeLine

-- The width of a tier, in units of 1/10000 kWh; an open tier takes what remains.
abbrev pub band_max : TariffTier → ℤ → ℤ
band_max t remaining = elim t.max_kwh [
  | none ↦ remaining
  | some m ↦ pos (100 * m) -ℤ pos (100 * t.min_kwh)
]

-- The loop over the tiers: the charge so far, in units of 10 ^ -8.
unfoldable pub charge_tiers : List TariffTier → ℤ → ℤ → ℤ
charge_tiers [] remaining charge = charge
charge_tiers (t ∷ tiers) remaining charge =
    let band = min_ℤ remaining (band_max t remaining) in
    let rest = charge_tiers tiers (remaining -ℤ band) (charge +ℤ band *ℤ pos t.rate_per_kwh) in
    if ltb_ℤ (pos 0) remaining then rest else charge

-- `round2` of an amount in units of 10 ^ -8, in cents.
abbrev pub to_cents : Bool → ℤ → ℤ
to_cents up = round_div up 1000000

unfoldable pub consumption_charge_of : Halves → ℕ → TariffVersion → List TariffTier → ℤ
unfolding charge_tiers
consumption_charge_of h kwh v tiers = elim v.rate_type [
  | TariffRateType.flat ↦
      to_cents (h.charge_up kwh v tiers) (pos kwh *ℤ pos (get_or_else v.flat_rate 0))
  | TariffRateType.tiered ↦
      to_cents (h.charge_up kwh v tiers) (charge_tiers tiers (pos kwh) (pos 0))
]

-- `round4(consumptionCharge / consumptionKwh)` for tiers.
unfoldable pub effective_rate_of : Halves → ℕ → TariffVersion → ℤ → ℤ
effective_rate_of h kwh v charge = elim v.rate_type [
  | TariffRateType.flat ↦ pos (get_or_else v.flat_rate 0)
  | TariffRateType.tiered ↦
      if ltb 0 kwh then round_div (h.rate_up charge kwh) kwh (charge *ℤ pos 1000000) else pos 0
]

-- `vatApplicableFees.includes(key)`
abbrev pub includes : String → Option (List String) → Bool
includes key fees = any (λ f. str_eq f key) (get_or_else fees [])

abbrev pub consumption_taxable : TariffVersion → Bool
consumption_taxable v =
    includes "consumptionCharge" v.vat_applicable_fees || includes "flatRate" v.vat_applicable_fees

abbrev pub service_fee_taxable : TariffVersion → Bool
service_fee_taxable v = includes "billingServiceFee" v.vat_applicable_fees

-- The fees whose keys are listed bear VAT, at a rate of 1/100 percent.
unfoldable pub vat_amount_of : Halves → TariffVersion → ℤ → ℕ → ℤ
vat_amount_of h v charge fee =
    let vatable =
      (if consumption_taxable v then charge else pos 0)
      +ℤ (if service_fee_taxable v then pos fee else pos 0) in
    round_div (h.vat_up v charge fee) 10000 (vatable *ℤ pos (get_or_else v.vat 0))

-- `kwh.toFixed(2)` of a number of 1/10000 kWh.
abbrev pub to_fixed_2 : Halves → ℕ → Message
to_fixed_2 h kwh =
    let hundredths = (kwh + (if h.printed_up kwh then 50 else 49)) / 100 in
    num (hundredths / 100) ∷ lit "." ∷ padded 2 (hundredths % 100) ∷ []

abbrev pub consumption_line : Halves → ℕ → TariffVersion → ℤ → ChargeLine
consumption_line h kwh v charge = record {
  line_type = BillLineItemType.consumption_charge;
  description = lit "Consumption Charge (" ∷ (to_fixed_2 h kwh ++ lit " kWh)" ∷ []);
  quantity = some kwh;
  unit_rate = some (effective_rate_of h kwh v charge);
  amount = charge;
  taxable = consumption_taxable v;
}

abbrev pub fee_line : TariffVersion → ℕ → ChargeLine
fee_line v fee = record {
  line_type = BillLineItemType.billing_service_fee;
  description = lit "Billing Service Fee" ∷ [];
  quantity = none;
  unit_rate = none;
  amount = pos fee;
  taxable = service_fee_taxable v;
}

abbrev pub vat_line : TariffVersion → ℤ → ChargeLine
vat_line v amount = record {
  line_type = BillLineItemType.vat;
  description = lit "VAT (" ∷ decimal 2 (get_or_else v.vat 0) ∷ lit "%)" ∷ [];
  quantity = none;
  unit_rate = none;
  amount = amount;
  taxable = false;
}

-- The result from the charge and the VAT; a VAT line is there only if it is positive.
abbrev pub charges_of : Halves → ℕ → TariffVersion → ℤ → ℤ → Calculation
charges_of h kwh v charge vat_amount =
    let fee = get_or_else v.billing_service_fee 0 in
    record {
      consumption_charge = charge;
      billing_service_fee = fee;
      subtotal = charge +ℤ pos fee;
      vat_amount = vat_amount;
      total_due = charge +ℤ pos fee +ℤ vat_amount;
      effective_rate = effective_rate_of h kwh v charge;
      line_items =
          consumption_line h kwh v charge
          ∷ fee_line v fee
          ∷ (if ltb_ℤ (pos 0) vat_amount then vat_line v vat_amount ∷ [] else []);
    }

-- The charges of a consumption that is not negative; the caller has refused a negative one.
unfoldable pub calculate_charges : Halves → ℕ → TariffVersion → List TariffTier → Calculation
calculate_charges h kwh v tiers =
    let charge = consumption_charge_of h kwh v tiers in
    charges_of h kwh v charge (vat_amount_of h v charge (get_or_else v.billing_service_fee 0))

-- The sum of the amounts of the lines.
abbrev pub sum_amounts : List ChargeLine → ℤ
sum_amounts [] = pos 0
sum_amounts (l ∷ lines) = l.amount +ℤ sum_amounts lines

-- Amounts of cents, printed as money.
abbrev pub money : ℤ → Message
money (pos n) = decimal 2 n ∷ []
money (negsuc n) = lit "-" ∷ decimal 2 (n + 1) ∷ []

-- A sum that is off by more than a cent is refused.
unfoldable pub validate_reconciliation : Calculation → Result (Unit {0})
validate_reconciliation c =
    let total = sum_amounts c.line_items in
    throw_if (ltb 1 (abs_ℤ (total -ℤ c.total_due))) (
      bad_request (
        lit "Reconciliation failed: line items sum to "
        ∷ (money total ++ (lit " but totalDue is " ∷ money c.total_due))))
