-- ===== src/Billing/Amounts.antt =====
-- The amounts of a bill: the reconciliation of its lines with its total, and rounding.
use ccb_api.Base.{
  ◌∙◌, ◌-◌, ℕ, zero, suc, Bool, ◌+◌, ◌*◌, ◌/◌, ◌≡◌, refl, List, arith, get_or_else, true, false,
  if◌then◌else◌, All,
}
use ccb_api.Base.Int.{pos, ◌+ℤ◌, ◌-ℤ◌, round_div, pos-add, pos-mul}
use ccb_api.Base.Result.{ok}
use ccb_api.Billing.Data.{TariffRateType, TariffVersion, TariffTier, Halves}
use ccb_api.Billing.Charges.{
  Calculation, charges_of, consumption_charge_of, vat_amount_of, calculate_charges,
  validate_reconciliation, consumption_taxable, service_fee_taxable, to_cents,
}
use ccb_api.Billing.Tiers.{IsForward, charge_from, charge_tiers-eq, IsNearest, to_cents-IsNearest}

-- The exact charge, in units of 10 ^ -8, before it is rounded.
abbrev pub exact_charge : ℕ → TariffVersion → List TariffTier → ℕ
exact_charge kwh v tiers = elim v.rate_type [
  | TariffRateType.flat ↦ kwh * get_or_else v.flat_rate 0
  | TariffRateType.tiered ↦ charge_from tiers kwh
]

consumption_charge_of-exact :
    (h : Halves) (kwh : ℕ) (v : TariffVersion) (tiers : List TariffTier)
    → All IsForward tiers
    → consumption_charge_of h kwh v tiers
      ≡ to_cents (h.charge_up kwh v tiers) (pos (exact_charge kwh v tiers))
unfolding consumption_charge_of
consumption_charge_of-exact h kwh v tiers f =
    ground (arith, pos-mul kwh (get_or_else v.flat_rate 0), charge_tiers-eq tiers kwh 0 f)

-- What bears VAT, of a charge of c cents.
abbrev pub vatable : TariffVersion → ℕ → ℕ
vatable v c =
    (if consumption_taxable v then c else 0)
    + (if service_fee_taxable v then get_or_else v.billing_service_fee 0 else 0)

pos-if : (b : Bool) (c : ℕ) → (if b then pos c else pos 0) ≡ pos (if b then c else 0)
pos-if true c = refl
pos-if false c = refl

vat_amount_of-pos :
    (h : Halves) (v : TariffVersion) (c : ℕ)
    → vat_amount_of h v (pos c) (get_or_else v.billing_service_fee 0)
      ≡ round_div
          (h.vat_up v (pos c) (get_or_else v.billing_service_fee 0))
          10000
          (pos (vatable v c * get_or_else v.vat 0))
unfolding vat_amount_of
vat_amount_of-pos h v c =
    let fee = get_or_else v.billing_service_fee 0 in
    rw
      (
        pos-if (consumption_taxable v) c,
        pos-if (service_fee_taxable v) fee,
        pos-add (if consumption_taxable v then c else 0) (if service_fee_taxable v then fee else 0),
        pos-mul (vatable v c) (get_or_else v.vat 0),
      )
      refl

vat-IsNearest :
    (up : Bool) (n : ℕ) → (c : ℕ) × (round_div up 10000 (pos n) ≡ pos c) × IsNearest 10000 n c
unfolding round_div
vat-IsNearest true n = ((2 * n + 10000 - 0) / 20000, refl, (omega arith, omega arith))
vat-IsNearest false n = ((2 * n + 10000 - 1) / 20000, refl, (omega arith, omega arith))

-- The amounts of a bill of this consumption: charge and VAT are rounded to cents, sums are exact.
pub record IsPriced (kwh : ℕ) (v : TariffVersion) (tiers : List TariffTier) (c : Calculation)
    : Type 0 where
  pub charge : ℕ
  pub vat : ℕ
  pub charged : c.consumption_charge ≡ pos charge
  pub charge-nearest : IsNearest 1000000 (exact_charge kwh v tiers) charge
  pub taxed : c.vat_amount ≡ pos vat
  pub vat-nearest : IsNearest 10000 (vatable v charge * get_or_else v.vat 0) vat
  pub total : c.total_due ≡ pos (charge + get_or_else v.billing_service_fee 0 + vat)

charges_of-validated :
    (h : Halves) (kwh : ℕ) (v : TariffVersion) (c w : ℕ)
    → validate_reconciliation (charges_of h kwh v (pos c) (pos w)) ≡ ok tt
unfolding validate_reconciliation ◌+ℤ◌ ◌-ℤ◌
charges_of-validated h kwh v c zero = ground arith
charges_of-validated h kwh v c (suc w) = ground arith

module _ (h : Halves) (kwh : ℕ) (v : TariffVersion) (tiers : List TariffTier)
    (f : All IsForward tiers) where
  -- The charge and the VAT in cents.
  abbrev Cents : Type 0
  Cents =
      (c : ℕ) × (w : ℕ) × IsNearest 1000000 (exact_charge kwh v tiers) c
      × IsNearest 10000 (vatable v c * get_or_else v.vat 0) w
      × (calculate_charges h kwh v tiers ≡ charges_of h kwh v (pos c) (pos w))

  cents_of : Cents
  unfolding calculate_charges
  cents_of =
      let (c, p, near) = to_cents-IsNearest (h.charge_up kwh v tiers) (exact_charge kwh v tiers) in
      let charged : consumption_charge_of h kwh v tiers ≡ pos c =
        consumption_charge_of-exact h kwh v tiers f ∙ p in
      let due = vatable v c in
      let (w, q, near') =
        vat-IsNearest (h.vat_up v (pos c) (get_or_else v.billing_service_fee 0))
          (due * get_or_else v.vat 0) in
      (c, w, near, near', rw (charged, vat_amount_of-pos h v c ∙ q) refl)

  pub calculate_charges-validated :
      validate_reconciliation (calculate_charges h kwh v tiers) ≡ ok tt
  calculate_charges-validated =
      let (c, w, near, near', e) = cents_of in rw e (charges_of-validated h kwh v c w)
