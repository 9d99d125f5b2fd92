-- ===== src/Billing/Drafts.antt =====
-- When a unit is billed: what `generateOneBill` requires, and that nothing else refuses it.
use ccb_api.Base.{ℕ, ◌≡◌, refl, ◌↔◌, Option, some, none, arith, All, Option-cases, inl, inr}
use mathlib.Core.Path.{subst}
use ccb_api.Base.Int.{ℤ, pos, negsuc}
use ccb_api.Base.Result.{ok, Result-cases}
use ccb_api.Readiness.Data.{Customer}
use ccb_api.Readiness.Recovery.{current_customer}
use ccb_api.BillRun.Data.{BillRun}
use ccb_api.Billing.Data.{TariffVersion, Sources}
use ccb_api.Billing.Charges.{calculate_consumption, calculate_charges, validate_reconciliation}
use ccb_api.Billing.Tiers.{IsForward}
use ccb_api.Billing.Amounts.{calculate_charges-validated}
use ccb_api.Billing.Generate.{Draft, draft_bill, tiers_for, halves_for, billable_consumption}

-- A tariff, a current customer and a consumption that is not negative, from which the draft follows.
pub record IsBillable (src : Sources) (run : BillRun) (uid : ℕ) (tariff : Option TariffVersion)
    (d : Draft) : Type 0 where
  pub resolved : tariff ≡ some d.tariff
  pub customer : Customer
  pub is_current : current_customer (src.services.customers_of_unit uid) ≡ some customer
  pub customer_kept : d.customer_id ≡ customer.id
  pub consumption :
      calculate_consumption src uid run.cycle_period_start run.cycle_period_end ≡ some (pos d.kwh)
  pub charges_kept :
      d.charges ≡ calculate_charges (halves_for src run uid) d.kwh d.tariff (tiers_for src d.tariff)

billable_consumption-ok :
    (uid : ℕ) (o : Option ℤ) {kwh : ℕ} → billable_consumption uid o ≡ ok kwh → o ≡ some (pos kwh)
billable_consumption-ok uid none h = absurd (ground arith)
billable_consumption-ok uid (some (pos n)) h = ground arith
billable_consumption-ok uid (some (negsuc n)) h = absurd (ground arith)

abbrev draft_of : Sources → BillRun → ℕ → Customer → TariffVersion → ℕ → Draft
draft_of src run uid customer v kwh = record {
  customer_id = customer.id;
  kwh = kwh;
  tariff = v;
  charges = calculate_charges (halves_for src run uid) kwh v (tiers_for src v);
}

module _ (src : Sources) (run : BillRun) (uid : ℕ) (tariff : Option TariffVersion) (d : Draft)
    (forward : (v : TariffVersion) → tariff ≡ some v → All IsForward (tiers_for src v)) where
  IsBillable-draft_bill : IsBillable src run uid tariff d → draft_bill src run uid tariff ≡ ok d
  unfolding draft_bill
  IsBillable-draft_bill b = ground (
    arith,
    b.resolved,
    b.is_current,
    b.consumption,
    b.charges_kept,
    calculate_charges-validated (halves_for src run uid) d.kwh d.tariff (tiers_for src d.tariff)
        (forward d.tariff b.resolved),
  )

  draft_bill-IsBillable : draft_bill src run uid tariff ≡ ok d → IsBillable src run uid tariff d
  unfolding draft_bill
  draft_bill-IsBillable h =
      let consumed = calculate_consumption src uid run.cycle_period_start run.cycle_period_end in
      elim (Option-cases tariff) [
        | inl e ↦ absurd (ground arith)
        | inr (v, e) ↦ elim (Option-cases (current_customer (src.services.customers_of_unit uid))) [
          | inl f ↦ absurd (ground arith)
          | inr (customer, f) ↦ elim (Result-cases (billable_consumption uid consumed)) [
            | inr (x, g) ↦ absurd (ground arith)
            | inl (kwh, g) ↦
                let checked = Result-cases (
                  validate_reconciliation
                    (calculate_charges (halves_for src run uid) kwh v (tiers_for src v))) in
                elim checked [
                  | inr (x, k) ↦ absurd (ground arith)
                  | inl (done, k) ↦
                      let made : draft_of src run uid customer v kwh ≡ d = ground arith in
                      subst (IsBillable src run uid tariff) made (record {
                        resolved = e;
                        customer = customer;
                        is_current = f;
                        customer_kept = refl;
                        consumption = billable_consumption-ok uid consumed g;
                        charges_kept = refl;
                      })
                ]
          ]
        ]
      ]

  -- Where no tier of the unit's tariff ends below its start, a bill is drafted exactly when a
  -- tariff is found, the unit has a current customer, and its consumption is known and not
  -- negative; the draft then has this customer, this consumption and its calculated charges. In
  -- particular the reconciliation of lines and total refuses none.
  pub draft_bill-IsBillable_iff :
      (draft_bill src run uid tariff ≡ ok d) ↔ IsBillable src run uid tariff d
  draft_bill-IsBillable_iff = (draft_bill-IsBillable, IsBillable-draft_bill)
