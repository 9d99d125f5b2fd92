-- ===== src/Billing/Tests.antt =====
-- The billing theorems at a property of two units, the first on a tariff of two tiers with VAT on
-- the service fee, the second without a tariff.
use ccb_api.Base.{
  ◌^◌, ◌*◌, ℕ, ◌≡◌, refl, ◌↔◌, true, false, Bool, none, some, List, [], ◌∷◌, arith, ◌==◌,
  if◌then◌else◌, All, ap, get_or_else,
}
use mathlib.Core.Path.{subst}
use ccb_api.Base.Int.{pos, ◌+ℤ◌, ◌-ℤ◌, ◌*ℤ◌, round_div}
use ccb_api.Base.Result.{text, Result, ok, err}
use ccb_api.Readiness.Data.{VersionResolution, TariffAsOf, ResidentType, UnitRow}
use ccb_api.Readiness.Current.{billable_units}
use ccb_api.Readiness.Recovery.{current_customer}
use ccb_api.Workflow.Engine.{Directory, assert_can_act, record_approval}
use ccb_api.BillRun.Data as Runs
use ccb_api.BillRun.Data.{BillRunStatus, BillRun}
use ccb_api.BillRun.Review.{approve, approve_transaction, run_for_review}
use ccb_api.Billing.Data.{
  Halves, BillStatus, Bill, TariffRateType, TariffVersion, TariffTier, State, Sources,
}
use ccb_api.Billing.Doubles.{halves_of, halves_in, nearest_ℕ, bit_length, charge_loop}
use ccb_api.Billing.Charges.{
  calculate_charges, consumption_charge_of, charge_tiers, effective_rate_of, vat_amount_of,
  validate_reconciliation, calculate_consumption,
}
use ccb_api.Billing.Tiers.{IsForward}
use ccb_api.Billing.Drafts.{IsBillable, draft_bill-IsBillable_iff}
use ccb_api.Billing.Generate.{
  Draft, draft_bill, Report, generate_bills_for_bill_run, run_to_bill, generate_each, tiers_for,
}
use ccb_api.Billing.Outcome.{IsConsistent}
use ccb_api.Billing.Generation.{IsGenerated, generate_bills-IsGenerated}
use ccb_api.Billing.Again.{generate_bills-again}
use ccb_api.Billing.Cancel.{cancel_bill}
use ccb_api.Billing.Cancelled.{IsCancelled, cancel_bill-IsCancelled}

-- The halves of 150 kWh.
abbrev halves : Halves
halves = halves_of (pos (150 * 2 ^ 200))

abbrev two_tiers : List TariffTier
two_tiers =
    record { tier_order = 1; min_kwh = 0; max_kwh = some 10000; rate_per_kwh = 500 }
    ∷ record { tier_order = 2; min_kwh = 10000; max_kwh = none; rate_per_kwh = 800 }
    ∷ []

abbrev tariff : TariffVersion
tariff = record {
  id = 4;
  rate_type = TariffRateType.tiered;
  flat_rate = none;
  billing_service_fee = some 1500;
  vat = some 500;
  vat_applicable_fees = some ("billingServiceFee" ∷ []);
}

-- 150 kWh: 100 at 0.05 and 50 at 0.08.
abbrev kwh : ℕ
kwh = 1500000

tiered_charge : (calculate_charges halves kwh tariff two_tiers).consumption_charge ≡ pos 900
unfolding calculate_charges consumption_charge_of charge_tiers halves_of nearest_ℕ bit_length
    charge_loop ◌-ℤ◌ ◌+ℤ◌ ◌*ℤ◌ round_div
tiered_charge = refl

abbrev flat_tariff : ℕ → TariffVersion
flat_tariff rate = record tariff { rate_type = TariffRateType.flat; flat_rate = some rate }

-- 1 kWh at 0.145 costs 0.14, 2 kWh at 0.0725 too, and 1 kWh at 0.125 costs 0.13.
half_cents :
    ((calculate_charges (halves_of (pos (2 ^ 200))) 10000 (flat_tariff 1450) []).consumption_charge
      ≡ pos 14)
    × ((calculate_charges (halves_of (pos (2 ^ 201))) 20000 (flat_tariff 725) []).consumption_charge
        ≡ pos 14)
    × ((calculate_charges
          (halves_of (pos (2 ^ 200)))
          10000
          (flat_tariff 1250)
          []).consumption_charge
        ≡ pos 13)
unfolding calculate_charges consumption_charge_of ◌*ℤ◌ round_div halves_of nearest_ℕ bit_length
half_cents = (refl, refl, refl)

abbrev unit_row : ℕ → UnitRow
unit_row id = record { id = id; property_id = 7; is_active = true; unit_number = "A" }

abbrev sources : Sources
sources = record {
  services = record {
    reading_period = λ pid. none;
    historical_versions = λ pid. [];
    resolve_version_for_reading_date = λ pid d. VersionResolution.none_found;
    resolve_for_unit = λ uid. if uid == 1 then some 4 else none;
    resolve_for_unit_as_of = λ uid d. TariffAsOf.no_match;
    customers_of_unit =
        λ uid. record { id = 30; full_name = "Ana"; resident_type = ResidentType.owner } ∷ [];
  };
  tables = record {
    properties = [];
    units = unit_row 1 ∷ unit_row 2 ∷ [];
    sub_meters = [];
    meter_readings = [];
    bill_runs = [];
  };
  readings =
      record { unit_id = 1; reading_date = 101; reading_value = some 1000000 }
      ∷ record { unit_id = 1; reading_date = 129; reading_value = some 2500000 }
      ∷ [];
  tariff_version = λ vid. tariff;
  tiers_of = λ vid. two_tiers;
}

abbrev a_run : BillRunStatus → BillRun
a_run status = record {
  id = 5;
  business_code = none;
  batch_id = none;
  property_id = 7;
  cycle_master_id = 2;
  cycle_version_id = 3;
  cycle_period_start = 100;
  cycle_period_end = 130;
  bill_issue_date = 132;
  bill_due_date = 146;
  status = status;
  billable_units = 2;
  units_missing_tariff = 0;
  units_missing_meter_mapping = 0;
  units_missing_reading = 0;
  critical_anomalies = 0;
  high_anomalies = 0;
  notes = none;
  submitted_by_id = some 20;
  submitted_on = 50;
  reviewed_by_id = none;
  reviewed_on = none;
  review_notes = none;
  resubmitted_from_id = none;
  tariff_resolution_date = none;
}

abbrev runs : BillRunStatus → Runs.State
runs status = record {
  runs = a_run status ∷ [];
  next_run_id = 6;
  batches = [];
  next_batch_id = 0;
  workflow = record {
    definitions = [];
    levels = [];
    instances = [];
    steps = [];
    next_definition_id = 0;
    next_instance_id = 0;
    next_step_id = 0;
  };
}

abbrev no_bills : State
no_bills = record { bills = []; next_bill_id = 1; line_items = [] }

no_bills-IsConsistent : IsConsistent no_bills
no_bills-IsConsistent = record { ids = tt; unique = λ run_id uid. omega arith }

abbrev draft : Draft
draft = record {
  customer_id = 30;
  kwh = kwh;
  tariff = tariff;
  charges = calculate_charges (halves_in sources 1 100 130) kwh tariff two_tiers;
}

draft_bill-IsBillable_example :
    (draft_bill sources (a_run BillRunStatus.approved) 1 (some tariff) ≡ ok draft)
    ↔ IsBillable sources (a_run BillRunStatus.approved) 1 (some tariff) draft
draft_bill-IsBillable_example =
    draft_bill-IsBillable_iff sources (a_run BillRunStatus.approved) 1 (some tariff) draft (λ v e.
      subst (λ (w : TariffVersion). All IsForward (tiers_for sources w))
        (ap (λ o. get_or_else o tariff) e) (omega arith, (tt, tt)))

abbrev value_of {ℓ} : {A : Type ℓ} → Result A → A → A
value_of (ok a) d = a
value_of (err e) d = d

-- The first unit is billed, the second fails.
abbrev generation : Report × State
generation =
    value_of
      (generate_bills_for_bill_run sources 5 (some 24) 80 (runs BillRunStatus.approved) no_bills)
      (record { generated = []; failed = []; already_billed = 0 }, no_bills)

generation-eq :
    generate_bills_for_bill_run sources 5 (some 24) 80 (runs BillRunStatus.approved) no_bills
    ≡ ok generation
unfolding generate_bills_for_bill_run run_to_bill generate_each billable_units draft_bill
    current_customer calculate_consumption halves_in halves_of nearest_ℕ bit_length charge_loop
    calculate_charges consumption_charge_of effective_rate_of vat_amount_of validate_reconciliation
    ◌+ℤ◌ ◌-ℤ◌ ◌*ℤ◌ round_div
generation-eq = refl

generate_bills-IsGenerated_example :
    IsGenerated sources 5
      (some 24)
      80
      (runs BillRunStatus.approved)
      no_bills
      generation.0
      generation.1
generate_bills-IsGenerated_example =
    generate_bills-IsGenerated sources 5 (some 24) 80 (runs BillRunStatus.approved) no_bills
      no_bills-IsConsistent generation-eq

generate_bills-again_example :
    (again : Report) × (generate_bills_for_bill_run sources 5
        (some 25)
        90
        (runs BillRunStatus.approved)
        generation.1
      ≡ ok (again, generation.1))
    × (again.generated ≡ [])
generate_bills-again_example =
    generate_bills-again sources 5 (some 24) (some 25) 80 90 (runs BillRunStatus.approved) no_bills
      generation.1 generation.0 no_bills-IsConsistent generation-eq

abbrev directory : Directory
directory = record { role_ids = λ a. []; is_super_admin = λ r. r == 1 }

abbrev approval : Runs.State × Bool
approval =
    value_of (approve directory 5 none (some 24) false 70 (runs BillRunStatus.pending_approval))
      (runs BillRunStatus.pending_approval, false)

approval-eq :
    approve directory 5 none (some 24) false 70 (runs BillRunStatus.pending_approval)
    ≡ ok (approval.0, true)
unfolding approve approve_transaction run_for_review assert_can_act record_approval
approval-eq = refl

abbrev a_bill : Bill
a_bill = record {
  id = 0;
  business_code = none;
  bill_run_id = 5;
  property_id = 7;
  unit_id = 1;
  customer_id = 30;
  billing_cycle_master_id = 2;
  billing_cycle_version_id = 3;
  billing_period_start = 100;
  billing_period_end = 130;
  bill_issue_date = 132;
  bill_due_date = 146;
  consumption_kwh = kwh;
  tariff_version_id = 4;
  tariff_rate_snapshot = pos 600;
  billing_service_fee_snapshot = 1500;
  vat_rate_snapshot = 500;
  subtotal = pos 2400;
  vat_amount = pos 75;
  total_due = pos 2475;
  status = BillStatus.issued;
  generated_at = 80;
  generated_by_id = some 24;
  issued_at = some 80;
  issued_by_id = some 24;
  cancelled_at = none;
  cancelled_by_id = none;
  cancellation_reason = none;
}

abbrev one_bill : State
one_bill = record { bills = a_bill ∷ []; next_bill_id = 1; line_items = [] }

one_bill-IsConsistent : IsConsistent one_bill
one_bill-IsConsistent = record { ids = (omega arith, tt); unique = λ run_id uid. ground arith }

abbrev cancellation : Bill × State
cancellation = value_of (cancel_bill 0 (text "wrong unit") (some 20) 90 one_bill) (a_bill, one_bill)

cancellation-eq : cancel_bill 0 (text "wrong unit") (some 20) 90 one_bill ≡ ok cancellation
unfolding cancel_bill
cancellation-eq = refl

cancel_bill-IsCancelled_example :
    IsCancelled 0 (text "wrong unit") cancellation.0 one_bill cancellation.1
cancel_bill-IsCancelled_example =
    cancel_bill-IsCancelled 0 (text "wrong unit") (some 20) 90 one_bill cancellation.1
      cancellation.0 one_bill-IsConsistent cancellation-eq
