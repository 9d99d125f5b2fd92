-- ===== src/Billing/Generate.antt =====
-- `generateBillsForBillRun` and `generateOneBill`. Each unit's bill is a transaction of its own, and a
-- unit that fails is listed with its reason.
use ccb_api.Base.{
  ℕ, suc, ◌+◌, Bool, true, false, not, ◌&&◌, Option, none, some, List, [], ◌∷◌, ◌++◌, map, ◌==◌,
  if◌then◌else◌, filter, any, find, length, get_or_else, leb,
}
use mathlib.Core.Option
use ccb_api.Base.Int.{ℤ, pos, negsuc}
use ccb_api.Base.Result.{
  Message, text, lit, num, decimal, not_found, bad_request, Result, ok, err, ◌>>=◌, ◌>>◌, throw_if,
  or_throw,
}
use ccb_api.Readiness.Data.{UnitRow, TariffAsOf}
use ccb_api.Readiness.Current.{billable_units}
use ccb_api.Readiness.Recovery.{current_customer}
use ccb_api.BillRun.Data.{BillRunStatus, BillRun, run_by_id, generate_business_code}
use ccb_api.BillRun.Data as Runs
use ccb_api.BillRun.Batch.{message_of}
use ccb_api.Billing.Data.{
  Halves, BillStatus, Bill, ChargeLine, BillLineItem, TariffRateType, TariffVersion, TariffTier,
  State, Sources,
}
use ccb_api.Billing.Doubles.{halves_in}
use ccb_api.Billing.Charges.{
  Calculation, calculate_consumption, calculate_charges, validate_reconciliation,
}

-- The tiers of a version in the order of `tierOrder`.
abbrev pub insert_tier : TariffTier → List TariffTier → List TariffTier
insert_tier t [] = t ∷ []
insert_tier t (s ∷ tiers) =
    if leb t.tier_order s.tier_order then t ∷ s ∷ tiers else s ∷ insert_tier t tiers

abbrev pub in_tier_order : List TariffTier → List TariffTier
in_tier_order [] = []
in_tier_order (t ∷ tiers) = insert_tier t (in_tier_order tiers)

-- Only a tiered version has tiers.
abbrev pub tiers_for : Sources → TariffVersion → List TariffTier
tiers_for src v = elim v.rate_type [
  | TariffRateType.flat ↦ []
  | TariffRateType.tiered ↦ in_tier_order (src.tiers_of v.id)
]

-- A consumption that is there and not negative.
abbrev pub billable_consumption : ℕ → Option ℤ → Result ℕ
billable_consumption uid none = err (
    bad_request (
      lit "No qualifying meter reading found for unit "
      ∷ num uid
      ∷ lit " in this billing period"
      ∷ []))
billable_consumption uid (some (pos kwh)) = ok kwh
billable_consumption uid (some (negsuc n)) = err (
    bad_request (
      lit "Negative consumption (-"
      ∷ decimal 4 (n + 1)
      ∷ lit " kWh) for unit "
      ∷ num uid
      ∷ lit " — blocked, not billed as zero"
      ∷ []))

-- What a new bill is made of.
pub record Draft : Type 0 where
  pub customer_id : ℕ
  pub kwh : ℕ
  pub tariff : TariffVersion
  pub charges : Calculation

-- The part of `generateOneBill` that reads: every check in the order of the code.
abbrev pub halves_for : Sources → BillRun → ℕ → Halves
halves_for src run uid = halves_in src uid run.cycle_period_start run.cycle_period_end

unfoldable pub draft_bill : Sources → BillRun → ℕ → Option TariffVersion → Result Draft
draft_bill src run uid tariff = do
  v ← or_throw tariff (bad_request (lit "No active tariff resolves for unit " ∷ num uid ∷ []))
  customer ←
      or_throw (current_customer (src.services.customers_of_unit uid)) (
        bad_request (lit "No current customer (tenant or owner) resolves for unit " ∷ num uid ∷ []))
  kwh ←
      billable_consumption uid
        (calculate_consumption src uid run.cycle_period_start run.cycle_period_end)
  validate_reconciliation (calculate_charges (halves_for src run uid) kwh v (tiers_for src v))
  ok (record {
    customer_id = customer.id;
    kwh = kwh;
    tariff = v;
    charges = calculate_charges (halves_for src run uid) kwh v (tiers_for src v);
  })

abbrev pub new_bill : BillRun → ℕ → Draft → Option ℕ → ℕ → ℕ → Bill
new_bill run uid d actor now id = record {
  id = id;
  business_code = some (generate_business_code (text "INV") id);
  bill_run_id = run.id;
  property_id = run.property_id;
  unit_id = uid;
  customer_id = d.customer_id;
  billing_cycle_master_id = run.cycle_master_id;
  billing_cycle_version_id = run.cycle_version_id;
  billing_period_start = run.cycle_period_start;
  billing_period_end = run.cycle_period_end;
  bill_issue_date = run.bill_issue_date;
  bill_due_date = run.bill_due_date;
  consumption_kwh = d.kwh;
  tariff_version_id = d.tariff.id;
  tariff_rate_snapshot = d.charges.effective_rate;
  billing_service_fee_snapshot = get_or_else d.tariff.billing_service_fee 0;
  vat_rate_snapshot = get_or_else d.tariff.vat 0;
  subtotal = d.charges.subtotal;
  vat_amount = d.charges.vat_amount;
  total_due = d.charges.total_due;
  status = BillStatus.issued;
  generated_at = now;
  generated_by_id = actor;
  issued_at = some now;
  issued_by_id = actor;
  cancelled_at = none;
  cancelled_by_id = none;
  cancellation_reason = none;
}

-- `calc.lineItems.map((li, i) => …)`, numbered from `order`.
abbrev pub number_lines : ℕ → ℕ → List ChargeLine → List BillLineItem
number_lines id order [] = []
number_lines id order (l ∷ lines) =
    record { bill_id = id; line = l; display_order = order } ∷ number_lines id (suc order) lines

abbrev pub is_bill_of : ℕ → ℕ → Bill → Bool
is_bill_of run_id uid b = (b.bill_run_id == run_id) && (b.unit_id == uid)

abbrev pub existing_bill : ℕ → ℕ → State → Option Bill
existing_bill run_id uid st = find (is_bill_of run_id uid) st.bills

abbrev pub insert_bill : BillRun → ℕ → Draft → Option ℕ → ℕ → State → Bill × State
insert_bill run uid d actor now st =
    let bill = new_bill run uid d actor now st.next_bill_id in
    (
      bill,
      record {
        bills = bill ∷ st.bills;
        next_bill_id = suc st.next_bill_id;
        line_items = number_lines bill.id 1 d.charges.line_items ++ st.line_items;
      },
    )

unfoldable pub generate_one_bill :
    Sources → BillRun → ℕ → Option TariffVersion → Option ℕ → ℕ → State → Result (Bill × State)
unfolding draft_bill
generate_one_bill src run uid tariff actor now st = elim (existing_bill run.id uid st) [
  | some b ↦ ok (b, st)
  | none ↦ draft_bill src run uid tariff >>= λ d. ok (insert_bill run uid d actor now st)
]

-- `resolveForUnitsAsOf` for a recovered period, `resolveForUnits` for any other run.
unfoldable pub resolve_tariff : Sources → BillRun → ℕ → Result (Option TariffVersion)
resolve_tariff src run uid = elim run.tariff_resolution_date [
  | none ↦ ok (Option.map src.tariff_version (src.services.resolve_for_unit uid))
  | some date ↦ elim (src.services.resolve_for_unit_as_of uid date) [
    | TariffAsOf.no_match ↦ ok none
    | TariffAsOf.version vid ↦ ok (some (src.tariff_version vid))
    | TariffAsOf.ambiguous ↦ err (
        bad_request (
          lit "Tariff as of "
          ∷ num date
          ∷ lit " is ambiguous for unit "
          ∷ num uid
          ∷ lit
              " — more than one overlapping tariff version matches and cannot be resolved automatically"
          ∷ []))
  ]
]

-- The body of the `try`.
unfoldable pub try_unit : Sources → BillRun → Option ℕ → ℕ → ℕ → State → Result (Bill × State)
unfolding generate_one_bill resolve_tariff
try_unit src run actor now uid st =
    resolve_tariff src run uid >>= λ tariff. generate_one_bill src run uid tariff actor now st

pub record Failure : Type 0 where
  pub unit_id : ℕ
  pub reason : Message

-- The bills generated, the units that failed and the state, so far.
abbrev pub Progress : Type 0
Progress = List Bill × List Failure × State

abbrev pub add_result : ℕ → Result (Bill × State) → Progress → Progress
add_result uid (ok (bill, after)) (generated, failed, st) = (generated ++ bill ∷ [], failed, after)
add_result uid (err e) (generated, failed, st) =
    (generated, failed ++ record { unit_id = uid; reason = message_of e } ∷ [], st)

unfoldable pub generate_each : Sources → BillRun → Option ℕ → ℕ → List ℕ → Progress → Progress
unfolding try_unit
generate_each src run actor now [] done = done
generate_each src run actor now (uid ∷ uids) done =
    generate_each src run actor now uids
      (add_result uid (try_unit src run actor now uid done.2) done)

pub record Report : Type 0 where
  pub generated : List Bill
  pub failed : List Failure
  pub already_billed : ℕ

abbrev pub is_approved : BillRun → Bool
is_approved r = elim r.status [ BillRunStatus.approved ↦ true | _ ↦ false ]

-- `In(unitIds.length ? unitIds : [0])`
abbrev pub or_zero : List ℕ → List ℕ
or_zero [] = 0 ∷ []
or_zero (u ∷ uids) = u ∷ uids

-- The bills of the run for these units.
abbrev pub already_billed : ℕ → List ℕ → State → List Bill
already_billed run_id uids st =
    filter (λ b. (b.bill_run_id == run_id) && any (λ u. u == b.unit_id) (or_zero uids)) st.bills

abbrev pub pending_units : ℕ → List ℕ → State → List ℕ
pending_units run_id uids st =
    filter (λ u. not (any (λ (b : Bill). b.unit_id == u) (already_billed run_id uids st))) uids

-- The run whose bills may be generated.
unfoldable pub run_to_bill : ℕ → Runs.State → Result BillRun
run_to_bill id runs = do
  run ← or_throw (run_by_id id runs) (not_found (text "Bill run not found"))
  throw_if (not (is_approved run))
      (bad_request (text "Bills can only be generated for an APPROVED bill run"))
  ok run

abbrev pub unit_ids : Sources → BillRun → List ℕ
unit_ids src run = map (λ (u : UnitRow). u.id) (billable_units src.tables run.property_id)

-- The units that have no bill of the run yet.
abbrev pub generate_pending : Sources → BillRun → Option ℕ → ℕ → State → Progress
generate_pending src run actor now st =
    generate_each src run actor now (pending_units run.id (unit_ids src run) st) ([], [], st)

unfoldable pub generate_bills_for_bill_run :
    Sources → ℕ → Option ℕ → ℕ → Runs.State → State → Result (Report × State)
generate_bills_for_bill_run src id actor now runs st = do
  run ← run_to_bill id runs
  let done = generate_pending src run actor now st
  ok (
    record {
      generated = done.0;
      failed = done.1;
      already_billed = length (already_billed run.id (unit_ids src run) st);
    },
    done.2,
  )
