-- ===== src/Billing/Again.antt =====
-- A second generation of a run's bills, and the generation that an approval starts.
use ccb_api.Base.{
  ℕ, ◌≡◌, refl, ◌∙◌, sym, ap, true, Option, List, [], ◌∷◌, arith, filter, All, inl, inr,
}
use mathlib.Core.Path.{subst}
use ccb_api.Base.Result.{Result, HttpError, ok, err, Result-cases}
use ccb_api.Base.Rows.{All-filter, All-imp}
use ccb_api.BillRun.Data.{BillRun, run_by_id}
use ccb_api.BillRun.Data as Runs
use ccb_api.Billing.Data.{Bill, State, Sources}
use ccb_api.Billing.Generate.{
  generate_one_bill, resolve_tariff, try_unit, generate_each, Failure, Report, unit_ids,
  pending_units, generate_pending, generate_bills_for_bill_run,
}
use ccb_api.Billing.Outcome.{IsConsistent, attempt}
use ccb_api.Billing.Once.{IsSettled}
use ccb_api.Billing.Generation.{
  is_unbilled, pending_units-eq, generate_bills-IsGenerated, generate-cases,
}

module _ (src : Sources) (run : BillRun) (actor : Option ℕ) (now : ℕ) (st : State) where
  -- No bill of the unit is there, and none can be drafted.
  abbrev IsRefused : ℕ → Type 0
  IsRefused uid =
      (is_unbilled run.id st uid ≡ true) × ((e : HttpError) × (attempt src run uid ≡ err e))

  IsRefused-settled :
      (uid : ℕ) → (is_unbilled run.id st uid ≡ true) × IsSettled src run st uid → IsRefused uid
  IsRefused-settled uid (u, inl there) = ground arith
  IsRefused-settled uid (u, inr refused) = (u, refused)

  try_unit-refused :
      (uid : ℕ) → IsRefused uid → (e : HttpError) × (try_unit src run actor now uid st ≡ err e)
  unfolding try_unit generate_one_bill
  try_unit-refused uid (u, (e, a)) = elim (Result-cases (resolve_tariff src run uid)) [
    | inr (x, p) ↦ (x, ground arith)
    | inl (tariff, p) ↦ (e, ground arith)
  ]

  generate_each-refused :
      (uids : List ℕ) (g : List Bill) (f : List Failure)
      → All IsRefused uids
      → ((generate_each src run actor now uids (g, f, st)).0 ≡ g)
        × ((generate_each src run actor now uids (g, f, st)).2 ≡ st)
  unfolding generate_each
  generate_each-refused [] g f h = (refl, refl)
  generate_each-refused (uid ∷ uids) g f h =
      let (e, p) = try_unit-refused uid h.0 in
      rw (generate_each, p) (generate_each-refused uids g _ h.1)

  generate_pending-settled :
      All (IsSettled src run st) (unit_ids src run)
      → ((generate_pending src run actor now st).0 ≡ [])
        × ((generate_pending src run actor now st).2 ≡ st)
  generate_pending-settled s =
      let uids = unit_ids src run in
      generate_each-refused (pending_units run.id uids st) [] [] (
        subst (All IsRefused) (sym (pending_units-eq run.id uids st)) (
          All-imp (filter (is_unbilled run.id st) uids) IsRefused-settled
            (All-filter (IsSettled src run st) (is_unbilled run.id st) uids s)))

abbrev outcome : Report → State → Result (Report × State)
outcome report st = ok (report, st)

-- After a generation of the bills of a run that succeeds, on a table with descending ids and at
-- most one bill for each unit and run, a second one succeeds, by anyone and at any time, generates
-- no bill and leaves the table as it is, as long as what it reads of units, tariffs, customers and
-- readings is the same.
pub generate_bills-again :
    (src : Sources) (id : ℕ) (actor actor' : Option ℕ) (now now' : ℕ) (runs : Runs.State)
    (st st' : State) (report : Report)
    → IsConsistent st
    → generate_bills_for_bill_run src id actor now runs st ≡ ok (report, st')
    → (again : Report) × (generate_bills_for_bill_run src id actor' now' runs st' ≡ ok (again, st'))
      × (again.generated ≡ [])
unfolding generate_bills_for_bill_run
generate_bills-again src id actor actor' now now' runs st st' report c h =
    let g = generate_bills-IsGenerated src id actor now runs st c h in
    elim (Result-cases (generate_bills_for_bill_run src id actor' now' runs st')) [
      | inr (e, p) ↦ absurd (ground (arith, g.found))
      | inl ((again, s), p) ↦
          let (run, found, none_new, failed, after) =
            generate-cases src id actor' now' runs st' p in
          let same : g.run ≡ run = ground (arith, g.found) in
          let quiet =
            generate_pending-settled src run actor' now' st'
              (subst (λ r. All (IsSettled src r st') (unit_ids src r)) same g.settled) in
          (again, p ∙ ap (λ t. outcome again t) (after ∙ quiet.1), none_new ∙ quiet.0)
    ]
