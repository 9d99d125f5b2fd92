-- ===== src/Billing/Generation.antt =====
-- `generateBillsForBillRun` as a whole: what a call leaves, and that a second call changes nothing.
use ccb_api.Base.{
  ℕ, ◌+◌, ◌≡◌, refl, sym, ap, Bool, true, false, not, ◌&&◌, Option, List, [], ◌∷◌, arith, ◌==◌, any,
  filter, find, count_if, if◌then◌else◌, length, is_some, is_none, All, inl, inr, Bool-cases,
}
use mathlib.Core.Path.{subst}
use ccb_api.Base.Result.{ok, Result-cases}
use ccb_api.Base.Rows.{filter_congr, All-imp, find-append}
use ccb_api.BillRun.Data as Runs
use ccb_api.BillRun.Data.{BillRun}
use ccb_api.Billing.Data.{Bill, State, Sources}
use ccb_api.Billing.Generate.{
  is_bill_of, existing_bill, Report, pending_units, run_to_bill, unit_ids, generate_pending,
  generate_bills_for_bill_run,
}
use ccb_api.Billing.Outcome.{IsConsistent, Extends}
use ccb_api.Billing.Once.{IsSettled, IsTally, generate_each-IsTally}

-- A unit without a bill of the run.
abbrev pub is_unbilled : ℕ → State → ℕ → Bool
is_unbilled run_id st uid = is_none (existing_bill run_id uid st)

any_self : (uids : List ℕ) → All (λ u. any (λ x. x == u) uids ≡ true) uids
any_self [] = tt
any_self (v ∷ uids) = (ground arith, All-imp uids (λ u h. ground arith) (any_self uids))

any-billed :
    (run_id u : ℕ) (uids : List ℕ) (bills : List Bill)
    → any (λ x. x == u) uids ≡ true
    → not (
        any
          (λ (b : Bill). b.unit_id == u)
          (filter (λ b. (b.bill_run_id == run_id) && any (λ x. x == b.unit_id) uids) bills))
      ≡ is_none (find (is_bill_of run_id u) bills)
any-billed run_id u uids [] h = refl
any-billed run_id u uids (b ∷ bills) h = elim (Bool-cases (b.unit_id == u)) [
  | inl e ↦
      let listed : any (λ x. x == b.unit_id) uids ≡ true =
        subst (λ k. any (λ x. x == k) uids ≡ true) (ground arith) h in
      ground (arith, listed, any-billed run_id u uids bills h)
  | inr e ↦ ground (arith, any-billed run_id u uids bills h)
]

pub pending_units-eq :
    (run_id : ℕ) (uids : List ℕ) (st : State)
    → pending_units run_id uids st ≡ filter (is_unbilled run_id st) uids
pending_units-eq run_id [] st = refl
pending_units-eq run_id (v ∷ uids) st =
    filter_congr _ _ (v ∷ uids)
      (All-imp (v ∷ uids) (λ u h. any-billed run_id u (v ∷ uids) st.bills h) (any_self (v ∷ uids)))

-- A predicate of all rows, from those that pass a test and those that do not.
All-unfilter {ℓ κ} :
    {A : Type ℓ} (P : A → Type κ) (p : A → Bool) (xs : List A)
    → ((x : A) → p x ≡ false → P x)
    → All P (filter p xs)
    → All P xs
All-unfilter P p [] f h = tt
All-unfilter P p (x ∷ xs) f h =
    let passed : (b : Bool) → p x ≡ b → All P (if b then x ∷ filter p xs else filter p xs) =
      λ b e. subst (λ c. All P (if c then x ∷ filter p xs else filter p xs)) e h in
    elim (Bool-cases (p x)) [
      | inl e ↦ ((passed true e).0, All-unfilter P p xs f (passed true e).1)
      | inr e ↦ (f x e, All-unfilter P p xs f (passed false e))
    ]

module _ (src : Sources) (id : ℕ) (actor : Option ℕ) (now : ℕ) (runs : Runs.State)
    (st : State) where
  -- A call that succeeds: on a consistent table it leaves a consistent one, to which only bills made
  -- by this call are added; the bills and the failures that it lists are as many as the active
  -- units that had no bill of the run; and each active unit has a bill of the run by then, or none
  -- can be drafted for it.
  pub record IsGenerated (report : Report) (st' : State) : Type 0 where
    pub run : BillRun
    pub found : run_to_bill id runs ≡ ok run
    pub consistent : IsConsistent st'
    pub extends : Extends src run actor now st st'
    pub tally :
        length report.generated + length report.failed
        ≡ count_if (is_unbilled run.id st) (unit_ids src run)
    pub settled : All (IsSettled src run st') (unit_ids src run)

  pub generate-cases :
      {report : Report} {st' : State}
      → generate_bills_for_bill_run src id actor now runs st ≡ ok (report, st')
      → (run : BillRun) × (run_to_bill id runs ≡ ok run)
        × (report.generated ≡ (generate_pending src run actor now st).0)
        × (report.failed ≡ (generate_pending src run actor now st).1)
        × (st' ≡ (generate_pending src run actor now st).2)
  unfolding generate_bills_for_bill_run
  generate-cases {report} {st'} h = elim (Result-cases (run_to_bill id runs)) [
    | inr (e, p) ↦ ground arith
    | inl (run, p) ↦ (run, p, ground arith, ground arith, ground arith)
  ]

  pending-IsTally :
      (run : BillRun)
      → IsConsistent st
      → IsTally src run actor now
          (pending_units run.id (unit_ids src run) st)
          ([], [], st)
          (generate_pending src run actor now st)
  pending-IsTally run c =
      generate_each-IsTally src run actor now (pending_units run.id (unit_ids src run) st)
        ([], [], st) c

  -- The units that had a bill keep it.
  unit_ids-IsSettled :
      (run : BillRun) (st' : State)
      → Extends src run actor now st st'
      → All (IsSettled src run st') (pending_units run.id (unit_ids src run) st)
      → All (IsSettled src run st') (unit_ids src run)
  unit_ids-IsSettled run st' x settled =
      All-unfilter (IsSettled src run st') (is_unbilled run.id st) (unit_ids src run)
        (λ u billed. inl (
          subst (λ bs. is_some (find (is_bill_of run.id u) bs) ≡ true) (sym x.added)
            (find-append (is_bill_of run.id u) x.new st.bills (ground arith))))
        (subst (All (IsSettled src run st')) (pending_units-eq run.id (unit_ids src run) st)
          settled)

  -- A generation of the bills of a run that succeeds, on a table with descending ids and at most
  -- one bill for each unit and run, leaves such a table: to the bills that were there it only adds
  -- ones that it has made, each from the draft of its unit; the bills and the failures that it
  -- reports are as many as the active units without a bill of the run before; and by then each
  -- active unit of the property has a bill of the run, or none can be drafted for it.
  pub generate_bills-IsGenerated :
      {report : Report} {st' : State}
      → IsConsistent st
      → generate_bills_for_bill_run src id actor now runs st ≡ ok (report, st')
      → IsGenerated report st'
  generate_bills-IsGenerated {report} {st'} c h =
      let (run, p, g, f, e) = generate-cases h in
      let t = pending-IsTally run c in
      let x = subst (Extends src run actor now st) (sym e) t.extends in
      record {
        run = run;
        found = p;
        consistent = subst IsConsistent (sym e) t.consistent;
        extends = x;
        tally = omega (
          arith,
          t.tally,
          ap length g,
          ap length f,
          ap length (pending_units-eq run.id (unit_ids src run) st),
        );
        settled = unit_ids-IsSettled run st' x (
            subst (λ s. All (IsSettled src run s) (pending_units run.id (unit_ids src run) st))
              (sym e) t.settled);
      }
