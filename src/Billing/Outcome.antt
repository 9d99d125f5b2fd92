-- ===== src/Billing/Outcome.antt =====
-- What the attempt to bill one unit has found and done, and the state after a loop over units.
use ccb_api.Base.{
  ℕ, ◌≡◌, refl, ◌≤◌, ◌∙◌, sym, ap, Option, none, some, List, [], ◌++◌, arith, count_if, All, inl,
  inr, Option-cases,
}
use mathlib.Core.Path.{subst}
use mathlib.Core.List.{append_assoc}
use ccb_api.Base.Result.{HttpError, Result, ok, err, ◌>>=◌, Result-cases}
use ccb_api.Base.Rows.{IsDescending, All-append}
use ccb_api.BillRun.Data.{BillRun}
use ccb_api.Billing.Data.{Bill, State, Sources, bill_key}
use ccb_api.Billing.Generate.{
  Draft, draft_bill, new_bill, is_bill_of, existing_bill, insert_bill, generate_one_bill,
  resolve_tariff, try_unit,
}

-- Bill ids descend below the next one, and no unit has two bills of one run.
pub record IsConsistent (st : State) : Type 0 where
  pub ids : IsDescending bill_key st.next_bill_id st.bills
  pub unique : (run_id uid : ℕ) → count_if (is_bill_of run_id uid) st.bills ≤ 1

module _ (src : Sources) (run : BillRun) where
  -- What a bill of the unit would be made of, or why there is none.
  abbrev pub attempt : ℕ → Result Draft
  attempt uid = resolve_tariff src run uid >>= draft_bill src run uid

  -- A bill that the run's generation has made of a unit's draft.
  abbrev pub IsMade : Option ℕ → ℕ → Bill → Type 0
  IsMade actor now b =
      (d : Draft) × (attempt b.unit_id ≡ ok d) × (b ≡ new_bill run b.unit_id d actor now b.id)

  -- The bills of a state and new ones before them, all made by this generation.
  pub record Extends (actor : Option ℕ) (now : ℕ) (st st' : State) : Type 0 where
    pub new : List Bill
    pub added : st'.bills ≡ new ++ st.bills
    pub made : All (IsMade actor now) new

  pub Extends-refl : (actor : Option ℕ) (now : ℕ) (st : State) → Extends actor now st st
  Extends-refl actor now st = record { new = []; added = refl; made = tt }

  pub Extends-trans :
      (actor : Option ℕ) (now : ℕ) (r s t : State)
      → Extends actor now r s
      → Extends actor now s t
      → Extends actor now r t
  Extends-trans actor now r s t a b = record {
    new = b.new ++ a.new;
    added = b.added ∙ (ap (λ bs. b.new ++ bs) a.added ∙ sym (append_assoc b.new a.new r.bills));
    made = All-append (IsMade actor now) b.new a.new b.made a.made;
  }

  -- The three ways in which the attempt to bill a unit ends.
  pub data Outcome (actor : Option ℕ) (now uid : ℕ) (st : State)
      : Result (Bill × State) → Type 0 where
    there :
        (b : Bill) → existing_bill run.id uid st ≡ some b → Outcome actor now uid st (ok (b, st))
    inserted :
        (d : Draft)
        → existing_bill run.id uid st ≡ none
        → attempt uid ≡ ok d
        → Outcome actor now uid st (ok (insert_bill run uid d actor now st))
    refused : (e : HttpError) → attempt uid ≡ err e → Outcome actor now uid st (err e)

  module _ (actor : Option ℕ) (now uid : ℕ) (st : State) where
    is_outcome :
        {r : Result (Bill × State)}
        → try_unit src run actor now uid st ≡ r
        → Outcome actor now uid st r
        → Outcome actor now uid st (try_unit src run actor now uid st)
    is_outcome e o = subst (Outcome actor now uid st) (sym e) o

    pub try_unit-Outcome : Outcome actor now uid st (try_unit src run actor now uid st)
    unfolding try_unit generate_one_bill
    try_unit-Outcome = elim (Result-cases (resolve_tariff src run uid)) [
      | inr (e, p) ↦ is_outcome (ground arith) (refused e (ground arith))
      | inl (tariff, p) ↦ elim (Option-cases (existing_bill run.id uid st)) [
        | inr (b, q) ↦ is_outcome (ground arith) (there b q)
        | inl q ↦ elim (Result-cases (draft_bill src run uid tariff)) [
          | inr (e, r) ↦ is_outcome (ground arith) (refused e (ground arith))
          | inl (d, r) ↦ is_outcome (ground arith) (inserted d q (ground arith))
        ]
      ]
    ]
