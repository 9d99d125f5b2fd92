-- ===== src/Billing/Once.antt =====
-- The generation of a run's bills keeps the bills that are there, bills each unit at most once, and
-- leaves no unit without a bill or a reason.
use ccb_api.Base.{
  ℕ, ◌+◌, ◌≡◌, refl, sym, true, Option, none, List, [], ◌∷◌, arith, find, length, is_some, All, ◌⊎◌,
  inl, inr,
}
use mathlib.Core.Path.{subst}
use ccb_api.Base.Result.{HttpError, Result, err}
use ccb_api.Base.Rows.{find-append, count_if-absent, length-snoc}
use ccb_api.BillRun.Data.{BillRun}
use ccb_api.Billing.Data.{Bill, State, Sources}
use ccb_api.Billing.Generate.{
  Draft, new_bill, is_bill_of, existing_bill, insert_bill, try_unit, Progress, add_result,
  generate_each,
}
use ccb_api.Billing.Outcome.{
  IsConsistent, attempt, Extends, Extends-refl, Extends-trans, Outcome, there, inserted, refused,
  try_unit-Outcome,
}

insert_bill-IsConsistent :
    (run : BillRun) (uid : ℕ) (d : Draft) (actor : Option ℕ) (now : ℕ) (st : State)
    → IsConsistent st
    → existing_bill run.id uid st ≡ none
    → IsConsistent (insert_bill run uid d actor now st).1
insert_bill-IsConsistent run uid d actor now st c free = record {
  ids = (omega arith, c.ids);
  unique = λ run_id u.
      ground (arith, c.unique run_id u, count_if-absent (is_bill_of run.id uid) st.bills free);
}

module _ (src : Sources) (run : BillRun) where
  -- A unit has a bill of the run, or none can be drafted for it.
  abbrev pub IsSettled : State → ℕ → Type 0
  IsSettled st uid =
      (is_some (existing_bill run.id uid st) ≡ true)
      ⊎ ((e : HttpError) × (attempt src run uid ≡ err e))

  -- What a loop over units has done since `before`.
  pub record IsTally (actor : Option ℕ) (now : ℕ) (uids : List ℕ) (before after : Progress)
      : Type 0 where
    pub consistent : IsConsistent after.2
    pub extends : Extends src run actor now before.2 after.2
    pub tally : length after.0 + length after.1 ≡ length before.0 + length before.1 + length uids
    pub settled : All (IsSettled after.2) uids

  IsSettled-Extends :
      (actor : Option ℕ) (now uid : ℕ) (s t : State)
      → Extends src run actor now s t
      → IsSettled s uid
      → IsSettled t uid
  IsSettled-Extends actor now uid s t x (inl h) = inl (
      subst (λ bs. is_some (find (is_bill_of run.id uid) bs) ≡ true) (sym x.added)
        (find-append (is_bill_of run.id uid) x.new s.bills h))
  IsSettled-Extends actor now uid s t x (inr h) = inr h

  module _ (actor : Option ℕ) (now : ℕ) where
    add_result-IsTally :
        (uid : ℕ) (done : Progress) {r : Result (Bill × State)}
        → IsConsistent done.2
        → Outcome src run actor now uid done.2 r
        → IsTally actor now (uid ∷ []) done (add_result uid r done)
    add_result-IsTally uid (g, f, st) c (there b e) = record {
      consistent = c;
      extends = Extends-refl src run actor now st;
      tally = omega (arith, length-snoc g b);
      settled = (inl (rw e refl), tt);
    }
    add_result-IsTally uid (g, f, st) c (inserted d e p) = record {
      consistent = insert_bill-IsConsistent run uid d actor now st c e;
      extends = record {
        new = new_bill run uid d actor now st.next_bill_id ∷ [];
        added = refl;
        made = ((d, p, refl), tt);
      };
      tally = omega (arith, length-snoc g (new_bill run uid d actor now st.next_bill_id));
      settled = (inl (ground arith), tt);
    }
    add_result-IsTally uid (g, f, st) c (refused e p) = record {
      consistent = c;
      extends = Extends-refl src run actor now st;
      tally = omega (arith, length-snoc f _);
      settled = (inr (e, p), tt);
    }

    pub generate_each-IsTally :
        (uids : List ℕ) (done : Progress)
        → IsConsistent done.2
        → IsTally actor now uids done (generate_each src run actor now uids done)
    unfolding generate_each
    generate_each-IsTally [] done c = record {
      consistent = c;
      extends = Extends-refl src run actor now done.2;
      tally = omega arith;
      settled = tt;
    }
    generate_each-IsTally (uid ∷ uids) done c =
        let next = add_result uid (try_unit src run actor now uid done.2) done in
        let first = add_result-IsTally uid done c (try_unit-Outcome src run actor now uid done.2) in
        let rest = generate_each-IsTally uids next first.consistent in
        record {
          consistent = rest.consistent;
          extends =
              Extends-trans src run actor now done.2 next.2
                (generate_each src run actor now uids next).2 first.extends rest.extends;
          tally = omega (arith, first.tally, rest.tally);
          settled = (
            IsSettled-Extends actor now uid next.2 (generate_each src run actor now uids next).2
                rest.extends first.settled.0,
            rest.settled,
          );
        }
