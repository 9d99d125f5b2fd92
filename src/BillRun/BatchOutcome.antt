-- ===== src/BillRun/BatchOutcome.antt =====
-- What a batch that succeeds has submitted and skipped.
use ccb_api.Base.{
  any, if◌then◌else◌, Bool-cases, distinct, ap, Bool, ◌==◌, count_if, ℕ, suc, ◌+◌, ◌≡◌, refl, ◌≢◌,
  Option, none, some, List, [], ◌∷◌, ◌++◌, arith, length, All, inl, inr,
}
use mathlib.Core.Path.{subst}
use ccb_api.Base.Rows.{length-snoc}
use ccb_api.Base.Result.{Message, HttpError, ok, err, Result-cases}
use ccb_api.BillRun.Data.{BillRun, BillRunBatch, State, Surroundings}
use ccb_api.BillRun.Submit.{submit_within_transaction, new_run}
use ccb_api.BillRun.Batch.{
  BatchReport, Progress, Skipped, message_of, property_name_of, add_outcome, submit_each,
  submit_batch, finish, new_batch, with_batch,
}
use ccb_api.BillRun.Unique.{IsConsistent, submit_within-cases, submit_within-IsConsistent}

All-snoc {ℓ κ} :
    {A : Type ℓ} (P : A → Type κ) (xs : List A) (x : A) → All P xs → P x → All P (xs ++ x ∷ [])
All-snoc P [] x h p = (p, tt)
All-snoc P (y ∷ xs) x h p = (h.0, All-snoc P xs x h.1 p)

-- After `n` rounds: so many runs and skips, all runs of the batch, and a consistent state.
pub record IsTally (batch n : ℕ) (done : Progress) : Type 0 where
  pub total : length done.0 + length done.1 ≡ n
  pub of_batch : All (λ r. r.batch_id ≡ some batch) done.0
  pub consistent : IsConsistent done.2

count_if-snoc :
    {A : Type 0} (p : A → Bool) (xs : List A) (x : A)
    → count_if p (xs ++ x ∷ []) ≡ count_if p xs + count_if p (x ∷ [])
count_if-snoc p [] x = ground arith
count_if-snoc p (y ∷ xs) x = ground (arith, count_if-snoc p xs x)

-- Each number of a list is once among its different ones.
count_if-distinct :
    (q : ℕ) (seen ids : List ℕ)
    → count_if (λ x. x == q) (distinct seen ids)
      ≡ (if any (λ y. y == q) seen then 0 else if any (λ x. x == q) ids then 1 else 0)
count_if-distinct q seen [] = ground arith
count_if-distinct q seen (x ∷ ids) =
    let rest = count_if-distinct q seen ids in
    let rest' = count_if-distinct q (x ∷ seen) ids in
    elim (Bool-cases (x == q)) [
      | inl e ↦
          let same : x ≡ q = ground arith in
          let listed : any (λ y. y == x) seen ≡ any (λ y. y == q) seen =
            ap (λ k. any (λ y. y == k) seen) same in
          ground (arith, listed, rest, rest')
      | inr e ↦ ground (arith, rest, rest')
    ]

count_if_one :
    {A B : Type 0} (p : A → Bool) (q : B → Bool) (x : A) (y : B)
    → p x ≡ q y
    → count_if p (x ∷ []) ≡ count_if q (y ∷ [])
count_if_one p q x y h = ground (arith, h)

add_outcome-IsTally :
    (env : Surroundings) (notes : Option Message) (batch : ℕ) (actor : Option ℕ) (now pid n : ℕ)
    (done : Progress)
    → IsTally batch n done
    → IsTally batch (suc n) (
        add_outcome env pid
          (submit_within_transaction env pid notes (some batch) actor none now done.2)
          done)
add_outcome-IsTally env notes batch actor now pid n (runs, skipped, st) h =
    elim (Result-cases (submit_within_transaction env pid notes (some batch) actor none now st)) [
      | inr (e, p) ↦ rw p (record {
        total = omega (arith, h.total, length-snoc skipped _);
        of_batch = h.of_batch;
        consistent = h.consistent;
      })
      | inl ((run, after), p) ↦
          let (plan, planned, free, made, written) =
            submit_within-cases env pid notes (some batch) actor none now st after run p in
          rw p (record {
            total = omega (arith, h.total, length-snoc runs run);
            of_batch =
                All-snoc (λ r. r.batch_id ≡ some batch) runs run h.of_batch
                  (unfold new_run in ground arith);
            consistent =
                submit_within-IsConsistent env pid notes (some batch) actor none now st after run
                  h.consistent p;
          })
    ]

submit_each-IsTally :
    (env : Surroundings) (notes : Option Message) (batch : ℕ) (actor : Option ℕ) (now : ℕ)
    (pids : List ℕ) (n : ℕ) (done : Progress)
    → IsTally batch n done
    → IsTally batch (n + length pids) (submit_each env notes batch actor now pids done)
unfolding submit_each
submit_each-IsTally env notes batch actor now [] n done h =
    subst (λ k. IsTally batch k done) (omega arith) h
submit_each-IsTally env notes batch actor now (pid ∷ pids) n done h =
    subst
      (λ k. IsTally batch k (
        submit_each env notes batch actor now pids (
          add_outcome env pid
            (submit_within_transaction env pid notes (some batch) actor none now done.2) done)))
      (omega arith)
      (submit_each-IsTally env notes batch actor now pids (suc n) _
        (add_outcome-IsTally env notes batch actor now pid n done h))

finish-IsTally :
    (b : BillRunBatch) (n : ℕ) (done : Progress) (report : BatchReport) (st' : State)
    → IsTally b.id n done
    → finish b done ≡ ok (report, st')
    → (report.submitted ≢ [])
      × (report.batch ≡ b)
      × IsTally b.id n (report.submitted, report.skipped, st')
finish-IsTally b n ([], skipped, st) report st' h e = cc
finish-IsTally b n (run ∷ runs, skipped, st) report st' h e =
    let r : report ≡ record { batch = b; submitted = run ∷ runs; skipped = skipped } =
      ground arith in
    let s : st' ≡ st = ground arith in (rw r (cc), rw r refl, rw (r, s) h)

module _ (env : Surroundings) (notes : Option Message) (batch : ℕ) (actor : Option ℕ)
    (now : ℕ) where
  -- A property that was skipped: its submission had thrown the reason.
  abbrev pub IsSkip : Skipped → Type 0
  IsSkip s =
      (at : State) × (e : HttpError) × (submit_within_transaction env s.property_id notes
          (some batch) actor none now at
        ≡ err e)
      × (s.reason ≡ message_of e)

  -- A property stands in the two lists together as often as it should.
  pub record IsSplit (times : ℕ → ℕ) (done : Progress) : Type 0 where
    pub each :
        (pid : ℕ)
        → count_if (λ (r : BillRun). r.property_id == pid) done.0
            + count_if (λ (s : Skipped). s.property_id == pid) done.1
          ≡ times pid
    pub skips : All IsSkip done.1

  add_outcome-IsSplit :
      (pid : ℕ) (times : ℕ → ℕ) (done : Progress)
      → IsSplit times done
      → IsSplit
          (λ q. times q + count_if (λ x. x == q) (pid ∷ []))
          (add_outcome env pid
            (submit_within_transaction env pid notes (some batch) actor none now done.2)
            done)
  add_outcome-IsSplit pid times (runs, skipped, st) h =
      elim (Result-cases (submit_within_transaction env pid notes (some batch) actor none now st)) [
        | inr (e, p) ↦
            let skip : Skipped = record {
              property_id = pid;
              property_name = property_name_of env pid;
              reason = message_of e;
            } in
            rw p (record {
              each = λ q.
                  let one : count_if (λ (s : Skipped). s.property_id == q) (skip ∷ [])
                      ≡ count_if (λ x. x == q) (pid ∷ []) =
                    count_if_one (λ (s : Skipped). s.property_id == q) (λ x. x == q) skip pid
                      refl in
                  omega (
                    arith,
                    one,
                    h.each q,
                    count_if-snoc (λ (s : Skipped). s.property_id == q) skipped skip,
                  );
              skips = All-snoc IsSkip skipped skip h.skips (st, e, p, refl);
            })
        | inl ((run, after), p) ↦
            let (plan, planned, free, made, written) =
              submit_within-cases env pid notes (some batch) actor none now st after run p in
            let same : run.property_id ≡ pid = unfold new_run in ground arith in
            rw p (record {
              each = λ q.
                  let one : count_if (λ (r : BillRun). r.property_id == q) (run ∷ [])
                      ≡ count_if (λ x. x == q) (pid ∷ []) =
                    count_if_one (λ (r : BillRun). r.property_id == q) (λ x. x == q) run pid
                      (ap (λ k. k == q) same) in
                  omega (
                    arith,
                    one,
                    h.each q,
                    count_if-snoc (λ (r : BillRun). r.property_id == q) runs run,
                  );
              skips = h.skips;
            })
      ]

  submit_each-IsSplit :
      (pids : List ℕ) (times : ℕ → ℕ) (done : Progress)
      → IsSplit times done
      → IsSplit
          (λ q. times q + count_if (λ x. x == q) pids)
          (submit_each env notes batch actor now pids done)
  unfolding submit_each
  submit_each-IsSplit [] times done h = record {
    each = λ q. ground (arith, h.each q);
    skips = h.skips;
  }
  submit_each-IsSplit (pid ∷ pids) times done h =
      let rest =
        submit_each-IsSplit pids (λ q. times q + count_if (λ x. x == q) (pid ∷ [])) _
          (add_outcome-IsSplit pid times done h) in
      record { each = λ q. ground (arith, rest.each q); skips = rest.skips }

finish-IsSplit :
    (env : Surroundings) (notes : Option Message) (actor : Option ℕ) (now : ℕ) (b : BillRunBatch)
    (times : ℕ → ℕ) (done : Progress) (report : BatchReport) (st' : State)
    → IsSplit env notes b.id actor now times done
    → finish b done ≡ ok (report, st')
    → IsSplit env notes b.id actor now times (report.submitted, report.skipped, st')
finish-IsSplit env notes actor now b times ([], skipped, st) report st' h e = cc
finish-IsSplit env notes actor now b times (run ∷ runs, skipped, st) report st' h e =
    let r : report ≡ record { batch = b; submitted = run ∷ runs; skipped = skipped } =
      ground arith in
    let s : st' ≡ st = ground arith in rw (r, s) h

-- A batch that succeeds, on a consistent state, leaves a consistent state; it has submitted at
-- least one property, and every run submitted is of this batch; each property asked for stands
-- exactly once in the lists of submitted and of skipped ones together, and no other does; and each
-- skipped one is listed with the reason that its submission threw.
pub submit_batch-IsTally :
    (env : Surroundings) (ids : List ℕ) (notes : Option Message) (actor : Option ℕ) (now : ℕ)
    (st st' : State) (report : BatchReport)
    → IsConsistent st
    → submit_batch env ids notes actor now st ≡ ok (report, st')
    → (report.submitted ≢ [])
      × IsTally report.batch.id (length (distinct [] ids)) (report.submitted, report.skipped, st')
      × IsSplit env notes report.batch.id actor now
          (λ pid. if any (λ x. x == pid) ids then 1 else 0)
          (report.submitted, report.skipped, st')
unfolding submit_batch
submit_batch-IsTally env ids notes actor now st st' report c h =
    let b = new_batch notes actor now st in
    let start : IsTally b.id 0 ([], [], with_batch b st) = record {
      total = refl;
      of_batch = tt;
      consistent = record { ids = c.ids; unique = c.unique };
    } in
    let none_yet : IsSplit env notes b.id actor now (λ pid. 0) ([], [], with_batch b st) = record {
      each = λ pid. refl;
      skips = tt;
    } in
    let (some_run, same, tally) =
      finish-IsTally b (0 + length (distinct [] ids)) _ report st'
        (submit_each-IsTally env notes b.id actor now (distinct [] ids) 0 _ start) h in
    let split =
      finish-IsSplit env notes actor now b _ _ report st'
        (submit_each-IsSplit env notes b.id actor now (distinct [] ids) (λ pid. 0) _ none_yet) h in
    (
      some_run,
      rw same
          (subst (λ k. IsTally b.id k (report.submitted, report.skipped, st')) (omega arith) tally),
      rw same (record {
        each = λ pid. omega (arith, split.each pid, count_if-distinct pid [] ids);
        skips = split.skips;
      }),
    )
