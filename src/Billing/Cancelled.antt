-- ===== src/Billing/Cancelled.antt =====
-- A bill that is cancelled stays cancelled, and no other bill changes.
use ccb_api.Base.{
  ℕ, ◌≡◌, ◌≢◌, sym, Option, some, arith, ◌==◌, find, Option-cases, Bool-cases, inl, inr,
}
use mathlib.Core.Path.{subst}
use ccb_api.Base.Result.{Message, text, conflict, ok, err}
use ccb_api.Base.Rows.{
  replace_row, find_holds, find-replace_row_self, replace_row-IsDescending, count_if-replace_row,
  find-replace_row_other,
}
use ccb_api.Billing.Data.{BillStatus, Bill, State, bill_key}
use ccb_api.Billing.Cancel.{
  is_cancelled, bill_by_id, cancelled, cancel_bill, stored, get_display_status,
}
use ccb_api.Billing.Generate.{is_bill_of}
use ccb_api.Billing.Outcome.{IsConsistent}

-- The bill is cancelled for its reason, a table without doubles stays one, the other bills are as
-- they were, the bill is shown as cancelled on every day, and no other cancellation of it succeeds.
pub record IsCancelled (id : ℕ) (reason : Message) (b : Bill) (st st' : State) : Type 0 where
  pub is_saved : bill_by_id id st' ≡ some b
  pub status : b.status ≡ BillStatus.cancelled
  pub reason_kept : b.cancellation_reason ≡ some reason
  pub consistent : IsConsistent st'
  pub others : (other : ℕ) → other ≢ id → bill_by_id other st' ≡ bill_by_id other st
  pub shown : (today : ℕ) → get_display_status b today ≡ stored BillStatus.cancelled
  pub refused_again :
      (again : Message) (actor : Option ℕ) (now : ℕ)
      → cancel_bill id again actor now st'
        ≡ err (
            conflict
              (text "This bill has already been cancelled — refresh to see its current status."))

-- What a cancellation that succeeds has found and done.
cancel_bill-cases :
    (id : ℕ) (reason : Message) (actor : Option ℕ) (now : ℕ) (st st' : State) (b : Bill)
    → cancel_bill id reason actor now st ≡ ok (b, st')
    → (old : Bill) × (bill_by_id id st ≡ some old)
      × (b ≡ cancelled reason actor now old)
      × (st' ≡ record st { bills = replace_row bill_key b st.bills })
unfolding cancel_bill
cancel_bill-cases id reason actor now st st' b h = elim (Option-cases (bill_by_id id st)) [
  | inl e ↦ absurd (ground arith)
  | inr (old, e) ↦ elim (Bool-cases (is_cancelled old)) [
    | inl c ↦ absurd (ground arith)
    | inr c ↦ (old, e, ground arith, ground arith)
  ]
]

-- A cancellation that succeeds, on a table with descending ids and at most one bill for each unit
-- and run, saves the bill as cancelled with its reason, keeps the table such a one and every other
-- bill as it was; the bill is shown as cancelled on every day, and every further cancellation of it
-- is refused as a conflict.
pub cancel_bill-IsCancelled :
    (id : ℕ) (reason : Message) (actor : Option ℕ) (now : ℕ) (st st' : State) (b : Bill)
    → IsConsistent st
    → cancel_bill id reason actor now st ≡ ok (b, st')
    → IsCancelled id reason b st st'
unfolding cancel_bill get_display_status
cancel_bill-IsCancelled id reason actor now st st' b c h =
    let (old, found, made, written) = cancel_bill-cases id reason actor now st st' b h in
    let same : old.id ≡ id = ground (arith, find_holds (λ (x : Bill). x.id == id) st.bills found) in
    let id_b : b.id ≡ id = ground arith in
    let found_b : find (λ (x : Bill). x.id == b.id) st.bills ≡ some old =
      subst (λ k. find (λ (x : Bill). x.id == k) st.bills ≡ some old) (sym id_b) found in
    let is_saved : bill_by_id id st' ≡ some b =
      subst (λ s. bill_by_id id s ≡ some b) (sym written)
        (find-replace_row_self bill_key (λ (x : Bill). x.id == id) st.next_bill_id b st.bills c.ids
          found (ground arith) (ground arith)) in
    record {
      is_saved = is_saved;
      status = ground arith;
      reason_kept = ground arith;
      consistent = subst IsConsistent (sym written) (record {
        ids = replace_row-IsDescending bill_key st.next_bill_id b st.bills c.ids;
        unique = λ run_id uid. omega (
          arith,
          c.unique run_id uid,
          count_if-replace_row bill_key (is_bill_of run_id uid) b st.bills {x = old} found_b
              (λ p. ground arith),
        );
      });
      others = λ other n.
          rw written (
            find-replace_row_other bill_key other b st.bills (subst (λ k. other ≢ k) (sym id_b) n));
      shown = λ today. ground arith;
      refused_again = λ again who when_. ground (arith, is_saved);
    }
