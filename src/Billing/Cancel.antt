-- ===== src/Billing/Cancel.antt =====
-- `cancelBill` and `getDisplayStatus`.
use ccb_api.Base.{ℕ, Bool, true, false, Option, some, ◌==◌, ltb, find, if◌then◌else◌}
use ccb_api.Base.Result.{
  Message, text, not_found, conflict, Result, ok, ◌>>=◌, ◌>>◌, throw_if, or_throw,
}
use ccb_api.Base.Rows.{replace_row}
use ccb_api.Billing.Data.{BillStatus, Bill, State, bill_key}

abbrev pub is_cancelled : Bill → Bool
is_cancelled b = elim b.status [ BillStatus.cancelled ↦ true | _ ↦ false ]

abbrev pub bill_by_id : ℕ → State → Option Bill
bill_by_id id st = find (λ b. b.id == id) st.bills

abbrev pub cancelled : Message → Option ℕ → ℕ → Bill → Bill
cancelled reason actor now b = record b {
  status = BillStatus.cancelled;
  cancelled_at = some now;
  cancelled_by_id = actor;
  cancellation_reason = some reason;
}

unfoldable pub cancel_bill : ℕ → Message → Option ℕ → ℕ → State → Result (Bill × State)
cancel_bill id reason actor now st = do
  bill ← or_throw (bill_by_id id st) (not_found (text "Bill not found"))
  throw_if (is_cancelled bill)
      (conflict (text "This bill has already been cancelled — refresh to see its current status."))
  let saved = cancelled reason actor now bill
  ok (saved, record st { bills = replace_row bill_key saved st.bills })

pub data DisplayStatus : Type 0 where
  overdue : DisplayStatus
  stored : BillStatus → DisplayStatus

-- An issued bill is shown as overdue after its due date.
unfoldable pub get_display_status : Bill → ℕ → DisplayStatus
get_display_status b today = elim b.status [
  | BillStatus.issued ↦ if ltb b.bill_due_date today then overdue else stored BillStatus.issued
  | other ↦ stored other
]
