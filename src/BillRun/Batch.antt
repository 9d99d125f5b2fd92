-- ===== src/BillRun/Batch.antt =====
-- `submitBatch`: one run for each property of a batch, the properties that fail being skipped.
use ccb_api.Base.{ℕ, suc, Option, none, some, List, [], ◌∷◌, ◌++◌, distinct}
use ccb_api.Base.Result.{
  Message, text, lit, num, HttpError, not_found, bad_request, conflict, forbidden, Result, ok, err,
  join,
}
use ccb_api.BillRun.Data.{BillRun, BillRunBatch, State, Surroundings, generate_business_code}
use ccb_api.BillRun.Submit.{submit_within_transaction}
use ccb_api.Readiness.Recovery.{find_property}

abbrev pub message_of : HttpError → Message
message_of (not_found m) = m
message_of (bad_request m) = m
message_of (conflict m) = m
message_of (forbidden m) = m

pub record Skipped : Type 0 where
  pub property_id : ℕ
  pub property_name : Message
  pub reason : Message

pub record BatchReport : Type 0 where
  pub batch : BillRunBatch
  pub submitted : List BillRun
  pub skipped : List Skipped

abbrev pub property_name_of : Surroundings → ℕ → Message
property_name_of env pid = elim (find_property env.tables pid) [
  | none ↦ lit "Property #" ∷ num pid ∷ []
  | some p ↦ text p.name
]

-- The runs submitted, the properties skipped and the state, so far.
abbrev pub Progress : Type 0
Progress = List BillRun × List Skipped × State

-- One round of the loop: a throw is caught and the property skipped.
abbrev pub add_outcome : Surroundings → ℕ → Result (BillRun × State) → Progress → Progress
add_outcome env pid (ok (run, after)) (submitted, skipped, st) =
    (submitted ++ run ∷ [], skipped, after)
add_outcome env pid (err e) (submitted, skipped, st) = (
  submitted,
  skipped
      ++ record {
        property_id = pid;
        property_name = property_name_of env pid;
        reason = message_of e;
      }
        ∷ [],
  st,
)

unfoldable pub submit_each :
    Surroundings → Option Message → ℕ → Option ℕ → ℕ → List ℕ → Progress → Progress
submit_each env notes batch actor now [] done = done
submit_each env notes batch actor now (pid ∷ pids) done =
    submit_each env notes batch actor now pids (
      add_outcome env pid
        (submit_within_transaction env pid notes (some batch) actor none now done.2) done)

abbrev pub skipped_text : List Skipped → List Message
skipped_text [] = []
skipped_text (s ∷ ss) = (s.property_name ++ (lit " (" ∷ (s.reason ++ text ")"))) ∷ skipped_text ss

abbrev pub none_passed : List Skipped → Message
none_passed skipped =
    lit "No properties in this batch passed validation: " ∷ join (text "; ") (skipped_text skipped)

abbrev pub new_batch : Option Message → Option ℕ → ℕ → State → BillRunBatch
new_batch notes actor now st = record {
  id = st.next_batch_id;
  business_code = some (generate_business_code (text "BLR") st.next_batch_id);
  submitted_by_id = actor;
  submitted_on = now;
  notes = notes;
}

abbrev pub with_batch : BillRunBatch → State → State
with_batch b st = record st { batches = b ∷ st.batches; next_batch_id = suc st.next_batch_id }

abbrev pub finish : BillRunBatch → Progress → Result (BatchReport × State)
finish b ([], skipped, st) = err (bad_request (none_passed skipped))
finish b (run ∷ runs, skipped, st) =
    ok (record { batch = b; submitted = run ∷ runs; skipped = skipped }, st)

unfoldable pub submit_batch :
    Surroundings → List ℕ → Option Message → Option ℕ → ℕ → State → Result (BatchReport × State)
unfolding submit_each
submit_batch env ids notes actor now st =
    let b = new_batch notes actor now st in
    finish b (submit_each env notes b.id actor now (distinct [] ids) ([], [], with_batch b st))
