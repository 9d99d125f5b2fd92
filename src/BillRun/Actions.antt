-- ===== src/BillRun/Actions.antt =====
-- The calls that change the bill runs, as steps between states, and the sequences of them.
use ccb_api.Base.{ℕ, Bool, ◌≡◌, Option, List}
use ccb_api.Base.Result.{Message, ok}
use ccb_api.Workflow.Store.{Store}
use ccb_api.BillRun.Data.{BillRun, State, Surroundings}
use ccb_api.BillRun.Plan.{Recovery}
use ccb_api.BillRun.Submit.{submit, resubmit}
use ccb_api.BillRun.Batch.{BatchReport, submit_batch}
use ccb_api.BillRun.Review.{approve, reject, return_for_correction}

-- A call that succeeds, made by any actor at any time, or any change of the workflow's tables, as
-- the SLA sweep and the other business objects make them.
pub data Call (env : Surroundings) (st st' : State) : Type 0 where
  submitted :
      (pid : ℕ) (notes : Option Message) (recovery : Option Recovery) (actor : Option ℕ) (now : ℕ)
      (run : BillRun)
      → submit env pid notes recovery actor now st ≡ ok (run, st')
      → Call env st st'
  batched :
      (ids : List ℕ) (notes : Option Message) (actor : Option ℕ) (now : ℕ) (report : BatchReport)
      → submit_batch env ids notes actor now st ≡ ok (report, st')
      → Call env st st'
  resubmitted :
      (id : ℕ) (notes : Option Message) (actor : Option ℕ) (now : ℕ) (run : BillRun)
      → resubmit env id notes actor now st ≡ ok (run, st')
      → Call env st st'
  approved :
      (id : ℕ) (notes : Option Message) (actor : Option ℕ) (is_system : Bool) (now : ℕ)
      (generates : Bool)
      → approve env.directory id notes actor is_system now st ≡ ok (st', generates)
      → Call env st st'
  rejected :
      (id : ℕ) (notes : Message) (actor : Option ℕ) (now : ℕ)
      → reject env.directory id notes actor now st ≡ ok st'
      → Call env st st'
  returned :
      (id : ℕ) (notes : Message) (actor : Option ℕ) (now : ℕ)
      → return_for_correction env.directory id notes actor now st ≡ ok st'
      → Call env st st'
  elsewhere : (w : Store) → st' ≡ record st { workflow = w } → Call env st st'

-- States between which the services move, whatever they read in between.
pub data Calls (st : State) : State → Type 0 where
  here : Calls st st
  call : (env : Surroundings) {t u : State} → Calls st t → Call env t u → Calls st u
