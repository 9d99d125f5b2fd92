-- ===== src/BillRun/Reachable.antt =====
-- No property ever has two active runs in one cycle version.
use ccb_api.Base.{none, sym}
use mathlib.Core.Path.{subst}
use ccb_api.BillRun.Data.{State, Surroundings}
use ccb_api.BillRun.Submit.{submit}
use ccb_api.BillRun.Review.{reject, return_for_correction}
use ccb_api.BillRun.Actions.{
  Call, Calls, submitted, batched, resubmitted, approved, rejected, returned, elsewhere, here, call,
}
use ccb_api.BillRun.Unique.{
  IsConsistent, submit_within-IsConsistent, approve-IsConsistent, refuse-IsConsistent,
  resubmit-IsConsistent,
}
use ccb_api.BillRun.BatchOutcome.{submit_batch-IsTally}

Call-IsConsistent :
    (env : Surroundings) {st st' : State} → Call env st st' → IsConsistent st → IsConsistent st'
unfolding submit reject return_for_correction
Call-IsConsistent env (submitted pid notes recovery actor now run h) c =
    submit_within-IsConsistent env pid notes none actor recovery now _ _ run c h
Call-IsConsistent env (resubmitted id notes actor now run h) c =
    resubmit-IsConsistent env id notes actor now _ _ run c h
Call-IsConsistent env (batched ids notes actor now report h) c =
    (submit_batch-IsTally env ids notes actor now _ _ report c h).1.consistent
Call-IsConsistent env (approved id notes actor is_system now b h) c =
    approve-IsConsistent env.directory id notes actor is_system now _ _ b c h
Call-IsConsistent env (rejected id notes actor now h) c =
    refuse-IsConsistent _ _ env.directory id notes actor now _ _ c h
Call-IsConsistent env (returned id notes actor now h) c =
    refuse-IsConsistent _ _ env.directory id notes actor now _ _ c h
Call-IsConsistent env (elsewhere w h) c =
    subst IsConsistent (sym h) (record { ids = c.ids; unique = c.unique })

-- In every state that submissions, batches, resubmissions, approvals, rejections and returns lead
-- to, from a consistent one and in any order, the rows have descending ids and each property has at
-- most one run that is pending or approved in each cycle version.
pub Calls-IsConsistent : {st st' : State} → Calls st st' → IsConsistent st → IsConsistent st'
Calls-IsConsistent here c = c
Calls-IsConsistent (call env before last) c =
    Call-IsConsistent env last (Calls-IsConsistent before c)
