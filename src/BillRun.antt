-- ===== src/BillRun.antt =====
-- src/modules/bill-run/bill-run.service.ts: the requests to bill a property for a cycle version and
-- their review. `Data` holds the rows and the state, `Plan` the checks of a submission,
-- `Submit` the insertion of a run, `Batch` submitBatch, `Review` approve, reject and returnForCorrection, `Actions` the
-- service's calls as steps. `Outcome`, `Authority`, `Approval`, `Completion` and `Lifecycle` are
-- about reviews, `Unique`, `BatchOutcome`, `Reachable` and `Duplicates` about the table, `Checks`
-- about the validation that the screen shows.
pub mod Data
pub mod Plan
pub mod Submit
pub mod Review
pub mod Batch
pub mod Outcome
pub mod Actions
pub mod Unique
pub mod Approval
pub mod Completion
pub mod Authority
pub mod Checks
pub mod Lifecycle
pub mod BatchOutcome
pub mod Reachable
pub mod Duplicates
mod Tests
