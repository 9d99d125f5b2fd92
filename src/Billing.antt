-- ===== src/Billing.antt =====
-- src/modules/billing-management/billing-management.service.ts: the bills of an approved run.
-- `Data` holds the rows and the state, `Charges` the amounts of a bill, `Doubles` the rounding of
-- halves, `Generate` the bills of a run, `Cancel` the cancellation and the status shown.
pub mod Data
pub mod Charges
pub mod Doubles
pub mod Generate
pub mod Cancel
pub mod Tiers
pub mod Outcome
pub mod Once
pub mod Generation
pub mod Again
pub mod Cancelled
pub mod Drafts
pub mod Amounts
mod Tests
