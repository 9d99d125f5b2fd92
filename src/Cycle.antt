-- ===== src/Cycle.antt =====
-- src/modules/billing-cycle/billing-cycle.service.ts: the cycle of a property, as versions that are
-- requested, approved, activated and deprecated, and its reading periods. `Calendar` is what the
-- code uses of JavaScript's dates, `Period` the periods and dates of a version, `Resolve`
pub mod Calendar
pub mod Data
pub mod Period
pub mod Resolve
pub mod Window
pub mod Covers
pub mod Resolution
pub mod Bounds
pub mod Create
pub mod Activation
pub mod Review
pub mod Activated
pub mod Approval
pub mod Dates
mod Tests
