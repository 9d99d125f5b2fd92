-- ===== src/Readiness.antt =====
-- src/modules/billing-readiness/billing-readiness.service.ts: whether a property can be billed. `Data`
-- holds the rows that the service reads and the answers of the services that it calls, `Current`
-- the check of the current cycle, `Recovery` and `Historical` the check of a past period; `Status` and `Eligibility` are about them.
pub mod Data
pub mod Current
pub mod Status
pub mod Recovery
pub mod Historical
pub mod Eligibility
mod Tests
