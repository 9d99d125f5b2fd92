-- ===== src/Tariff.antt =====
-- src/modules/tariff/tariff.service.ts: which tariff governs a unit, now and on a past date, and the
-- tiers that a tariff may have. `Resolve` is resolveForUnit, resolveForUnits and
-- resolveForUnitsAsOf, `Tiers` is assertTiersValid.
pub mod Data
pub mod Resolve
pub mod Uniform
pub mod Batch
pub mod AsOf
pub mod Tiers
pub mod Ordered
mod Tests
