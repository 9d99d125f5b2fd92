-- ===== src/Workflow.antt =====
-- The approval workflow engine, src/modules/workflow/. `Data` holds its enums and rows, `Store` the
-- tables and their queries, `Engine` the orchestration service, `Sla` the SLA scheduler and
-- `Publish` the definition service. `Access`, `Progress`, `Advance`, `Start` and `Journey` are about
-- the engine, `Breach` and `Sweep` about the scheduler, `Levels`, `Versions` and `InFlight` about
-- publications.
pub mod Data
pub mod Store
pub mod Engine
pub mod Access
pub mod Progress
pub mod Advance
pub mod Journey
pub mod Start
pub mod Sla
pub mod Breach
pub mod Sweep
pub mod Publish
pub mod Levels
pub mod Versions
pub mod InFlight
mod Tests
