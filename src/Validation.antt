-- ===== src/Validation.antt =====
-- src/modules/sftp/validation.service.ts: the checks of the rows of a file of meter readings. `Rows`
-- holds the service, `Counts` and `Worst` what its summary says.
pub mod Rows
pub mod Counts
pub mod Worst
mod Tests
