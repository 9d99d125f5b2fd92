-- ===== src/Lib.antt =====
-- The core of the CCB API, a NestJS service that bills the units of properties for metered
-- consumption, in the parts that decide: whether readings are valid, whether a property can be
-- billed, and who approves what.
--
-- * `Base` holds what the others share: Boolean tests on numbers, lists, tables whose rows have
--   descending ids (Base/Rows), and `Result` (Base/Result), a value or the HTTP exception that a
--   service throws, with its message as a template of texts and numbers.
-- * `Readiness` is src/modules/billing-readiness/billing-readiness.service.ts. `Data` has its
--   enums, the rows that it reads and, as the record `Services`, the answers of the billing-cycle,
--   tariff and customer services; `Current` is getReadiness and evaluateProperty, `Recovery` and
--   `Historical` are evaluateHistoricalCycle and checkRecoveredReadingEligibility.
-- * `Workflow` is src/modules/workflow: `Data` and `Store` the entities and the queries, `Engine`
--   workflow-orchestration.service.ts, `Sla` workflow-sla-scheduler.service.ts, `Publish`
--   assertLevels and publishNewVersion of workflow-definition.service.ts.
-- * `BillRun` is src/modules/bill-run/bill-run.service.ts: `Plan`, `Submit` and `Batch` insert runs,
--   which `Readiness` has to find ready, and start an instance of `Workflow`; `Review` approves,
--   rejects and returns them under the engine's check.
-- * `Billing` is src/modules/billing-management/billing-management.service.ts: the bills of a run
--   that `BillRun` has approved, one for each unit, with the customer that `Readiness` resolves.
--   Decimals are integers, in the units that `Billing/Data.antt` names, where the code computes with
--   doubles. Exact amounts are multiples of 10 ^ -8, or of 10 ^ -6 for VAT, and for amounts below
--   ten million the error of the doubles is less than that, so that rounding a double to cents gives
--   a nearest number of cents; only for an amount of exactly half a cent does it depend on the
--   error which of the two. `Doubles` computes this with the doubles themselves, from the readings
--   on, and the theorems hold on either side. A remainder of the loop over the tiers that is only
--   an error, not 0, adds less than such an error to the charge.
-- * `Cycle` is src/modules/billing-cycle/billing-cycle.service.ts: the versions of a property's
--   cycle, which `Workflow` approves, and their reading periods. `Cycle/Dates.antt` fills with it
--   the fields of `Services` that `Readiness` and `BillRun` take; `Cycle/Calendar.antt` is the part
--   of JavaScript's dates that the code uses, from 1970 on.
-- * `Tariff` is the resolution in src/modules/tariff/tariff.service.ts of the tariff that governs a
--   unit, by itself, in a batch and on a past date, the answers that `Readiness` takes as `Services`,
--   and the check of its tiers.
-- * `Validation` is validateRows and getWorstErrorPerRow of src/modules/sftp/validation.service.ts,
--   the checks of the meter readings that `Readiness` counts later.
--
-- How the code is read. A method that runs in a transaction is a function from the state before to
-- a `Result` of the state after: a throw rolls back, so a refused call leaves no new state. A table
-- is a list of rows, newest first; a query is a filter or a search of it. The calls that a service
-- makes to others are fields of a parameter record. Times are milliseconds and dates day numbers;
-- the current time is an argument. A day is 24 hours, as in a time zone without daylight saving.
-- Recursion is structural on lists, but for two loops over months on fuel: the month of a day, with a
-- unit for every day before it, and the months of a version's window, with one for each, up to
-- the month in which the window ends.
--
-- Not modelled: e-mails, audit rows, logging and read-only views, which change no state that a
-- decision depends on; row locks, whose effect is that the calls on an object happen one after
-- another, as the functions here do; of src/modules/tariff how a version is edited, submitted and reviewed;
-- and authentication, users and IAM, meters, registration requests, field inspection and the
-- ingestion of files, of which only the validation of rows is here.
pub mod Base
pub mod Readiness
pub mod Workflow
pub mod BillRun
pub mod Billing
pub mod Cycle
pub mod Tariff
pub mod Validation
