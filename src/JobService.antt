-- ===== src/JobService.antt =====
-- app/services/job_service.py: the service that keeps the jobs, in memory, in a JSON file, or in
-- the SQLite table of app/core/operational_sqlite.py. A method is an action on the service; a
-- raise keeps what was written before it. Log lines and the histogram of durations are not
-- modelled; the audit events and the counter of status transitions are.
pub mod State
pub mod Queries
pub mod Execution
pub mod Updates
pub mod Validity
pub mod Steps
pub mod Preservation
pub mod Workers
pub mod Runs
pub mod Reads
pub mod Cancellation
