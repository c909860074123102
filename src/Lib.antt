-- ===== src/Lib.antt =====
-- Verification library of validador-final, a service that validates lots of inventory rows.
--
-- The program. An upload becomes a job (app/core/job.py), which the job service
-- (app/services/job_service.py) keeps in a cache and in a storage: none, a JSON file, or the SQLite
-- table of app/core/operational_sqlite.py, from which workers claim jobs under a lease that they
-- renew by heartbeats. A worker runs the rules of the tenant on the rows in scope
-- (app/core/engine.py, app/core/duplicate_items.py); answers of the language model are cached
-- (app/core/llm_cache.py). Operators sign in under limits and act by role and tenant
-- (app/services/auth_service.py). Tenants come from files and from records of the administration
-- (app/core/tenant_loader.py, app/services/tenant_admin_service.py); their rules are set by versions
-- of a profile (app/services/tenant_profile_service.py). Old artifacts are deleted by a retention
-- service (app/services/retention_service.py).
--
-- The files.
-- - Prelude: names of the libraries, Boolean tests, lists, sorting, Python's dict and strings, and
--   Exec, the monad of methods that mutate an object and may raise: what was written before a raise
--   stays written. Exec.Keeps is the rule by which invariants pass through such methods.
-- - Json: the values of `dict[str, Any]` payloads.
-- - Job: the record and one function for each method of `JobRecord`. A method returns the new
--   record or the error that it raises. Job.Calls makes the calls data, so that theorems range over
--   sequences of them; Job.Edges has the life cycle as a relation, Job.Invariant and Job.Runs what
--   holds after any calls, Job.Fields what the calls write.
-- - Operational: the table `jobs` as a list of records, one function for each transaction;
--   Operational.Rows, .Claims and .Leases have its theorems.
-- - JobService: State, Queries, Execution and Updates model the class `JobService`, method by
--   method, over the state `Service`; Runs has its calls as data, and the other children the proofs.
-- - Auth: RateLimit models `_ensure_public_auth_allowed` and its companions, Operators
--   `_list_effective_operators`, Access the `authorize_*` methods, Keys the inspection and
--   the revocation of issued API keys. Accounts has the dicts of operators, invitations and resets,
--   which Shelves models once for the three; Accounts.Invitations and Accounts.Resets have the
--   methods on them, Accounts.Administration the changes of role and password and the disabling of
--   operators, and the other children the proofs: Settled on the dicts and storages, Spent and Once
--   on invitations, Resets.Completed, .Once and .Pending on resets.
-- - LlmCache: `FileLLMResponseCache`.
-- - Artifacts: where the files of a job lie (app/services/validation_service.py). Retention: the
--   policy and the service that deletes old artifacts (app/services/retention_service.py);
--   Retention.Kinds has the policy, .Expired and .Cleanup the theorems.
-- - Tenants: app/core/tenant_loader.py over the configurations of Tenants.Config; Tenants.Admin and
--   Tenants.Admin.Checks model app/services/tenant_admin_service.py, the other children the proofs.
-- - Profiles: app/services/tenant_profile_service.py, with the checks of app/core/tenant_profile.py
--   in Profiles.Checks.
-- - Duplicates and Engine: `duplicate_items.py` and `ValidationEngine`.
-- - CanonicalFields: app/core/canonical_fields.py. Rules: Rules.Integrity has the rules of
--   app/rules/integrity.py, Rules.Flags and Rules.Counts the theorems.
-- - Examples: the theorems at concrete inputs.
--
-- Choices. Times are numbers of microseconds, or ticks in LlmCache; the clock is an argument. A
-- negative number of seconds of a lease or a lifetime is taken as 0, as the code treats both alike.
-- Every loop of the code is a structural recursion: no fuel is used. The program's locks and
-- transactions make each method one step. The JSON of a record is the record, since pydantic reads
-- back what it has written.
--
-- Parameters. SQLite's comparison of time stamps (`Sql`), with the hypotheses that the order of
-- the rows is transitive and total and that a lease is never held to be over early; the
-- tenants' files (`World`, `Directory`), where an identifier that names several tenants, for
-- which `canonicalize_tenant_id` raises, does not occur in the methods of the job service and
-- of the accounts; Python's `casefold`; the rules of the engine; the equality of cells;
-- pathlib's `resolve`, `name` and `parent`; pydantic's validation of a configuration; the
-- hashes of passwords and tokens, and Python's tests of characters (`AccountWorld`); the values
-- of cells (`Cells`) and the folding of names of columns (`Folding`).
--
-- Not modelled: files and their formats, HTTP, hashing, the remote language model, reports, logs
-- and metrics, and the front end.
pub mod Prelude
pub mod Json
pub mod Job
pub mod Operational
pub mod JobService
pub mod Auth
pub mod LlmCache
pub mod Duplicates
pub mod Engine
pub mod Artifacts
pub mod Retention
pub mod Tenants
pub mod Profiles
pub mod CanonicalFields
pub mod Rules
pub mod Examples
