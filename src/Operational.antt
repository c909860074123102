-- ===== src/Operational.antt =====
-- The table `jobs` of app/core/operational_sqlite.py. The column `payload` is a job written by
-- pydantic as JSON and read back by it, which gives the same record; the other columns are fields
-- of that record. `stamp_le` and `row_before` are SQLite's comparisons of the time stamps that
-- pydantic and `isoformat` write: the test on a lease, and the order of the rows.
pub mod Rows
pub mod Claims
pub mod Leases
use validador_final.Prelude.{
  ℕ, String, Bool, true, false, ◌&&◌, ◌||◌, not, List, [], ◌∷◌, Option, none, some, if◌then◌else◌,
  str_eq, Result, ok, err, ◌>>=◌, ◌+◌, ◌*◌, max, filter, head?,
}
use validador_final.Prelude.Sorting.{sort_by}
use validador_final.Prelude.Text.{truthy}
use validador_final.Job.{
  Time, JobStatus, queued, running, status_eq, JobError, JobRecord, begin_execution,
  refresh_execution_lease,
}

-- What the store relies on in SQLite and in pydantic.
pub record Sql : Type 0 where
  pub stamp_le : Time → Time → Bool
  pub row_before : JobRecord → JobRecord → Bool

abbrev pub microseconds : ℕ
microseconds = 1_000_000

-- `now + timedelta(seconds=max(1, lease_seconds))`; a negative `lease_seconds` counts as 0.
unfoldable pub lease_end : Time → ℕ → Time
lease_end now lease_seconds = now + max 1 lease_seconds * microseconds

abbrev pub Table : Type 0
Table = List JobRecord

-- `SELECT payload FROM jobs WHERE job_id = ?`
unfoldable pub load_job : String → Table → Option JobRecord
load_job job_id [] = none
load_job job_id (row ∷ rows) = if str_eq row.job_id job_id then some row else load_job job_id rows

-- `INSERT … ON CONFLICT(job_id) DO UPDATE`
unfoldable pub upsert_job : JobRecord → Table → Table
upsert_job job [] = job ∷ []
upsert_job job (row ∷ rows) =
    let rest = upsert_job job rows in
    if str_eq row.job_id job.job_id then job ∷ rows else row ∷ rest

-- `file_path IS NOT NULL AND file_path != ''`
abbrev pub has_file : Option String → Bool
has_file none = false
has_file (some path) = truthy path

module _ (sql : Sql) where
  -- `SELECT payload FROM jobs ORDER BY created_at ASC, job_id ASC`
  unfoldable pub load_jobs : Table → List JobRecord
  load_jobs = sort_by sql.row_before

  abbrev pub lease_expired : Time → Option Time → Bool
  lease_expired now none = false
  lease_expired now (some expires) = sql.stamp_le expires now

  -- The WHERE clause of `claim_next_job`.
  unfoldable pub claimable : Time → JobRecord → Bool
  claimable now row =
      (status_eq row.status queued && has_file row.file_path)
      || (status_eq row.status running && lease_expired now row.execution_expires_at)

  unfoldable pub claim_row :
      Time → String → ℕ → Option JobRecord → Table → Result JobError (Option JobRecord × Table)
  unfolding lease_end
  claim_row now worker_id lease_seconds none rows = ok (none, rows)
  claim_row now worker_id lease_seconds (some row) rows = do
    job ← begin_execution now (some worker_id) (some (lease_end now lease_seconds)) row
    ok (some job, upsert_job job rows)

  -- One transaction: the claimed job, and the table after the commit. An exception rolls back.
  unfoldable pub claim_next_job :
      Time → String → ℕ → Table → Result JobError (Option JobRecord × Table)
  unfolding claim_row
  claim_next_job now worker_id lease_seconds rows =
      claim_row now worker_id lease_seconds (head? (load_jobs (filter (claimable now) rows))) rows

-- The WHERE clause of `heartbeat_job_execution`; NULL equals no text.
abbrev pub owned_by : String → Option String → Bool
owned_by worker_id none = false
owned_by worker_id (some owner) = str_eq owner worker_id

unfoldable pub heartbeat_row : String → String → Table → Option JobRecord
heartbeat_row job_id worker_id [] = none
heartbeat_row job_id worker_id (row ∷ rows) =
    if str_eq row.job_id job_id
      && status_eq row.status running
      && owned_by worker_id row.execution_owner_id
    then some row
    else heartbeat_row job_id worker_id rows

unfoldable pub renew_row :
    Time → String → ℕ → Option JobRecord → Table → Result JobError (Option JobRecord × Table)
unfolding lease_end
renew_row now worker_id lease_seconds none rows = ok (none, rows)
renew_row now worker_id lease_seconds (some row) rows = do
  job ← refresh_execution_lease now worker_id (lease_end now lease_seconds) row
  ok (some job, upsert_job job rows)

unfoldable pub heartbeat_job_execution :
    Time → String → String → ℕ → Table → Result JobError (Option JobRecord × Table)
unfolding renew_row
heartbeat_job_execution now job_id worker_id lease_seconds rows =
    renew_row now worker_id lease_seconds (heartbeat_row job_id worker_id rows) rows
