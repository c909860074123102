-- ===== src/Operational/Leases.antt =====
-- Workers against one table: heartbeats, and what a lease protects.
use validador_final.Prelude.{
  ℕ, ◌<◌, ◌≤◌, ◌≡◌, refl, sym, ◌≢◌, ◌⊎◌, true, false, ◌&&◌, List, [], ◌∷◌, Option, none, some,
  String, str_eq, str_eq_iff, str_eq_refl, arith, All, Bool-cases, inl, inr, Result, ok, err,
  All-mem,
}
use mathlib.Core.List.{Memᴰ}
use validador_final.Job.{JobRecord, JobError, Time, running, refresh_execution_lease, status_eq}
use validador_final.Job.Fields.{refresh_execution_lease_iff}
use validador_final.Operational.{
  Sql, Table, load_job, upsert_job, claimable, claim_next_job, lease_end, heartbeat_row,
  heartbeat_job_execution, owned_by,
}
use validador_final.Operational.Rows.{
  IsKeyed, load_job_lem, upsert_job-IsKeyed, load_job-upsert_job,
}
use validador_final.Operational.Claims.{IsRowOrder, claim_next_job_lem}

-- A stamp counts as passed only when its time has come: a lease never ends early.
pub record IsPunctual (sql : Sql) : Type 0 where
  pub never_early : (expires now : Time) → sql.stamp_le expires now ≡ true → expires ≤ now

owned_by_lem :
    (worker_id : String) (o : Option String) → owned_by worker_id o ≡ true → o ≡ some worker_id
owned_by_lem worker_id none h = cc
owned_by_lem worker_id (some owner) h = ground (arith, str_eq_iff owner worker_id)

-- The row that the heartbeat selects is in the table, running and owned by the worker.
heartbeat_row_lem :
    (job_id worker_id : String) (rows : Table) (row : JobRecord)
    → heartbeat_row job_id worker_id rows ≡ some row
    → Memᴰ row rows
      × (row.job_id ≡ job_id)
      × (row.status ≡ running)
      × (row.execution_owner_id ≡ some worker_id)
unfolding heartbeat_row
heartbeat_row_lem job_id worker_id [] row e = cc
heartbeat_row_lem job_id worker_id (r ∷ rows) row e =
    elim (Bool-cases (
      str_eq r.job_id job_id
      && status_eq r.status running
      && owned_by worker_id r.execution_owner_id)) [
        | inl picked ↦
            let same : r ≡ row = ground arith in
            let facts : (r.job_id ≡ job_id)
                × (r.status ≡ running)
                × (r.execution_owner_id ≡ some worker_id) =
              ground
                (arith, str_eq_iff r.job_id job_id, owned_by_lem worker_id r.execution_owner_id) in
            (Memᴰ.head (sym same), rw (← same) facts.0, rw (← same) facts.1, rw (← same) facts.2)
        | inr passed ↦
            let rest = heartbeat_row_lem job_id worker_id rows row (rw passed at e) in
            (Memᴰ.tail rest.0, rest.1, rest.2, rest.3)
      ]

refresh_owned :
    (now expires : Time) (worker_id : String) (row : JobRecord)
    → row.status ≡ running
    → row.execution_owner_id ≡ some worker_id
    → refresh_execution_lease now worker_id expires row
      ≡ ok (record row {
        execution_owner_id = some worker_id;
        execution_expires_at = some expires;
        updated_at = now;
      })
refresh_owned now expires worker_id row r o =
    (refresh_execution_lease_iff now expires worker_id row _).1 (r, inr o, refl)

module _ (now : Time) (job_id worker_id : String) (lease_seconds : ℕ) (rows : Table) where
  abbrev renewed : JobRecord → JobRecord
  renewed row = record row {
    execution_owner_id = some worker_id;
    execution_expires_at = some (lease_end now lease_seconds);
    updated_at = now;
  }

  -- The row is the running job that the worker holds.
  abbrev pub IsHeld : JobRecord → Type 0
  IsHeld row =
      (row.job_id ≡ job_id) × (row.status ≡ running) × (row.execution_owner_id ≡ some worker_id)

  is_held :
      (row : JobRecord)
      → IsHeld row
      → (str_eq row.job_id job_id
          && status_eq row.status running
          && owned_by worker_id row.execution_owner_id)
        ≡ true
  is_held row (same, run, owned) =
      rw (same, run, owned, str_eq_refl job_id, str_eq_refl worker_id) refl

  heartbeat_row-none :
      (table : Table)
      → heartbeat_row job_id worker_id table ≡ none
      → All (λ row. ¬ IsHeld row) table
  unfolding heartbeat_row
  heartbeat_row-none [] e = tt
  heartbeat_row-none (row ∷ table) e =
      let test =
        str_eq row.job_id job_id
        && status_eq row.status running
        && owned_by worker_id row.execution_owner_id in
      elim (Bool-cases test) [
        | inl t ↦ let e' = rw t at e in cc
        | inr t ↦ (λ h. let t' = is_held row h in cc, heartbeat_row-none table (rw t at e))
      ]

  -- A heartbeat never raises: it finds no running job of the worker and changes nothing, or it
  -- moves the end of that job's lease and the time of its last change.
  abbrev pub HeartbeatOutcome : Type 0
  HeartbeatOutcome =
      ((heartbeat_job_execution now job_id worker_id lease_seconds rows ≡ ok (none, rows))
        × All (λ row. ¬ IsHeld row) rows)
      ⊎ ((row : JobRecord) × (heartbeat_job_execution now job_id worker_id lease_seconds rows
            ≡ ok (some (renewed row), upsert_job (renewed row) rows))
          × Memᴰ row rows
          × (row.job_id ≡ job_id)
          × (row.status ≡ running)
          × (row.execution_owner_id ≡ some worker_id))

  -- A heartbeat never raises. Either no row of the table is a running job of that identifier
  -- whose lease the worker holds, the answer is None and the table stays, or there is such a row,
  -- and it is written back with a new end of its lease and the time.
  pub heartbeat_job_execution_lem : HeartbeatOutcome
  unfolding heartbeat_job_execution
  heartbeat_job_execution_lem = outcome (heartbeat_row job_id worker_id rows) refl
    where
      outcome :
          (found : Option JobRecord)
          → heartbeat_row job_id worker_id rows ≡ found
          → HeartbeatOutcome
      outcome none e = inl (rw e, heartbeat_row-none rows e)
      outcome (some row) e =
          let (m, same, run, owned) = heartbeat_row_lem job_id worker_id rows row e in
          inr (
            row,
            rw e (rw (refresh_owned now (lease_end now lease_seconds) worker_id row run owned)),
            m,
            same,
            run,
            owned,
          )

-- What workers ask of the store.
pub data Request : Type 0 where
  claim : Time → String → ℕ → Request
  heartbeat : Time → String → String → ℕ → Request

after_commit : Table → Result JobError (Option JobRecord × Table) → Table
after_commit rows (ok (job, rows')) = rows'
after_commit rows (err e) = rows

-- The table after one request, by any worker at any time.
unfoldable pub serve : Sql → Request → Table → Table
unfolding after_commit
serve sql (claim now worker_id lease_seconds) rows =
    after_commit rows (claim_next_job sql now worker_id lease_seconds rows)
serve sql (heartbeat now job_id worker_id lease_seconds) rows =
    after_commit rows (heartbeat_job_execution now job_id worker_id lease_seconds rows)

unfoldable pub serve_all : Sql → List Request → Table → Table
serve_all sql [] rows = rows
serve_all sql (r ∷ rs) rows = serve_all sql rs (serve sql r rows)

-- The row is running under a lease of the worker until `expires`.
pub record IsLeased (worker_id : String) (expires : Time) (row : JobRecord) : Type 0 where
  pub is_running : row.status ≡ running
  pub owner : row.execution_owner_id ≡ some worker_id
  pub expiry : row.execution_expires_at ≡ some expires

-- Before the end of the lease, and no heartbeat of the holder itself.
abbrev pub IsIntrusion : String → Time → Request → Type 0
IsIntrusion holder expires (claim now worker_id lease_seconds) = now < expires
IsIntrusion holder expires (heartbeat now job_id worker_id lease_seconds) =
    (now < expires) × (str_eq worker_id holder ≡ false)

module _ (sql : Sql) (order : IsRowOrder sql) (punctual : IsPunctual sql)
    (job_id worker_id : String) (expires : Time) (row : JobRecord)
    (leased : IsLeased worker_id expires row) where
  not_claimable : (now : Time) → now < expires → claimable sql now row ≡ true → ⊥
  unfolding claimable
  not_claimable now before h = ground (arith, leased, punctual.never_early expires now)

  -- Another row of the table than the leased one has another identifier.
  other_job :
      (rows : Table) (r : JobRecord)
      → IsKeyed rows
      → load_job job_id rows ≡ some row
      → Memᴰ r rows
      → (r ≡ row → ⊥)
      → r.job_id ≢ job_id
  other_job rows r k e m other same =
      other (
        All-mem (λ x. x.job_id ≡ job_id → x ≡ row) rows (load_job_lem job_id rows row k e).1 m same)

  upsert_other :
      (rows : Table) (job : JobRecord)
      → IsKeyed rows
      → load_job job_id rows ≡ some row
      → job.job_id ≢ job_id
      → IsKeyed (upsert_job job rows) × (load_job job_id (upsert_job job rows) ≡ some row)
  upsert_other rows job k e other = (
    upsert_job-IsKeyed job rows k,
    ground (arith, load_job-upsert_job job_id job rows, str_eq_iff job.job_id job_id),
  )

  serve_leased :
      (r : Request) (rows : Table)
      → IsKeyed rows
      → load_job job_id rows ≡ some row
      → IsIntrusion worker_id expires r
      → IsKeyed (serve sql r rows) × (load_job job_id (serve sql r rows) ≡ some row)
  unfolding serve
  serve_leased (claim now w lease_seconds) rows k e i =
      elim (claim_next_job_lem sql order now w lease_seconds rows) [
        | inl nothing ↦ rw nothing.0 (k, e)
        | inr (r, job, claimed, c) ↦ rw claimed (
            upsert_other rows job k e (
              rw c.same_job (
                other_job rows r k e c.mem
                  (λ same. not_claimable now i (rw same at c.was_claimable)))))
      ]
  serve_leased (heartbeat now id w lease_seconds) rows k e i =
      elim (heartbeat_job_execution_lem now id w lease_seconds rows) [
        | inl nothing ↦ rw nothing.0 (k, e)
        | inr (r, renew, m, same, run, owned) ↦ rw renew (
            upsert_other rows _ k e (
              other_job rows r k e m
                (λ eq. ground (arith, str_eq_iff w worker_id, leased, rw eq at owned))))
      ]

  -- A live lease is exclusive: in a table with distinct identifiers, where the order of the rows is
  -- transitive and total and no lease is held to be over early, claims by anyone and heartbeats of
  -- other workers before the end of the lease, in any order and number, leave the leased row
  -- exactly as it is.
  pub serve_all_leased :
      (rs : List Request) (rows : Table)
      → IsKeyed rows
      → load_job job_id rows ≡ some row
      → All (IsIntrusion worker_id expires) rs
      → load_job job_id (serve_all sql rs rows) ≡ some row
  unfolding serve_all
  serve_all_leased [] rows k e i = e
  serve_all_leased (r ∷ rs) rows k e i =
      let next = serve_leased r rows k e i.0 in
      serve_all_leased rs (serve sql r rows) next.0 next.1 i.1
