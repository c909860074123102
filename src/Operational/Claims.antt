-- ===== src/Operational/Claims.antt =====
-- What a claim takes, and that a live lease keeps every other worker out.
use validador_final.Prelude.{
  ℕ, ◌≡◌, refl, ◌⊎◌, Bool, true, false, List, [], ◌∷◌, none, some, String, arith, All, All-map,
  Bool-cases, inl, inr, filter, ok, All-self, All-of_filter, All-filter, filter-All,
}
use mathlib.Core.List.{Memᴰ}
use validador_final.Prelude.Sorting.{sort_by-All, All-of_sort_by, sort_by-IsSorted}
use validador_final.Job.{JobRecord, Time, running}
use validador_final.Operational.{
  Sql, Table, upsert_job, claimable, claim_next_job, lease_end, load_jobs,
}
use validador_final.Job.Fields.{is_startable, begin_execution-IsBegun}

-- The order of SELECT: transitive, and it compares any two rows.
pub record IsRowOrder (sql : Sql) : Type 0 where
  pub trans :
      (x y z : JobRecord)
      → sql.row_before x y ≡ true
      → sql.row_before y z ≡ true
      → sql.row_before x z ≡ true
  pub total : (x y : JobRecord) → sql.row_before x y ≡ false → sql.row_before y x ≡ true

-- `row` is the first of the claimable rows, and `job` is that job under a lease of the worker.
pub record Claimed (sql : Sql) (now : Time) (worker_id : String) (lease_seconds : ℕ) (rows : Table)
    (row job : JobRecord) : Type 0 where
  pub mem : Memᴰ row rows
  pub was_claimable : claimable sql now row ≡ true
  pub first :
      All (λ r. (claimable sql now r ≡ false) ⊎ ((r ≡ row) ⊎ (sql.row_before row r ≡ true))) rows
  pub same_job : job.job_id ≡ row.job_id
  pub now_running : job.status ≡ running
  pub owner : job.execution_owner_id ≡ some worker_id
  pub expiry : job.execution_expires_at ≡ some (lease_end now lease_seconds)
  pub no_cancel : job.cancel_requested ≡ false

not_true : (b : Bool) → (b ≡ true → ⊥) → b ≡ false
not_true true h = absurd (h refl)
not_true false h = refl

module _ (sql : Sql) (now : Time) where
  claimable_startable :
      (row : JobRecord) → claimable sql now row ≡ true → is_startable row.status ≡ true
  unfolding claimable
  claimable_startable row h = ground arith

  -- The head of the sorted rows is in the table, passes the test, and is before all that pass it.
  claimable_head :
      IsRowOrder sql
      → (rows : Table) (row : JobRecord) (rest : List JobRecord)
      → load_jobs sql (filter (claimable sql now) rows) ≡ row ∷ rest
      → Memᴰ row rows
        × (claimable sql now row ≡ true)
        × All (λ r. claimable sql now r ≡ true → (r ≡ row) ⊎ (sql.row_before row r ≡ true)) rows
  unfolding load_jobs
  claimable_head order rows row rest e =
      let kept = filter (claimable sql now) rows in
      let members =
        sort_by-All sql.row_before (λ r. Memᴰ r rows) kept (All-filter _ _ rows (All-self rows)) in
      let passing =
        sort_by-All sql.row_before (λ r. claimable sql now r ≡ true) kept (filter-All _ rows) in
      let sorted = sort_by-IsSorted sql.row_before order.trans order.total kept in
      let P = λ (r : JobRecord). (r ≡ row) ⊎ (sql.row_before row r ≡ true) in
      let least =
        All-of_sort_by sql.row_before P kept
          (rw e (inl refl, All-map _ P rest (λ r h. inr h) (rw e at sorted).0)) in
      ((rw e at members).0, (rw e at passing).0, All-of_filter P _ rows least)

  nothing_claimable :
      (rows : Table)
      → load_jobs sql (filter (claimable sql now) rows) ≡ []
      → All (λ r. claimable sql now r ≡ false) rows
  unfolding load_jobs
  nothing_claimable rows e =
      let kept = filter (claimable sql now) rows in
      let P = λ (r : JobRecord). claimable sql now r ≡ false in
      All-map _ P rows (λ r h. not_true (claimable sql now r) h)
        (All-of_filter (λ r. ⊥) _ rows (All-of_sort_by sql.row_before (λ r. ⊥) kept (rw e tt)))

module _ (sql : Sql) (order : IsRowOrder sql) (now : Time) (worker_id : String) (lease_seconds : ℕ)
    (rows : Table) where
  -- Nothing to claim, and the table as it was; or the first claimable row, written back as that
  -- job under a lease of the worker, and every other row as it was.
  abbrev pub ClaimOutcome : Type 0
  ClaimOutcome =
      ((claim_next_job sql now worker_id lease_seconds rows ≡ ok (none, rows))
        × All (λ r. claimable sql now r ≡ false) rows)
      ⊎ ((row job : JobRecord) × (claim_next_job sql now worker_id lease_seconds rows
            ≡ ok (some job, upsert_job job rows))
          × Claimed sql now worker_id lease_seconds rows row job)

  -- Where the order of the rows is transitive and total, a claim never raises. Either no row is
  -- claimable and the table stays, or it takes the first claimable row, writes that job under a
  -- lease of the worker, and touches no other row.
  pub claim_next_job_lem : ClaimOutcome
  unfolding claim_next_job
  claim_next_job_lem = outcome (load_jobs sql (filter (claimable sql now) rows)) refl
    where
      outcome :
          (picked : List JobRecord)
          → load_jobs sql (filter (claimable sql now) rows) ≡ picked
          → ClaimOutcome
      outcome [] e = inl (rw e, nothing_claimable sql now rows e)
      outcome (row ∷ rest) e =
          let (m, c, f) = claimable_head sql now order rows row rest e in
          let (job, began, b) =
            begin_execution-IsBegun now (some worker_id) (some (lease_end now lease_seconds)) row
              (claimable_startable sql now row c) in
          inr (
            row,
            job,
            rw e (rw began),
            record {
              mem = m;
              was_claimable = c;
              first =
                  All-map _ _ rows
                    (λ r g. elim (Bool-cases (claimable sql now r)) [
                      | inl t ↦ inr (g t)
                      | inr t ↦ inl t
                    ])
                    f;
              same_job = b.same_job;
              now_running = b.now_running;
              owner = b.owned;
              expiry = b.expiry;
              no_cancel = b.no_cancel;
            },
          )
