-- ===== src/Operational/Rows.antt =====
-- The job table as a map: what an upsert writes, and that it keeps one row for each identifier.
use validador_final.Prelude.{
  ◌≡◌, refl, true, false, [], ◌∷◌, some, if◌then◌else◌, String, str_eq, str_eq_iff, arith, All,
  All-map, Bool-cases, inl, inr,
}
use validador_final.Job.{JobRecord}
use validador_final.Operational.{Table, load_job, upsert_job}

-- No two rows have the same identifier: the primary key.
abbrev pub IsKeyed : Table → Type 0
IsKeyed [] = Unit
IsKeyed (row ∷ rows) = All (λ r. str_eq row.job_id r.job_id ≡ false) rows × IsKeyed rows

pub upsert_job-All {κ} :
    (P : JobRecord → Type κ) (job : JobRecord) (rows : Table)
    → P job
    → All P rows
    → All P (upsert_job job rows)
unfolding upsert_job
upsert_job-All P job [] p h = (p, tt)
upsert_job-All P job (row ∷ rows) p h = elim (Bool-cases (str_eq row.job_id job.job_id)) [
  | inl e ↦ rw e (p, h.1)
  | inr e ↦ rw e (h.0, upsert_job-All P job rows p h.1)
]

-- An upsert keeps the identifiers distinct.
pub upsert_job-IsKeyed :
    (job : JobRecord) (rows : Table) → IsKeyed rows → IsKeyed (upsert_job job rows)
unfolding upsert_job
upsert_job-IsKeyed job [] k = (tt, tt)
upsert_job-IsKeyed job (row ∷ rows) k = elim (Bool-cases (str_eq row.job_id job.job_id)) [
  | inl e ↦ rw e (
    All-map _ _ rows
        (λ r (d : str_eq row.job_id r.job_id ≡ false). ground (
          arith,
          str_eq_iff row.job_id job.job_id,
          str_eq_iff row.job_id r.job_id,
          str_eq_iff job.job_id r.job_id,
        ))
        k.0,
    k.1,
  )
  | inr e ↦ rw e (
    upsert_job-All (λ r. str_eq row.job_id r.job_id ≡ false) job rows e k.0,
    upsert_job-IsKeyed job rows k.1,
  )
]

-- A read after an upsert gives the new row under its identifier and the old ones under all others.
pub load_job-upsert_job :
    (job_id : String) (job : JobRecord) (rows : Table)
    → load_job job_id (upsert_job job rows)
      ≡ (if str_eq job.job_id job_id then some job else load_job job_id rows)
unfolding load_job upsert_job
load_job-upsert_job job_id job [] = refl
load_job-upsert_job job_id job (row ∷ rows) = ground (
  arith,
  str_eq_iff row.job_id job.job_id,
  str_eq_iff row.job_id job_id,
  str_eq_iff job.job_id job_id,
  load_job-upsert_job job_id job rows,
)

-- After an upsert, the only row with the identifier is the one written.
pub upsert_job_only :
    (job : JobRecord) (rows : Table)
    → IsKeyed rows
    → All (λ r. str_eq r.job_id job.job_id ≡ true → r ≡ job) (upsert_job job rows)
unfolding upsert_job
upsert_job_only job [] k = (λ _. refl, tt)
upsert_job_only job (row ∷ rows) k = elim (Bool-cases (str_eq row.job_id job.job_id)) [
  | inl e ↦ rw e (
    λ _. refl,
    All-map _ _ rows
        (λ r (d : str_eq row.job_id r.job_id ≡ false) h. ground (
          arith,
          str_eq_iff row.job_id job.job_id,
          str_eq_iff row.job_id r.job_id,
          str_eq_iff r.job_id job.job_id,
        ))
        k.0,
  )
  | inr e ↦ rw e (λ h. cc, upsert_job_only job rows k.1)
]

-- A row that is read has the identifier asked for, and is the only row of a keyed table with it.
pub load_job_lem :
    (job_id : String) (rows : Table) (row : JobRecord)
    → IsKeyed rows
    → load_job job_id rows ≡ some row
    → (row.job_id ≡ job_id) × All (λ r. r.job_id ≡ job_id → r ≡ row) rows
unfolding load_job
load_job_lem job_id [] row k e = cc
load_job_lem job_id (r ∷ rows) row k e = elim (Bool-cases (str_eq r.job_id job_id)) [
  | inl same ↦
      let r_id = (str_eq_iff r.job_id job_id).0 same in
      let first : r ≡ row = ground arith in
      (
        cc,
        (
          (λ _. first),
          All-map _ _ rows
              (λ x (d : str_eq r.job_id x.job_id ≡ false) h.
                ground (arith, str_eq_iff r.job_id x.job_id))
              k.0,
        ),
      )
  | inr other ↦
      let rest = load_job_lem job_id rows row k.1 (rw other at e) in
      (rest.0, ((λ h. ground (arith, str_eq_iff r.job_id job_id)), rest.1))
]
