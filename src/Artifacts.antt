-- ===== src/Artifacts.antt =====
-- Where the files of a job lie (app/services/validation_service.py). A path is its normalized text.
-- What pathlib and the disk know is a parameter.
use validador_final.Prelude.{String, Bool, List, [], ◌∷◌, ◌++◌, Option, none, some, if◌then◌else◌}
use validador_final.Prelude.Text.{truthy, is_member}
use validador_final.Job.{JobRecord, text_or}
use Prim.Native.String

-- Two directories of the program, `canonicalize_tenant_id`, `Path(text)`, and `Path(text).name`.
pub record Layout : Type 0 where
  pub uploads_dir : String
  pub results_dir : String
  pub canonicalize_tenant_id : String → String
  pub path : String → String
  pub name : String → String

-- `directory / name`, of a name that is not absolute
infixl 70 ◌//◌
abbrev pub ◌//◌ : String → String → String
directory // name = String.◌++◌ directory (String.◌++◌ "/" name)

unfoldable pub first_existing : (String → Bool) → List String → Option String
first_existing exists [] = none
first_existing exists (candidate ∷ candidates) =
    if exists candidate then some candidate else first_existing exists candidates

module _ (layout : Layout) where
  unfoldable pub sanitize_job_file_name : Option String → String
  sanitize_job_file_name file_name =
      text_or (some (layout.name (text_or file_name "lote.csv"))) "lote.csv"

  unfoldable pub get_tenant_uploads_dir : String → String
  get_tenant_uploads_dir tenant_id = layout.uploads_dir // layout.canonicalize_tenant_id tenant_id

  unfoldable pub get_tenant_results_dir : String → String
  get_tenant_results_dir tenant_id = layout.results_dir // layout.canonicalize_tenant_id tenant_id

  -- `f"{job_id}_{rest}"`
  abbrev pub of_job : String → String → String
  of_job job_id rest = String.◌++◌ job_id (String.◌++◌ "_" rest)

  unfoldable pub build_job_upload_path : String → String → Option String → String
  unfolding get_tenant_uploads_dir sanitize_job_file_name
  build_job_upload_path tenant_id job_id file_name =
      get_tenant_uploads_dir tenant_id // of_job job_id (sanitize_job_file_name file_name)

  unfoldable pub build_job_result_path : String → String → String
  unfolding get_tenant_results_dir
  build_job_result_path tenant_id job_id =
      get_tenant_results_dir tenant_id // of_job job_id "result.json"

  unfoldable pub build_job_report_path : String → String → String
  unfolding get_tenant_results_dir
  build_job_report_path tenant_id job_id =
      get_tenant_results_dir tenant_id // of_job job_id "report.pdf"

  unfoldable pub build_job_review_flags_path : String → String → String
  unfolding get_tenant_results_dir
  build_job_review_flags_path tenant_id job_id =
      get_tenant_results_dir tenant_id // job_id // "review_flags.json"

  unfoldable pub build_legacy_upload_path : String → Option String → String
  unfolding sanitize_job_file_name
  build_legacy_upload_path job_id file_name =
      layout.uploads_dir // of_job job_id (sanitize_job_file_name file_name)

  unfoldable pub build_legacy_result_path : String → String
  build_legacy_result_path job_id = layout.results_dir // of_job job_id "result.json"

  unfoldable pub build_legacy_report_path : String → String
  build_legacy_report_path job_id = layout.results_dir // of_job job_id "report.pdf"

  -- `[Path(persisted_path)] if persisted_path else []`
  unfoldable pub persisted_candidates : Option String → List String
  persisted_candidates none = []
  persisted_candidates (some text) = if truthy text then layout.path text ∷ [] else []

  -- A path after the others, unless it is one of them.
  unfoldable pub with_candidate : String → List String → List String
  with_candidate path candidates =
      if is_member path candidates then candidates else candidates ++ path ∷ []

  unfoldable pub resolve_existing_artifact_path :
      (String → Bool) → Option String → String → String → String
  unfolding persisted_candidates with_candidate first_existing
  resolve_existing_artifact_path exists persisted_path preferred_path legacy_path =
      let persisted = persisted_candidates persisted_path in
      elim (first_existing exists
        (with_candidate legacy_path (with_candidate preferred_path persisted))) [
          | some candidate ↦ candidate
          | none ↦ elim persisted [ [] ↦ preferred_path | path ∷ paths ↦ path ]
        ]

  module _ (exists : String → Bool) where
    unfoldable pub resolve_job_upload_path : JobRecord → String
    unfolding resolve_existing_artifact_path build_job_upload_path build_legacy_upload_path
    resolve_job_upload_path job =
        resolve_existing_artifact_path exists job.file_path
          (build_job_upload_path job.tenant_id job.job_id job.file_name)
          (build_legacy_upload_path job.job_id job.file_name)

    unfoldable pub resolve_job_result_path : JobRecord → String
    unfolding resolve_existing_artifact_path build_job_result_path build_legacy_result_path
    resolve_job_result_path job =
        resolve_existing_artifact_path exists job.result_path
          (build_job_result_path job.tenant_id job.job_id) (build_legacy_result_path job.job_id)

    unfoldable pub resolve_job_report_path : JobRecord → String
    unfolding resolve_existing_artifact_path build_job_report_path build_legacy_report_path
    resolve_job_report_path job =
        resolve_existing_artifact_path exists job.report_path
          (build_job_report_path job.tenant_id job.job_id) (build_legacy_report_path job.job_id)

  unfoldable pub resolve_job_review_flags_path : JobRecord → String
  unfolding build_job_review_flags_path
  resolve_job_review_flags_path job = build_job_review_flags_path job.tenant_id job.job_id
