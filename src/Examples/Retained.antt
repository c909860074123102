-- ===== src/Examples/Retained.antt =====
-- A queued job whose upload is old, and the runs of the retention service.
use validador_final.Prelude.{◌≡◌, refl, [], ◌∷◌, none, some, leb, inl, inr, any, not}
use mathlib.Core.List.{Memᴰ}
use validador_final.Prelude.Dict.{get}
use validador_final.Prelude.Sorting.{sort_by}
use validador_final.Prelude.Exec.{◌>>=◌, gets, pure}
use validador_final.Job.{JobRecord}
use validador_final.Job.Calls.{new_job}
use validador_final.JobService.State.{in_memory}
use validador_final.JobService.Queries.{
  list_jobs, all_jobs, listed, newest_first, at_most, of_tenant,
}
use validador_final.Artifacts.{
  resolve_job_upload_path, resolve_existing_artifact_path, persisted_candidates, with_candidate,
  first_existing, build_job_upload_path, build_legacy_upload_path, get_tenant_uploads_dir,
  get_tenant_results_dir, sanitize_job_file_name, resolve_job_result_path, resolve_job_report_path,
  resolve_job_review_flags_path, build_job_result_path, build_job_report_path,
  build_job_review_flags_path, build_legacy_result_path, build_legacy_report_path,
}
use validador_final.Retention.Kinds.{
  RetentionPolicy, FileFacts, upload, artifact_path, retention_days, is_there,
}
use validador_final.Retention.{
  Retention, RetentionWorld, Clock, Candidate, slots, slots_of, candidate_of, is_needed, is_active,
  cleanup, expired_in,
}
use validador_final.Retention.Expired.{expired_in_iff, has_key, needs}
use validador_final.Retention.Cleanup.{cleanup-keeps}

abbrev lot : JobRecord
lot = new_job "job-1" 5 "acme" none (some "up/a.csv") (some "a.csv") [] none

abbrev facts : FileFacts
facts = record { modified_at = 5; size = 10 }

abbrev disks : RetentionWorld
disks = record {
  jobs = record {
    canonicalize_tenant_id = λ t. t;
    sql = record {
      stamp_le = λ expires now. leb expires now;
      row_before = λ a b. leb a.created_at b.created_at;
    };
  };
  layout = record {
    uploads_dir = "up";
    results_dir = "res";
    canonicalize_tenant_id = λ t. t;
    path = λ t. t;
    name = λ t. t;
  };
  casefold = λ t. t;
  resolve = λ t. t;
  parent = λ t. "up";
}

abbrev policy : RetentionPolicy
policy = record {
  upload_days = some 1;
  result_days = some 1;
  report_days = none;
  review_flags_days = some 1;
  llm_cache_days = none;
}

abbrev clock : Clock
clock = record { started = 999_999_999_999; pruned = 999_999_999_999; finished = 999_999_999_999 }

abbrev kept : Retention
kept = record {
  service = record {
    jobs = ("job-1", lot) ∷ [];
    storage = in_memory;
    audit = none;
    status_transitions = [];
  };
  disk = record { files = ("up/a.csv", facts) ∷ []; directories = "up" ∷ [] };
  llm_cache = [];
  audit = some [];
}

abbrev candidate : Candidate
candidate = record { days = 1; path = "up/a.csv"; facts = facts }

cleanup-keeps_example :
    get "up/a.csv" (cleanup disks policy clock "acme" none kept).1.disk.files ≡ some facts
unfolding list_jobs all_jobs listed newest_first at_most of_tenant ◌>>=◌ gets pure sort_by slots
    slots_of new_job candidate_of is_needed is_active artifact_path retention_days is_there get
    resolve_job_upload_path resolve_existing_artifact_path persisted_candidates with_candidate
    first_existing build_job_upload_path build_legacy_upload_path get_tenant_uploads_dir
    get_tenant_results_dir sanitize_job_file_name resolve_job_result_path resolve_job_report_path
    resolve_job_review_flags_path build_job_result_path build_job_report_path
    build_job_review_flags_path build_legacy_result_path build_legacy_report_path
cleanup-keeps_example =
    cleanup-keeps disks policy clock "acme" none kept (lot ∷ []) lot upload candidate refl
      (Memᴰ.head refl) refl refl (inl refl, (inr refl, (inr refl, (inr refl, tt))))

expired_in_iff_example :
    any
      (has_key disks policy 999_999_999_999 kept.disk upload "up/a.csv")
      (expired_in disks policy 999_999_999_999 kept.disk (lot ∷ [])).artifacts
    ≡ not (any (needs disks policy 999_999_999_999 kept.disk upload "up/a.csv") (slots (lot ∷ [])))
unfolding slots slots_of new_job candidate_of artifact_path retention_days is_there get
    resolve_job_upload_path resolve_existing_artifact_path persisted_candidates with_candidate
    first_existing build_job_upload_path build_legacy_upload_path get_tenant_uploads_dir
    get_tenant_results_dir sanitize_job_file_name
expired_in_iff_example =
    expired_in_iff disks policy 999_999_999_999 kept.disk (lot ∷ []) lot upload candidate
      (Memᴰ.head refl) refl
