-- ===== src/Retention/Kinds.antt =====
-- The kinds of artifacts and the policy (app/core/retention.py), and where the artifacts lie.
use validador_final.Prelude.{
  ℕ, ◌*◌, String, Bool, true, false, List, [], ◌∷◌, Option, none, some, zero, suc,
}
use validador_final.Prelude.Dict.{get}
use validador_final.Prelude.Text.{strip, is_member}
use validador_final.Json.{Value, null, bool, number, negative, text, array, object}
use validador_final.Job.{JobRecord, Time}
use validador_final.Artifacts.{
  Layout, resolve_job_upload_path, resolve_job_result_path, resolve_job_report_path,
  resolve_job_review_flags_path,
}

pub data ArtifactKind : Type 0 where
  upload result report review_flags : ArtifactKind

abbrev pub kind_eq : ArtifactKind → ArtifactKind → Bool
kind_eq upload upload = true
kind_eq result result = true
kind_eq report report = true
kind_eq review_flags review_flags = true
kind_eq _ _ = false

-- The order of `_JOB_ARTIFACT_CONFIGS`.
abbrev pub kinds : List ArtifactKind
kinds = upload ∷ result ∷ report ∷ review_flags ∷ []

unfoldable pub prune_empty_parent : ArtifactKind → Bool
prune_empty_parent kind = kind_eq kind review_flags

pub record RetentionPolicy : Type 0 where
  pub upload_days : Option ℕ
  pub result_days : Option ℕ
  pub report_days : Option ℕ
  pub review_flags_days : Option ℕ
  pub llm_cache_days : Option ℕ

-- `getattr(policy, config.policy_field)`
unfoldable pub retention_days : RetentionPolicy → ArtifactKind → Option ℕ
retention_days policy upload = policy.upload_days
retention_days policy result = policy.result_days
retention_days policy report = policy.report_days
retention_days policy review_flags = policy.review_flags_days

unfoldable pub llm_cache_ttl_seconds : RetentionPolicy → Option ℕ
llm_cache_ttl_seconds policy = elim policy.llm_cache_days [
  | none ↦ none
  | some days ↦ some (days * 24 * 60 * 60)
]

-- `_truthy`: the text of a value that is no text is one of the words for the number 1 only.
unfoldable pub is_truthy : (String → String) → Value → Bool
unfolding strip
is_truthy casefold null = false
is_truthy casefold (bool b) = b
is_truthy casefold (number zero) = false
is_truthy casefold (number (suc zero)) = true
is_truthy casefold (number (suc (suc n))) = false
is_truthy casefold (negative n) = false
is_truthy casefold (text t) = is_member (casefold (strip t)) ("1" ∷ "true" ∷ "yes" ∷ "on" ∷ [])
is_truthy casefold (array items) = false
is_truthy casefold (object fields) = false

pub record FileFacts : Type 0 where
  pub modified_at : Time
  pub size : ℕ

pub record Disk : Type 0 where
  pub files : List (String × FileFacts)
  pub directories : List String

-- `path.exists()`
unfoldable pub is_there : Disk → String → Bool
is_there disk path = elim (get path disk.files) [
  | none ↦ is_member path disk.directories
  | some facts ↦ true
]

-- `config.resolve_path(job)`
unfoldable pub artifact_path : Layout → Disk → ArtifactKind → JobRecord → String
unfolding is_there resolve_job_upload_path resolve_job_result_path resolve_job_report_path
    resolve_job_review_flags_path
artifact_path layout disk upload job = resolve_job_upload_path layout (is_there disk) job
artifact_path layout disk result job = resolve_job_result_path layout (is_there disk) job
artifact_path layout disk report job = resolve_job_report_path layout (is_there disk) job
artifact_path layout disk review_flags job = resolve_job_review_flags_path layout job
