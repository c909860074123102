-- ===== src/Examples/Stores.antt =====
-- The table of jobs and the cache of answers at concrete inputs.
use validador_final.Prelude.{
  ℕ, ◌≡◌, refl, ◌⊎◌, ◌≤◌, ◌<◌, ◌*◌, ◌+◌, Bool, true, false, List, [], ◌∷◌, Option, none, some, ok,
  String, All, leb, ltb, arith, str_eq, if◌then◌else◌, length,
}
use validador_final.Job.{JobRecord, running}
use validador_final.Job.Calls.{new_job}
use validador_final.Operational.{Sql, Table, load_job}
use validador_final.Operational.Rows.{IsKeyed}
use validador_final.Operational.Claims.{IsRowOrder, ClaimOutcome, claim_next_job_lem}
use validador_final.Operational.Leases.{
  IsPunctual, HeartbeatOutcome, heartbeat_job_execution_lem, Request, claim, heartbeat, serve_all,
  serve_all_leased,
}
use validador_final.LlmCache.{Entries, get_response, set_response, prune_expired}
use validador_final.LlmCache.Expiry.{
  IsUnique, get_response-set_response, get_response-prune_expired,
}

abbrev by_age : Sql
by_age = record {
  stamp_le = λ expires now. leb expires now;
  row_before = λ a b. leb a.created_at b.created_at;
}

by_age-IsRowOrder : IsRowOrder by_age
by_age-IsRowOrder = record { trans = λ x y z h k. ground arith; total = λ x y h. ground arith }

by_age-IsPunctual : IsPunctual by_age
by_age-IsPunctual = record { never_early = λ expires now h. ground arith }

abbrev waiting : JobRecord
waiting = new_job "job-2" 7 "acme" none (some "b.csv") none [] none

abbrev leased : JobRecord
unfolding new_job
leased = record (new_job "job-1" 5 "acme" none (some "a.csv") none [] none) {
  status = running;
  execution_owner_id = some "worker-1";
  execution_expires_at = some 9_000_000;
}

abbrev table : Table
table = leased ∷ waiting ∷ []

table-IsKeyed : IsKeyed table
unfolding new_job
table-IsKeyed = ((refl, tt), (tt, tt))

abbrev rush : List Request
rush =
    claim 8_000_000 "worker-2" 30
    ∷ heartbeat 8_500_000 "job-1" "worker-2" 30
    ∷ claim 8_900_000 "worker-3" 30
    ∷ []

serve_all_leased_example : load_job "job-1" (serve_all by_age rush table) ≡ some leased
unfolding new_job load_job
serve_all_leased_example =
    serve_all_leased by_age by_age-IsRowOrder by_age-IsPunctual "job-1" "worker-1" 9_000_000 leased
      (record { is_running = refl; owner = refl; expiry = refl }) rush table table-IsKeyed refl
      (omega arith, ((omega arith, refl), (omega arith, tt)))

claim_next_job_lem_example : ClaimOutcome by_age by_age-IsRowOrder 8 "worker-2" 30 table
claim_next_job_lem_example = claim_next_job_lem by_age by_age-IsRowOrder 8 "worker-2" 30 table

heartbeat_job_execution_lem_example : HeartbeatOutcome 8 "job-1" "worker-1" 30 table
heartbeat_job_execution_lem_example = heartbeat_job_execution_lem 8 "job-1" "worker-1" 30 table

abbrev answers : Entries
answers =
    ("a", record { created_at = some 10; response_text = some "yes" })
    ∷ ("b", record { created_at = some 90; response_text = some "no" })
    ∷ []

answers-IsUnique : IsUnique answers
unfolding validador_final.Prelude.Dict.get
answers-IsUnique = (refl, (refl, tt))

get_response-set_response_example :
    get_response 1 (set_response 1 answers 95 "a" "maybe") 100 "a" 60 ≡ (
      if str_eq "a" "a"
      then if leb 100 (95 + 60 * 1) then some "maybe" else none
      else get_response 1 answers 100 "a" 60)
get_response-set_response_example =
    get_response-set_response 1 answers 95 100 "a" "a" "maybe" 60 (omega arith)

get_response-prune_expired_example :
    get_response 1 (prune_expired 1 answers 100 60 false).1 120 "b" 60
    ≡ get_response 1 answers 120 "b" 60
get_response-prune_expired_example =
    get_response-prune_expired 1 answers 100 120 60 false "b" answers-IsUnique (omega arith)
