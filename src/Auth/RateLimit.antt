-- ===== src/Auth/RateLimit.antt =====
-- The counters of failed public sign-ins and their lockouts. Every method works on the two keys
-- of an attempt, that of the origin and that of the account, under the lock of the service. Times
-- are microseconds; `casefold` is Python's.
pub mod Lockout
pub mod Counting
pub mod Strikes
use validador_final.Prelude.{
  ℕ, ◌+◌, ◌*◌, Bool, true, false, ◌&&◌, not, List, [], ◌∷◌, ◌++◌, Option, none, some, if◌then◌else◌,
  String, str_eq, ltb, leb, filter, length, Result, ok, err,
}
use validador_final.Job.{Time}

pub data PublicAuthAction : Type 0 where
  login setup : PublicAuthAction

pub record AttemptKey : Type 0 where
  pub action : PublicAuthAction
  pub origin : String
  pub tenant_id : String
  pub username : String

pub record PublicAuthAttemptState : Type 0 where
  pub failures : List Time
  pub locked_until : Option Time

-- `AuthServiceError(429, …)`
pub data RateLimited : Type 0 where
  too_many_attempts : RateLimited

abbrev pub Attempts : Type 0
Attempts = List (AttemptKey × PublicAuthAttemptState)

abbrev pub public_auth_window : ℕ
public_auth_window = 300_000_000

abbrev pub public_auth_lockout : ℕ
public_auth_lockout = 900_000_000

abbrev pub max_public_auth_failures : PublicAuthAction → ℕ
max_public_auth_failures setup = 5
max_public_auth_failures login = 5

abbrev pub action_eq : PublicAuthAction → PublicAuthAction → Bool
action_eq login login = true
action_eq setup setup = true
action_eq _ _ = false

unfoldable pub key_eq : AttemptKey → AttemptKey → Bool
key_eq a b =
    action_eq a.action b.action
    && str_eq a.origin b.origin
    && str_eq a.tenant_id b.tenant_id
    && str_eq a.username b.username

unfoldable pub get_state : AttemptKey → Attempts → Option PublicAuthAttemptState
get_state key [] = none
get_state key ((k, state) ∷ attempts) = if key_eq k key then some state else get_state key attempts

unfoldable pub put_state : AttemptKey → PublicAuthAttemptState → Attempts → Attempts
put_state key state [] = (key, state) ∷ []
put_state key state ((k, old) ∷ attempts) =
    let rest = put_state key state attempts in
    if key_eq k key then (k, state) ∷ attempts else (k, old) ∷ rest

unfoldable pub pop_state : AttemptKey → Attempts → Attempts
pop_state key [] = []
pop_state key ((k, old) ∷ attempts) =
    let rest = pop_state key attempts in if key_eq k key then rest else (k, old) ∷ rest

-- `now - failure_at < PUBLIC_AUTH_WINDOW`, where the failure may lie ahead of a clock set back.
abbrev pub is_recent : Time → Time → Bool
is_recent now failure_at = ltb now (failure_at + public_auth_window)

-- `None` once the lockout has passed
abbrev pub still_locked : Time → Option Time → Option Time
still_locked now none = none
still_locked now (some until) = if leb until now then none else some until

unfoldable pub prune_public_auth_state : Time → PublicAuthAttemptState → PublicAuthAttemptState
prune_public_auth_state now state = record {
  failures = filter (is_recent now) state.failures;
  locked_until = still_locked now state.locked_until;
}

abbrev pub locked_at : Time → Option Time → Bool
locked_at now none = false
locked_at now (some until) = ltb now until

abbrev pub is_idle : PublicAuthAttemptState → Bool
is_idle (state) = elim state.locked_until [
  | some until ↦ false
  | none ↦ elim state.failures [ [] ↦ true | f ∷ fs ↦ false ]
]

-- One round of the loop of `_ensure_public_auth_allowed`, on the state that the key has.
unfoldable pub ensure_state :
    Time
    → AttemptKey
    → Option PublicAuthAttemptState
    → Attempts
    → Result RateLimited Attempts × Attempts
ensure_state now key none attempts = (ok attempts, attempts)
ensure_state now key (some state) attempts =
    let pruned = prune_public_auth_state now state in
    let written = put_state key pruned attempts in
    if locked_at now pruned.locked_until
    then (err too_many_attempts, written)
    else if is_idle pruned
    then (ok (pop_state key attempts), pop_state key attempts)
    else (ok written, written)

-- The loop goes on with the next key, or ends where the round raised.
abbrev pub next_round :
    Result RateLimited Attempts
    → Attempts
    → (Attempts → Result RateLimited Attempts × Attempts)
    → Result RateLimited Attempts × Attempts
next_round (ok attempts) written rest = rest attempts
next_round (err e) written rest = (err e, written)

-- The attempts come back beside the error too: what was pruned stays pruned.
unfoldable pub ensure_keys :
    Time → List AttemptKey → Attempts → Result RateLimited Attempts × Attempts
ensure_keys now [] attempts = (ok attempts, attempts)
ensure_keys now (key ∷ keys) attempts =
    let first = ensure_state now key (get_state key attempts) attempts in
    next_round first.0 first.1 (ensure_keys now keys)

-- The state after one more failure: at the limit the failures are cleared and the key is locked.
abbrev pub with_failure : Time → PublicAuthAction → PublicAuthAttemptState → PublicAuthAttemptState
with_failure now action pruned =
    let failures = pruned.failures ++ now ∷ [] in
    if leb (max_public_auth_failures action) (length failures)
    then record { failures = []; locked_until = some (now + public_auth_lockout) }
    else record { failures = failures; locked_until = pruned.locked_until }

abbrev pub state_or_new : Option PublicAuthAttemptState → PublicAuthAttemptState
state_or_new none = record { failures = []; locked_until = none }
state_or_new (some state) = state

unfoldable pub register_state :
    Time → PublicAuthAction → Option PublicAuthAttemptState → PublicAuthAttemptState
unfolding prune_public_auth_state
register_state now action found =
    with_failure now action (prune_public_auth_state now (state_or_new found))

-- The later of two lockouts
abbrev pub later_lockout : Option Time → Option Time → Option Time
later_lockout so_far none = so_far
later_lockout none (some until) = some until
later_lockout (some t) (some until) = if ltb t until then some until else some t

-- The lockout returned, and the attempts.
unfoldable pub register_keys :
    Time → PublicAuthAction → Option Time → List AttemptKey → Attempts → Option Time × Attempts
unfolding register_state
register_keys now action lockout [] attempts = (lockout, attempts)
register_keys now action lockout (key ∷ keys) attempts =
    let state = register_state now action (get_state key attempts) in
    register_keys now action (later_lockout lockout state.locked_until) keys
      (put_state key state attempts)

unfoldable pub clear_keys : List AttemptKey → Attempts → Attempts
clear_keys [] attempts = attempts
clear_keys (key ∷ keys) attempts = clear_keys keys (pop_state key attempts)

module _ (casefold : String → String) where
  unfoldable pub build_public_auth_keys :
      PublicAuthAction → String → String → String → List AttemptKey
  build_public_auth_keys action origin tenant_id username =
      (record { action = action; origin = origin; tenant_id = ""; username = "" })
      ∷ (record {
        action = action;
        origin = origin;
        tenant_id = tenant_id;
        username = casefold username;
      })
      ∷ []

  unfoldable pub ensure_public_auth_allowed :
      Time
      → PublicAuthAction
      → String
      → String
      → String
      → Attempts
      → Result RateLimited Attempts × Attempts
  unfolding ensure_keys build_public_auth_keys
  ensure_public_auth_allowed now action origin tenant_id username attempts =
      ensure_keys now (build_public_auth_keys action origin tenant_id username) attempts

  unfoldable pub register_public_auth_failure :
      Time → PublicAuthAction → String → String → String → Attempts → Option Time × Attempts
  unfolding register_keys build_public_auth_keys
  register_public_auth_failure now action origin tenant_id username attempts =
      register_keys now action none (build_public_auth_keys action origin tenant_id username)
        attempts

  unfoldable pub clear_public_auth_failures :
      PublicAuthAction → String → String → String → Attempts → Attempts
  unfolding clear_keys build_public_auth_keys
  clear_public_auth_failures action origin tenant_id username attempts =
      clear_keys (build_public_auth_keys action origin tenant_id username) attempts
