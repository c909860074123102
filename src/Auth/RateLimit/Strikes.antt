-- ===== src/Auth/RateLimit/Strikes.antt =====
-- Failures that add up to a lockout (app/services/auth_service.py).
use validador_final.Prelude.{◌+◌, ◌≤◌, ◌<◌, List, [], ◌∷◌, String}
use validador_final.Job.{Time}
use validador_final.Auth.RateLimit.{
  PublicAuthAction, AttemptKey, PublicAuthAttemptState, Attempts, public_auth_window, get_state,
  state_or_new, register_public_auth_failure,
}

module _ (casefold : String → String) (action : PublicAuthAction)
    (origin tenant_id username : String) where
  abbrev any_account : AttemptKey
  any_account = record { action = action; origin = origin; tenant_id = ""; username = "" }

  abbrev account : AttemptKey
  account = record {
    action = action;
    origin = origin;
    tenant_id = tenant_id;
    username = casefold username;
  }

  abbrev held : Attempts → PublicAuthAttemptState
  held attempts = state_or_new (get_state account attempts)

  -- The attempts after failures at the given times.
  unfoldable pub register_all : List Time → Attempts → Attempts
  register_all [] attempts = attempts
  register_all (now ∷ times) attempts =
      register_all times
        (register_public_auth_failure casefold now action origin tenant_id username attempts).1

  Within : Time → Time → Type 0
  Within t now = (t ≤ now) × (now < t + public_auth_window)
