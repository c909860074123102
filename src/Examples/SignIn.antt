-- ===== src/Examples/SignIn.antt =====
-- The limits on public sign-in at concrete attempts.
use validador_final.Prelude.{◌≡◌, List, [], ◌∷◌, any}
use validador_final.Job.{Time}
use validador_final.Auth.RateLimit.{
  login, Attempts, build_public_auth_keys, ensure_public_auth_allowed,
}
use validador_final.Auth.RateLimit.Lockout.{refused, is_locked, ensure_public_auth_allowed-refused}
use validador_final.Auth.RateLimit.Strikes.{register_all}

abbrev five_times : List Time
five_times = 1000 ∷ 2000 ∷ 3000 ∷ 4000 ∷ 5000 ∷ []

ensure_public_auth_allowed-refused_example :
    refused (ensure_public_auth_allowed (λ u. u) 6000 login "10.0.0.1" "acme" "ana" []).0
    ≡ any (is_locked 6000 []) (build_public_auth_keys (λ u. u) login "10.0.0.1" "acme" "ana")
ensure_public_auth_allowed-refused_example =
    ensure_public_auth_allowed-refused (λ u. u) login "10.0.0.1" "acme" "ana" 6000 []

abbrev locked_out : Attempts
locked_out = register_all (λ u. u) login "10.0.0.1" "acme" "ana" five_times []
