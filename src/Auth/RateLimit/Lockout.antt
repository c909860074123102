-- ===== src/Auth/RateLimit/Lockout.antt =====
-- When a public sign-in is refused.
use validador_final.Prelude.{
  ◌≡◌, refl, sym, ap, ◌∙◌, ◌↔◌, Bool, true, false, List, [], ◌∷◌, Option, none, some, if◌then◌else◌,
  String, str_eq_iff, arith, Result, ok, err, any,
}
use validador_final.Job.{Time}
use validador_final.Auth.RateLimit.{
  PublicAuthAction, AttemptKey, PublicAuthAttemptState, RateLimited, Attempts, action_eq, key_eq,
  get_state, put_state, pop_state, prune_public_auth_state, locked_at, ensure_state, ensure_keys,
  ensure_public_auth_allowed, build_public_auth_keys, clear_public_auth_failures,
}

action_eq_iff : (a b : PublicAuthAction) → (action_eq a b ≡ true) ↔ (a ≡ b)
action_eq_iff PublicAuthAction.login b = ground arith
action_eq_iff PublicAuthAction.setup b = ground arith

pub key_eq_iff : (a b : AttemptKey) → (key_eq a b ≡ true) ↔ (a ≡ b)
unfolding key_eq
key_eq_iff a b = (
  λ h. ground (
    arith,
    action_eq_iff a.action b.action,
    str_eq_iff a.origin b.origin,
    str_eq_iff a.tenant_id b.tenant_id,
    str_eq_iff a.username b.username,
  ),
  λ h. ground (
    arith,
    action_eq_iff a.action b.action,
    str_eq_iff a.origin b.origin,
    str_eq_iff a.tenant_id b.tenant_id,
    str_eq_iff a.username b.username,
  ),
)

pub get_state-put_state :
    (key k : AttemptKey) (state : PublicAuthAttemptState) (attempts : Attempts)
    → get_state k (put_state key state attempts)
      ≡ (if key_eq key k then some state else get_state k attempts)
unfolding get_state put_state
get_state-put_state key k state [] = refl
get_state-put_state key k state ((j, old) ∷ attempts) = ground (
  arith,
  key_eq_iff key k,
  key_eq_iff j key,
  key_eq_iff j k,
  get_state-put_state key k state attempts,
)

get_state-pop_state :
    (key k : AttemptKey) (attempts : Attempts)
    → get_state k (pop_state key attempts) ≡ (if key_eq key k then none else get_state k attempts)
unfolding get_state pop_state
get_state-pop_state key k [] = ground arith
get_state-pop_state key k ((j, old) ∷ attempts) =
    ground (
      arith,
      key_eq_iff key k,
      key_eq_iff j key,
      key_eq_iff j k,
      get_state-pop_state key k attempts,
    )

abbrev pub state_locked : Time → Option PublicAuthAttemptState → Bool
state_locked now none = false
state_locked now (some state) = locked_at now state.locked_until

-- The key is under a lockout that ends after `now`.
abbrev pub is_locked : Time → Attempts → AttemptKey → Bool
is_locked now attempts key = state_locked now (get_state key attempts)

prune_locked :
    (now : Time) (state : PublicAuthAttemptState)
    → locked_at now (prune_public_auth_state now state).locked_until
      ≡ locked_at now state.locked_until
unfolding prune_public_auth_state
prune_locked now state = ground arith

-- A round of the loop refuses exactly a locked key, and leaves every key as locked as it was.
ensure_state_locked :
    (now : Time) (key k : AttemptKey) (found : Option PublicAuthAttemptState) (attempts : Attempts)
    → get_state key attempts ≡ found
    → is_locked now (ensure_state now key found attempts).1 k ≡ is_locked now attempts k
unfolding ensure_state
ensure_state_locked now key k none attempts e = refl
ensure_state_locked now key k (some state) attempts e = ground (
  arith,
  key_eq_iff key k,
  prune_locked now state,
  get_state-pop_state key k attempts,
  get_state-put_state key k (prune_public_auth_state now state) attempts,
)

abbrev pub refused : Result RateLimited Attempts → Bool
refused (ok attempts) = false
refused (err e) = true

refused-ensure_state :
    (now : Time) (key : AttemptKey) (found : Option PublicAuthAttemptState) (attempts : Attempts)
    → refused (ensure_state now key found attempts).0 ≡ state_locked now found
unfolding ensure_state
refused-ensure_state now key none attempts = refl
refused-ensure_state now key (some state) attempts = ground (arith, prune_locked now state)

ensure_state_ok :
    (now : Time) (key : AttemptKey) (found : Option PublicAuthAttemptState)
    (attempts attempts' : Attempts)
    → (ensure_state now key found attempts).0 ≡ ok attempts'
    → (ensure_state now key found attempts).1 ≡ attempts'
unfolding ensure_state
ensure_state_ok now key none attempts attempts' e = ground arith
ensure_state_ok now key (some state) attempts attempts' e = ground arith

any_same :
    (p q : AttemptKey → Bool) (keys : List AttemptKey)
    → ((k : AttemptKey) → p k ≡ q k)
    → any p keys ≡ any q keys
any_same p q [] h = refl
any_same p q (k ∷ keys) h = ground (arith, h k, any_same p q keys h)

-- The loop refuses exactly if one of the keys is locked.
refused-ensure_keys :
    (now : Time) (keys : List AttemptKey) (attempts : Attempts)
    → refused (ensure_keys now keys attempts).0 ≡ any (is_locked now attempts) keys
unfolding ensure_keys
refused-ensure_keys now [] attempts = refl
refused-ensure_keys now (key ∷ keys) attempts =
    go (ensure_state now key (get_state key attempts) attempts).0
      (λ a. refused-ensure_keys now keys a) refl
  where
    go :
        (r : Result RateLimited Attempts)
        → ((a : Attempts) → refused (ensure_keys now keys a).0 ≡ any (is_locked now a) keys)
        → (ensure_state now key (get_state key attempts) attempts).0 ≡ r
        → refused (ensure_keys now (key ∷ keys) attempts).0
          ≡ any (is_locked now attempts) (key ∷ keys)
    go (ok attempts') rest e =
        let unlocked : is_locked now attempts key ≡ false =
          sym (refused-ensure_state now key (get_state key attempts) attempts) ∙ ap refused e in
        let same = λ (k : AttemptKey).
          ap (λ a. is_locked now a k) (sym (ensure_state_ok now key _ attempts attempts' e))
          ∙ ensure_state_locked now key k _ attempts refl in
        rw (e, unlocked) (rest attempts' ∙ any_same _ _ keys same)
    go (err x) rest e =
        let locked : is_locked now attempts key ≡ true =
          sym (refused-ensure_state now key (get_state key attempts) attempts) ∙ ap refused e in
        rw (e, locked)

module _ (casefold : String → String) (action : PublicAuthAction)
    (origin tenant_id username : String) where
  abbrev attempt_keys : List AttemptKey
  attempt_keys = build_public_auth_keys casefold action origin tenant_id username

  -- A sign-in attempt is refused exactly if its origin or its account is locked at that time.
  pub ensure_public_auth_allowed-refused :
      (now : Time) (attempts : Attempts)
      → refused
          (ensure_public_auth_allowed casefold now action origin tenant_id username attempts).0
        ≡ any
            (is_locked now attempts)
            (build_public_auth_keys casefold action origin tenant_id username)
  unfolding ensure_public_auth_allowed
  ensure_public_auth_allowed-refused now attempts = refused-ensure_keys now attempt_keys attempts

  -- After a successful sign-in has cleared the failures, the next attempt is not refused.
  pub ensure-clear :
      (now : Time) (attempts : Attempts)
      → refused
          (ensure_public_auth_allowed casefold now action origin tenant_id username
            (clear_public_auth_failures casefold action origin tenant_id username attempts)).0
        ≡ false
  unfolding clear_public_auth_failures
  ensure-clear now attempts =
      let all : AttemptKey = record {
        action = action;
        origin = origin;
        tenant_id = "";
        username = "";
      } in
      let own : AttemptKey = record {
        action = action;
        origin = origin;
        tenant_id = tenant_id;
        username = casefold username;
      } in
      rw ensure_public_auth_allowed-refused (
        ground (
          arith,
          key_eq_iff all all,
          key_eq_iff own own,
          get_state-pop_state own all (pop_state all attempts),
          get_state-pop_state all all attempts,
          get_state-pop_state own own (pop_state all attempts),
        ))
