-- ===== src/Auth/Accounts/Resets.antt =====
-- `create_operator_password_reset_token`, `complete_operator_password_reset` and
-- `_revoke_active_keys_for_operator` of app/services/auth_service.py.
pub mod Completed
pub mod Once
pub mod Pending
use validador_final.Prelude.{
  ℕ, ◌+◌, ◌*◌, String, Bool, true, false, not, ◌&&◌, ◌||◌, List, [], ◌∷◌, Option, none, some,
  if◌then◌else◌, str_eq, leb, Result, ok, err,
}
use validador_final.Prelude.Dict.{put, values}
use validador_final.Prelude.Exec.{pure, raise, lift, gets, modify, ◌>>=◌, ◌>>◌}
use validador_final.Prelude.Text.{strip}
use validador_final.Job.{Time}
use validador_final.Operational.{microseconds}
use validador_final.Auth.Operators.{
  OperatorRole, AuthError, StoredOperatorRecord, EffectiveOperator, find_operator_by_id,
  operator_from_record,
}
use validador_final.Auth.Keys.{
  KeyStore, KeyWorld, IssuedApiKeyRecord, backfilled, expiration, revoke_api_key,
}
use validador_final.Auth.Shelves.{Shelf, persist, keep, load, find_by_hash}
use validador_final.Auth.Accounts.{
  Accounts, AccountAction, AccountWorld, OperatorPasswordResetRecord, AccountEvent,
  AccountEventType, reset_token_issued, reset_failed, reset_completed, auth_error, resets_kind,
  record_event, canonicalize, load_operator_records, validate_password_strength, store_operator,
  with_password, Lifetime, lifetime_or,
}
use validador_final.Auth.Accounts.Invitations.{is_unused}

-- An operator that exists and is not disabled; the status of the refusal of a disabled one differs.
unfoldable pub active_operator :
    ℕ → Result AuthError (Option EffectiveOperator) → Result AuthError EffectiveOperator
active_operator status (err e) = err e
active_operator status (ok none) = err (auth_error 404 "Operator not found")
active_operator status (ok (some o)) =
    if o.disabled then err (auth_error status "Operator is disabled") else ok o

-- The test of the loop of `_invalidate_pending_password_reset_tokens`.
unfoldable pub is_pending : Time → String → String → OperatorPasswordResetRecord → Bool
is_pending now tenant_id operator_id r =
    str_eq r.tenant_id tenant_id
    && str_eq r.operator_id operator_id
    && is_unused r.used_at
    && not (leb r.expires_at now)

-- The loop: the records after it, and whether one was changed.
unfoldable pub invalidate :
    Time
    → String
    → String
    → List (String × OperatorPasswordResetRecord)
    → List (String × OperatorPasswordResetRecord) × Bool
unfolding is_pending
invalidate now tenant_id operator_id [] = ([], false)
invalidate now tenant_id operator_id ((k, r) ∷ records) =
    let (rest, updated) = invalidate now tenant_id operator_id records in
    if is_pending now tenant_id operator_id r
    then ((k, record r { used_at = some now }) ∷ rest, true)
    else ((k, r) ∷ rest, updated)

unfoldable pub reset_event :
    AccountEventType
    → Option String
    → Option String
    → Option String
    → OperatorPasswordResetRecord
    → AccountEvent
reset_event event_type api_key_id operator_id reason r = record {
  event_type = event_type;
  tenant_id = r.tenant_id;
  record_id = some r.reset_id;
  used_at = r.used_at;
  api_key_id = api_key_id;
  operator_id = operator_id;
  reason = reason;
  revoked_api_key_count = none;
}

-- `_record_password_reset_failure`: no record is known, the default tenant is named.
unfoldable pub reset_failure : String → AccountEvent
reset_failure reason = record {
  event_type = reset_failed;
  tenant_id = "default";
  record_id = none;
  used_at = none;
  api_key_id = none;
  operator_id = none;
  reason = some reason;
  revoked_api_key_count = none;
}

-- What comes of the search for a token: the record, or the failure that is noted and the error.
unfoldable pub checked_use :
    Option Time
    → Time
    → OperatorPasswordResetRecord
    → Result (AccountEvent × AuthError) OperatorPasswordResetRecord
unfolding reset_event
checked_use (some t) now r = err (
  reset_event reset_failed none none (some "token_already_used") r,
  auth_error 409 "Password reset token already used",
)
checked_use none now r =
    if leb r.expires_at now
    then err (
      reset_event reset_failed none none (some "token_expired") r,
      auth_error 410 "Password reset token expired",
    )
    else ok r

unfoldable pub checked_reset :
    Time
    → Option OperatorPasswordResetRecord
    → Result (AccountEvent × AuthError) OperatorPasswordResetRecord
unfolding checked_use reset_failure
checked_reset now none =
    err (reset_failure "token_not_found", auth_error 404 "Password reset token not found")
checked_reset now (some r) = checked_use r.used_at now r

-- The operator of the record; an error of the search itself is not noted.
unfoldable pub checked_operator :
    OperatorPasswordResetRecord
    → Result AuthError (Option EffectiveOperator)
    → Result (Option AccountEvent × AuthError) EffectiveOperator
unfolding reset_event
checked_operator r (err e) = err (none, e)
checked_operator r (ok none) = err (
  some (reset_event reset_failed none none (some "operator_not_found") r),
  auth_error 404 "Operator not found",
)
checked_operator r (ok (some o)) =
    if o.disabled
    then err (
      some (reset_event reset_failed none none (some "operator_disabled") r),
      auth_error 403 "Operator is disabled",
    )
    else ok o

-- The failures are noted before the error is raised.
unfoldable pub noted : {A : Type 0} → Result (AccountEvent × AuthError) A → AccountAction A
noted (ok a) = pure a
noted (err (event, e)) = do record_event event; raise e

unfoldable pub noted_some :
    {A : Type 0} → Result (Option AccountEvent × AuthError) A → AccountAction A
noted_some (ok a) = pure a
noted_some (err (none, e)) = raise e
noted_some (err (some event, e)) = do record_event event; raise e

unfoldable pub weak_password :
    Result AuthError (Unit {0}) → Result (AccountEvent × AuthError) (Unit {0})
unfolding reset_failure
weak_password (ok u) = ok u
weak_password (err e) = err (reset_failure "weak_password", e)

-- A revocation that is counted, unless it raised.
unfoldable pub counted :
    ℕ → Result AuthError IssuedApiKeyRecord × KeyStore → Result AuthError ℕ × KeyStore
counted n (err e, s) = (err e, s)
counted n (ok r, s) = (ok (n + 1), s)

module _ (world : AccountWorld) where
  -- The operator's key is neither revoked nor over.
  unfoldable pub is_live : Time → IssuedApiKeyRecord → Bool
  is_live now r = is_unused r.revoked_at && not (leb (expiration world.keys r) now)

  -- One turn of the loop of `_revoke_active_keys_for_operator`: the count and the keys after it.
  unfoldable pub revoke_turn :
      Time → String → String → IssuedApiKeyRecord → ℕ → KeyStore → Result AuthError ℕ × KeyStore
  unfolding is_live counted
  revoke_turn now tenant_id operator_id r n s =
      let filled = record s { records = put r.key_id (backfilled world.keys r) s.records } in
      if not (str_eq r.tenant_id tenant_id) || not (str_eq r.operator_id operator_id)
      then (ok n, s)
      else if is_live now r
      then counted n (revoke_api_key world.keys now tenant_id r.key_id filled)
      else (ok n, filled)

  -- The loop over the records that there were: a revocation that raises ends it.
  unfoldable pub revoke_each :
      Time
      → String
      → String
      → List IssuedApiKeyRecord
      → Result AuthError ℕ × KeyStore
      → Result AuthError ℕ × KeyStore
  unfolding revoke_turn
  revoke_each now tenant_id operator_id [] so_far = so_far
  revoke_each now tenant_id operator_id (r ∷ records) (err e, s) = (err e, s)
  revoke_each now tenant_id operator_id (r ∷ records) (ok n, s) =
      revoke_each now tenant_id operator_id records (revoke_turn now tenant_id operator_id r n s)

  unfoldable pub revoke_active_keys_for_operator : Time → String → String → AccountAction ℕ
  unfolding revoke_each
  revoke_active_keys_for_operator now tenant_id operator_id s =
      let (count, keys) =
        revoke_each now tenant_id operator_id (values s.keys.records) (ok 0, s.keys) in
      (count, record s { keys = keys })

  unfoldable pub load_password_reset_records : AccountAction (Unit {0})
  load_password_reset_records =
      modify (λ s. record s { resets = load resets_kind (canonicalize world) s.resets })

  unfoldable pub invalidated : Time → String → String → Accounts → Accounts
  unfolding invalidate
  invalidated now tenant_id operator_id s =
      let (records, updated) = invalidate now tenant_id operator_id s.resets.records in
      let resets = record s.resets { records = records } in
      record s { resets = if updated then persist resets_kind resets else resets }

  unfoldable pub store_reset : OperatorPasswordResetRecord → AccountAction (Unit {0})
  store_reset r =
      modify (λ s. record s { resets = persist resets_kind (keep resets_kind r s.resets) })

  -- `_find_operator_by_id`: the listing of the operators first reads the stored records again.
  unfoldable pub find_operator :
      String → String → AccountAction (Result AuthError (Option EffectiveOperator))
  find_operator tenant_id operator_id = do
    load_operator_records world
    gets (λ s.
        find_operator_by_id world.directory (values s.operators.records) tenant_id operator_id)

  -- The end of `create_operator_password_reset_token`, with the new record.
  unfoldable pub issue_reset :
      Time → OperatorPasswordResetRecord → AccountAction OperatorPasswordResetRecord
  issue_reset now reset = do
    load_password_reset_records
    modify (invalidated now reset.tenant_id reset.operator_id)
    store_reset reset
    record_event (
        reset_event reset_token_issued reset.created_by_api_key_id (some reset.operator_id) none
          reset)
    pure reset

  -- `raw_reset_token` and `reset_id` are the random texts.
  unfoldable pub create_operator_password_reset_token :
      Time
      → String
      → String
      → String
      → String
      → Option Lifetime
      → Option String
      → AccountAction OperatorPasswordResetRecord
  create_operator_password_reset_token now raw_reset_token reset_id tenant_id operator_id expires_in
        api_key_id =
      do
        let normalized_tenant_id = canonicalize world tenant_id
        found ← find_operator normalized_tenant_id operator_id
        operator ← lift (active_operator 409 found)
        ttl ← lift (
            lifetime_or "Password reset expiration must be greater than zero"
              (60 * 60 * microseconds) expires_in)
        issue_reset now (record {
          reset_id = reset_id;
          tenant_id = normalized_tenant_id;
          operator_id = operator.operator_id;
          username = operator.username;
          token_hash = world.hash_api_key raw_reset_token;
          created_at = now;
          expires_at = now + ttl;
          created_by_api_key_id = api_key_id;
          used_at = none;
        })

  unfoldable pub find_password_reset_by_token :
      String → AccountAction (Option OperatorPasswordResetRecord)
  find_password_reset_by_token raw_reset_token s =
      let (found, resets) =
        find_by_hash resets_kind (canonicalize world) (world.hash_api_key raw_reset_token)
          s.resets in
      (ok found, record s { resets = resets })

  -- The rest of `complete_operator_password_reset`, with the record and its operator.
  unfoldable pub complete_for :
      Time
      → String
      → OperatorPasswordResetRecord
      → EffectiveOperator
      → AccountAction EffectiveOperator
  complete_for now new_password r operator = do
    let stored = with_password world operator (world.hash_password new_password)
    store_operator world stored
    count ← revoke_active_keys_for_operator now operator.tenant_id operator.operator_id
    let used = record r { used_at = some now }
    store_reset used
    record_event (record (reset_event reset_completed none (some operator.operator_id) none used) {
      revoked_api_key_count = some count;
    })
    pure (operator_from_record stored operator.is_seed)

  unfoldable pub complete_operator_password_reset :
      Time → String → String → AccountAction EffectiveOperator
  complete_operator_password_reset now reset_token new_password = do
    noted (weak_password (validate_password_strength world new_password))
    found ← find_password_reset_by_token (strip reset_token)
    r ← noted (checked_reset now found)
    owner ← find_operator (canonicalize world r.tenant_id) r.operator_id
    operator ← noted_some (checked_operator r owner)
    complete_for now new_password r operator
