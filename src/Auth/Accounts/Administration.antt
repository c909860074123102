-- ===== src/Auth/Accounts/Administration.antt =====
-- `change_operator_role`, `reset_operator_password`, `complete_password_setup` and `disable_operator`
-- of app/services/auth_service.py.
use validador_final.Prelude.{
  ℕ, suc, String, Bool, true, List, [], ◌∷◌, Option, none, some, if◌then◌else◌, leb, Result, ok,
  err,
}
use validador_final.Prelude.Dict.{values}
use validador_final.Prelude.Exec.{pure, lift, gets, ◌>>=◌, ◌>>◌}
use validador_final.Job.{Time}
use validador_final.Auth.Operators.{
  OperatorRole, role_eq, AuthError, StoredOperatorRecord, EffectiveOperator,
  list_effective_operators, operator_from_record,
}
use validador_final.Auth.Accounts.{
  AccountAction, AccountWorld, AccountEvent, AccountEventType, operator_role_changed,
  operator_password_reset, operator_password_rotated, operator_disabled, auth_error, record_event,
  canonicalize, validate_password_strength, load_operator_records, store_operator, with_password,
}
use validador_final.Auth.Accounts.Resets.{find_operator, revoke_active_keys_for_operator}

unfoldable pub existing :
    Result AuthError (Option EffectiveOperator) → Result AuthError EffectiveOperator
existing (err e) = err e
existing (ok none) = err (auth_error 404 "Operator not found")
existing (ok (some o)) = ok o

-- The operator of a first password that is still to be set.
unfoldable pub in_setup : EffectiveOperator → Result AuthError (Unit {0})
in_setup o =
    if o.disabled
    then err (auth_error 403 "Operator is disabled")
    else if o.must_change_password
    then ok tt
    else err (auth_error 409 "Password setup is not required")

unfoldable pub active_operator_count : List EffectiveOperator → ℕ
active_operator_count [] = 0
active_operator_count (o ∷ os) =
    let rest = active_operator_count os in if o.disabled then rest else suc rest

unfoldable pub not_last : Result AuthError (List EffectiveOperator) → Result AuthError (Unit {0})
unfolding active_operator_count
not_last (err e) = err e
not_last (ok os) =
    if leb (active_operator_count os) 1
    then err (auth_error 409 "Cannot disable the last active operator")
    else ok tt

unfoldable pub operator_event :
    AccountEventType → Option String → Option ℕ → EffectiveOperator → AccountEvent
operator_event event_type api_key_id count o = record {
  event_type = event_type;
  tenant_id = o.tenant_id;
  record_id = none;
  used_at = none;
  api_key_id = api_key_id;
  operator_id = some o.operator_id;
  reason = none;
  revoked_api_key_count = count;
}

module _ (world : AccountWorld) where
  -- `_store_effective_operator` with nothing new
  abbrev pub unchanged : EffectiveOperator → StoredOperatorRecord
  unchanged o = record (with_password world o o.password_hash) {
    must_change_password = o.must_change_password;
  }

  -- A record is stored, the operator's keys are revoked, and the event is recorded.
  unfoldable pub store_and_revoke :
      Time
      → String
      → AccountEventType
      → Option String
      → EffectiveOperator
      → StoredOperatorRecord
      → AccountAction EffectiveOperator
  store_and_revoke now tenant_id event_type api_key_id operator stored = do
    store_operator world stored
    count ← revoke_active_keys_for_operator world now tenant_id operator.operator_id
    let updated = operator_from_record stored operator.is_seed
    record_event (operator_event event_type api_key_id (some count) updated)
    pure updated

  unfoldable pub change_operator_role :
      String → String → OperatorRole → Option String → AccountAction EffectiveOperator
  change_operator_role tenant_id operator_id role api_key_id = do
    found ← find_operator world (canonicalize world tenant_id) operator_id
    operator ← lift (existing found)
    let stored = record (unchanged operator) { role = role }
    let updated = operator_from_record stored operator.is_seed
    if role_eq operator.role role then pure operator else (do
      store_operator world stored
      record_event (operator_event operator_role_changed api_key_id none updated)
      pure updated)

  unfoldable pub reset_operator_password :
      Time → String → String → String → Option String → Bool → AccountAction EffectiveOperator
  reset_operator_password now tenant_id operator_id new_password api_key_id
        require_password_change =
      do
        let normalized_tenant_id = canonicalize world tenant_id
        found ← find_operator world normalized_tenant_id operator_id
        operator ← lift (existing found)
        lift (validate_password_strength world new_password)
        store_and_revoke now normalized_tenant_id operator_password_reset api_key_id operator
            (record (with_password world operator (world.hash_password new_password)) {
              must_change_password = require_password_change;
            })

  unfoldable pub complete_password_setup :
      Time → String → String → String → Option String → AccountAction EffectiveOperator
  complete_password_setup now tenant_id operator_id new_password api_key_id = do
    let normalized_tenant_id = canonicalize world tenant_id
    found ← find_operator world normalized_tenant_id operator_id
    operator ← lift (existing found)
    lift (in_setup operator)
    lift (validate_password_strength world new_password)
    store_and_revoke now normalized_tenant_id operator_password_rotated api_key_id operator
        (with_password world operator (world.hash_password new_password))

  unfoldable pub disable_active :
      Time → String → Option String → EffectiveOperator → AccountAction EffectiveOperator
  disable_active now tenant_id api_key_id operator = do
    load_operator_records world
    operators ←
        gets (λ s. list_effective_operators world.directory (values s.operators.records) tenant_id)
    lift (not_last operators)
    store_and_revoke now tenant_id operator_disabled api_key_id operator
        (record (unchanged operator) { disabled = true })

  unfoldable pub disable_operator :
      Time → String → String → Option String → AccountAction EffectiveOperator
  disable_operator now tenant_id operator_id api_key_id = do
    let normalized_tenant_id = canonicalize world tenant_id
    found ← find_operator world normalized_tenant_id operator_id
    operator ← lift (existing found)
    if operator.disabled
        then pure operator
        else disable_active now normalized_tenant_id api_key_id operator
