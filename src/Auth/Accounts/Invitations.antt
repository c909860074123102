-- ===== src/Auth/Accounts/Invitations.antt =====
-- `create_operator_invitation` and `accept_operator_invitation` of app/services/auth_service.py.
use validador_final.Prelude.{
  ◌+◌, ◌*◌, String, Bool, true, false, ◌&&◌, List, Option, none, some, if◌then◌else◌, str_eq, ltb,
  leb, filter, head?, Result, ok, err,
}
use validador_final.Prelude.Dict.{values}
use validador_final.Prelude.Exec.{pure, lift, gets, modify, ◌>>=◌, ◌>>◌}
use validador_final.Prelude.Text.{strip}
use validador_final.Job.{Time}
use validador_final.Operational.{microseconds}
use validador_final.Auth.Operators.{
  OperatorRole, AuthError, StoredOperatorRecord, EffectiveOperator, load_tenant_for_login,
  operator_from_record,
}
use validador_final.Auth.Shelves.{persist, keep, load, find_by_hash}
use validador_final.Auth.Accounts.{
  AccountAction, AccountWorld, OperatorInvitationRecord, AccountEvent, operator_invited,
  operator_invite_accepted, auth_error, invites_kind, record_event, canonicalize,
  validate_password_strength, load_operator_records, store_operator, find_operator_by_username,
  is_free, Lifetime, lifetime_or,
}

abbrev pub is_unused : Option Time → Bool
is_unused none = true
is_unused (some t) = false

-- The first pending invitation of the user.
unfoldable pub find_pending_invitation_by_username :
    Time → String → String → List OperatorInvitationRecord → Option OperatorInvitationRecord
find_pending_invitation_by_username now tenant_id username invites = head? (
    filter
      (λ i.
        str_eq i.tenant_id tenant_id
        && str_eq i.username username
        && is_unused i.used_at
        && ltb now i.expires_at)
      invites)

unfoldable pub no_invitation : Option OperatorInvitationRecord → Result AuthError (Unit {0})
no_invitation none = ok tt
no_invitation (some i) = err (auth_error 409 "Operator invitation already exists")

-- The checks on an invitation that is to be accepted: its use, given apart, and its expiration.
unfoldable pub unexpired :
    Option Time → Time → OperatorInvitationRecord → Result AuthError OperatorInvitationRecord
unexpired (some t) now i = err (auth_error 409 "Invitation token already used")
unexpired none now i =
    if leb i.expires_at now then err (auth_error 410 "Invitation token expired") else ok i

unfoldable pub usable :
    Time → Option OperatorInvitationRecord → Result AuthError OperatorInvitationRecord
unfolding unexpired
usable now none = err (auth_error 404 "Invitation token not found")
usable now (some i) = unexpired i.used_at now i

unfoldable pub invitation_event :
    Option String → Option String → OperatorInvitationRecord → AccountEvent
invitation_event api_key_id operator_id i = record {
  event_type = elim operator_id [ none ↦ operator_invited | some o ↦ operator_invite_accepted ];
  tenant_id = i.tenant_id;
  record_id = some i.invite_id;
  used_at = i.used_at;
  api_key_id = api_key_id;
  operator_id = operator_id;
  reason = none;
  revoked_api_key_count = none;
}

unfoldable pub accepted : Time → String → OperatorInvitationRecord → OperatorInvitationRecord
accepted now operator_id i = record i {
  used_at = some now;
  accepted_operator_id = some operator_id;
}

module _ (world : AccountWorld) where
  unfoldable pub find_invitation_by_token : String → AccountAction (Option OperatorInvitationRecord)
  find_invitation_by_token raw_invite_token s =
      let (found, invites) =
        find_by_hash invites_kind (canonicalize world) (world.hash_api_key raw_invite_token)
          s.invites in
      (ok found, record s { invites = invites })

  unfoldable pub load_invite_records : AccountAction (Unit {0})
  load_invite_records =
      modify (λ s. record s { invites = load invites_kind (canonicalize world) s.invites })

  unfoldable pub store_invite : OperatorInvitationRecord → AccountAction (Unit {0})
  store_invite i =
      modify (λ s. record s { invites = persist invites_kind (keep invites_kind i s.invites) })

  -- `raw_invite_token` and `invite_id` are the random texts.
  unfoldable pub create_operator_invitation :
      Time
      → String
      → String
      → String
      → String
      → OperatorRole
      → Option Lifetime
      → Option String
      → AccountAction OperatorInvitationRecord
  create_operator_invitation now raw_invite_token invite_id tenant_id username role expires_in
        api_key_id =
      do
        let normalized_tenant_id = canonicalize world tenant_id
        let normalized_username = strip username
        lift (load_tenant_for_login world.directory normalized_tenant_id)
        load_operator_records world
        load_invite_records
        load_operator_records world
        operators ← gets (λ s. values s.operators.records)
        lift (
            is_free world
              (find_operator_by_username world operators normalized_tenant_id normalized_username))
        invites ← gets (λ s. values s.invites.records)
        lift (
            no_invitation (
              find_pending_invitation_by_username now normalized_tenant_id normalized_username
                invites))
        ttl ← lift (
            lifetime_or "Invitation expiration must be greater than zero"
              (48 * 60 * 60 * microseconds) expires_in)
        let invite : OperatorInvitationRecord = record {
          invite_id = invite_id;
          tenant_id = normalized_tenant_id;
          username = normalized_username;
          role = role;
          token_hash = world.hash_api_key raw_invite_token;
          created_at = now;
          expires_at = now + ttl;
          created_by_api_key_id = api_key_id;
          used_at = none;
          accepted_operator_id = none;
        }
        store_invite invite
        record_event (invitation_event api_key_id none invite)
        pure invite

  -- The operator that an invitation makes.
  unfoldable pub invited : String → String → OperatorInvitationRecord → StoredOperatorRecord
  invited operator_id password i = record {
    tenant_id = canonicalize world i.tenant_id;
    operator_id = operator_id;
    username = i.username;
    password_hash = world.hash_password password;
    role = i.role;
    disabled = false;
    must_change_password = false;
  }

  -- The rest of `accept_operator_invitation`, with the invitation, which may be used.
  unfoldable pub accept_usable :
      Time → String → String → OperatorInvitationRecord → AccountAction EffectiveOperator
  accept_usable now operator_id password i = do
    lift (load_tenant_for_login world.directory (canonicalize world i.tenant_id))
    load_operator_records world
    load_operator_records world
    operators ← gets (λ s. values s.operators.records)
    lift (
        is_free world
          (find_operator_by_username world operators (canonicalize world i.tenant_id) i.username))
    store_operator world (invited operator_id password i)
    store_invite (accepted now operator_id i)
    record_event (invitation_event none (some operator_id) (accepted now operator_id i))
    pure (operator_from_record (invited operator_id password i) false)

  unfoldable pub accept_operator_invitation :
      Time → String → String → String → AccountAction EffectiveOperator
  accept_operator_invitation now operator_id invite_token password = do
    lift (validate_password_strength world password)
    found ← find_invitation_by_token (strip invite_token)
    i ← lift (usable now found)
    accept_usable now operator_id password i
