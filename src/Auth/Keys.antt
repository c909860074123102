-- ===== src/Auth/Keys.antt =====
-- The issued API keys of app/services/auth_service.py. A record is one object, which the dict holds
-- under its key_id: a change of it is written back there. The hash of a key, the tenants' files and
-- the lifetimes in them are parameters; reading the storage never fails here, and the
-- storage holds records from the start.
pub mod Validity
use validador_final.Prelude.{
  ℕ, ◌+◌, ◌*◌, ◌==◌, Bool, true, false, not, ◌&&◌, ◌||◌, List, [], ◌∷◌, ◌++◌, Option, none, some,
  if◌then◌else◌, String, str_eq, leb, Result, ok, err,
}
use validador_final.Prelude.Dict.{get, put, values}
use validador_final.Prelude.Sorting.{sort_by}
use validador_final.Job.{Time}
use validador_final.Operational.{microseconds}
use validador_final.Auth.Operators.{OperatorRole, AuthError}

pub record IssuedApiKeyRecord : Type 0 where
  pub key_id : String
  pub tenant_id : String
  pub operator_id : String
  pub username : String
  pub role : OperatorRole
  pub key_hash : String
  pub created_at : Time
  pub issued_ttl_seconds : Option ℕ
  pub expires_at : Option Time
  pub revoked_at : Option Time
  pub expired_at : Option Time

pub record ResolvedApiKey : Type 0 where
  pub tenant_id : String
  pub api_key_id : String
  pub operator_id : Option String
  pub role : Option OperatorRole

pub data IssuedApiKeyStatus : Type 0 where
  active revoked expired missing : IssuedApiKeyStatus

pub record IssuedApiKeyResolution : Type 0 where
  pub status : IssuedApiKeyStatus
  pub resolved_api_key : Option ResolvedApiKey
  pub detail : String

pub data KeyEventType : Type 0 where
  api_key_expired api_key_revoked : KeyEventType

pub record KeyEvent : Type 0 where
  pub event_type : KeyEventType
  pub key_id : String
  pub at : Time

-- The records, what the storage holds of them (`none` without a path), and the events that a service
-- of audit is given: the type, the key and the time.
pub record KeyStore : Type 0 where
  pub records : List (String × IssuedApiKeyRecord)
  pub storage : Option (List IssuedApiKeyRecord)
  pub audit : List KeyEvent

pub record KeyWorld : Type 0 where
  pub canonicalize_tenant_id : String → String
  pub get_tenant_ttl_seconds : String → ℕ

unfoldable pub persist_records : KeyStore → KeyStore
unfolding sort_by
persist_records s = elim s.storage [
  | none ↦ s
  | some old ↦ record s {
    storage = some (sort_by (λ a b. leb a.created_at b.created_at) (values s.records));
  }
]

unfoldable pub find_record_by_hash :
    String → List (String × IssuedApiKeyRecord) → Option IssuedApiKeyRecord
find_record_by_hash hash [] = none
find_record_by_hash hash ((k, r) ∷ records) =
    if str_eq r.key_hash hash then some r else find_record_by_hash hash records

-- `option == some(value)`
abbrev pub is_just : Option ℕ → ℕ → Bool
is_just none n = false
is_just (some m) n = m == n

-- `_mark_record_expired`
unfoldable pub mark_record_expired : Time → IssuedApiKeyRecord → KeyStore → KeyStore
unfolding persist_records
mark_record_expired now r s = elim r.expired_at [
  | some t ↦ s
  | none ↦
      let kept =
        persist_records
          (record s { records = put r.key_id (record r { expired_at = some now }) s.records }) in
      record kept {
        audit =
            kept.audit
            ++ (record { event_type = api_key_expired; key_id = r.key_id; at = now }) ∷ [];
      }
]

unfoldable pub resolution :
    IssuedApiKeyStatus → Option ResolvedApiKey → String → IssuedApiKeyResolution
resolution status resolved detail = record {
  status = status;
  resolved_api_key = resolved;
  detail = detail;
}

unfoldable pub resolved_key : IssuedApiKeyRecord → ResolvedApiKey
resolved_key r = record {
  tenant_id = r.tenant_id;
  api_key_id = r.key_id;
  operator_id = some r.operator_id;
  role = some r.role;
}

-- The tests on the time of revocation, and on whether the key is past its expiration.
unfoldable pub judge :
    Option Time → Bool → Time → IssuedApiKeyRecord → KeyStore → IssuedApiKeyResolution × KeyStore
unfolding resolution mark_record_expired resolved_key
judge (some t) late now r s = (resolution revoked none "Revoked API key", s)
judge none true now r s = (resolution expired none "Expired API key", mark_record_expired now r s)
judge none false now r s = (resolution active (some (resolved_key r)) "Active API key", s)

-- The rest of `revoke_api_key`, with the time of an earlier revocation: only the first one counts.
unfoldable pub revoke_filled :
    Option Time → Bool → Time → IssuedApiKeyRecord → KeyStore → IssuedApiKeyRecord × KeyStore
unfolding persist_records
revoke_filled (some t) updated now r s =
    let written = record s { records = put r.key_id r s.records } in
    (r, if updated then persist_records written else written)
revoke_filled none updated now filled s =
    let r = record filled { revoked_at = some now } in
    let kept = persist_records (record s { records = put r.key_id r s.records }) in
    (
      r,
      record kept {
        audit =
            kept.audit
            ++ (record { event_type = api_key_revoked; key_id = r.key_id; at = now }) ∷ [];
      },
    )

module _ (world : KeyWorld) where
  unfoldable pub ttl_seconds : IssuedApiKeyRecord → ℕ
  ttl_seconds r = elim r.issued_ttl_seconds [
    | none ↦ world.get_tenant_ttl_seconds r.tenant_id
    | some n ↦ if n == 0 then world.get_tenant_ttl_seconds r.tenant_id else n
  ]

  unfoldable pub expiration : IssuedApiKeyRecord → Time
  unfolding ttl_seconds
  expiration r = elim r.expires_at [
    | none ↦ r.created_at + ttl_seconds r * microseconds
    | some t ↦ t
  ]

  unfoldable pub backfilled : IssuedApiKeyRecord → IssuedApiKeyRecord
  unfolding ttl_seconds expiration
  backfilled r = record r {
    issued_ttl_seconds = some (ttl_seconds r);
    expires_at = some (expiration r);
  }

  -- Whether `_backfill_record_expiration` changes the record.
  unfoldable pub is_updated : IssuedApiKeyRecord → Bool
  unfolding ttl_seconds expiration
  is_updated r =
      not (is_just r.issued_ttl_seconds (ttl_seconds r))
      || not (is_just r.expires_at (expiration r))

  unfoldable pub load_all :
      List IssuedApiKeyRecord
      → List (String × IssuedApiKeyRecord) × Bool
      → List (String × IssuedApiKeyRecord) × Bool
  unfolding backfilled is_updated
  load_all [] loaded = loaded
  load_all (r ∷ rs) loaded =
      let r' = record r { tenant_id = world.canonicalize_tenant_id r.tenant_id } in
      load_all rs (
        put r'.key_id (backfilled r') loaded.0,
        loaded.1 || not (str_eq r.tenant_id r'.tenant_id) || is_updated r',
      )

  unfoldable pub load_records : KeyStore → KeyStore
  unfolding load_all persist_records
  load_records s = elim s.storage [
    | none ↦ s
    | some payload ↦
        let (records, updated) = load_all payload ([], false) in
        if updated
        then persist_records (record s { records = records })
        else record s { records = records }
  ]

  -- The rest of `inspect_issued_api_key`, with the record that was found.
  unfoldable pub inspect_found :
      Time → Option IssuedApiKeyRecord → KeyStore → IssuedApiKeyResolution × KeyStore
  unfolding backfilled is_updated persist_records resolution judge
  inspect_found now none s = (resolution missing none "Invalid API key", s)
  inspect_found now (some found) s =
      let r = backfilled found in
      let written = record s { records = put r.key_id r s.records } in
      judge found.revoked_at (leb (expiration found) now) now r
        (if is_updated found then persist_records written else written)

  -- `inspect_issued_api_key` of the key with the hash: a key that is not cached is loaded first.
  unfoldable pub inspect_issued_api_key :
      Time → String → KeyStore → IssuedApiKeyResolution × KeyStore
  unfolding inspect_found load_records
  inspect_issued_api_key now hash s = elim (find_record_by_hash hash s.records) [
    | some r ↦ inspect_found now (some r) s
    | none ↦
        let loaded = load_records s in
        inspect_found now (find_record_by_hash hash loaded.records) loaded
  ]

  -- `revoke_api_key` of a record that is there and belongs to the tenant.
  unfoldable pub revoke_found : Time → IssuedApiKeyRecord → KeyStore → IssuedApiKeyRecord × KeyStore
  unfolding backfilled is_updated revoke_filled
  revoke_found now found s =
      revoke_filled found.revoked_at (is_updated found) now (backfilled found) s

  unfoldable pub revoke_present :
      Time
      → String
      → Option IssuedApiKeyRecord
      → KeyStore
      → Result AuthError IssuedApiKeyRecord × KeyStore
  unfolding revoke_found
  revoke_present now tenant none s =
      (err (record { status_code = 404; detail = "Issued API key not found" }), s)
  revoke_present now tenant (some r) s =
      if str_eq r.tenant_id tenant
      then (ok (revoke_found now r s).0, (revoke_found now r s).1)
      else (err (record { status_code = 404; detail = "Issued API key not found" }), s)

  unfoldable pub revoke_api_key :
      Time → String → String → KeyStore → Result AuthError IssuedApiKeyRecord × KeyStore
  unfolding revoke_present
  revoke_api_key now tenant_id api_key_id s =
      revoke_present now (world.canonicalize_tenant_id tenant_id) (get api_key_id s.records) s
