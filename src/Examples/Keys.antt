-- ===== src/Examples/Keys.antt =====
-- An issued API key, accepted and then revoked.
use validador_final.Prelude.{refl, [], ◌∷◌, none, some}
use validador_final.Prelude.Dict.{get}
use validador_final.Prelude.Sorting.{sort_by}
use validador_final.Auth.Operators.{operator}
use validador_final.Auth.Keys.{
  IssuedApiKeyRecord, KeyStore, KeyWorld, resolved_key, inspect_issued_api_key, find_record_by_hash,
  inspect_found, judge, resolution, expiration, backfilled, revoke_api_key, revoke_present,
  revoke_found, revoke_filled, ttl_seconds,
}
use validador_final.Auth.Keys.Validity.{
  IsAccepted, inspect_issued_api_key-IsAccepted, IsRevokedIn, revoke_api_key-IsRevokedIn,
}

abbrev key : IssuedApiKeyRecord
key = record {
  key_id = "issued-1";
  tenant_id = "acme";
  operator_id = "ana";
  username = "ana";
  role = operator;
  key_hash = "hash";
  created_at = 0;
  issued_ttl_seconds = some 60;
  expires_at = some 60_000_000;
  revoked_at = none;
  expired_at = none;
}

abbrev keys : KeyStore
keys = record { records = ("issued-1", key) ∷ []; storage = none; audit = [] }

abbrev tenants : KeyWorld
tenants = record { canonicalize_tenant_id = λ t. t; get_tenant_ttl_seconds = λ t. 60 }

inspect_issued_api_key-IsAccepted_example :
    (k : IssuedApiKeyRecord) × IsAccepted 5 "hash"
      (resolved_key key)
      (inspect_issued_api_key tenants 5 "hash" keys).1
      k
unfolding inspect_issued_api_key find_record_by_hash inspect_found judge resolution expiration
    resolved_key backfilled
inspect_issued_api_key-IsAccepted_example =
    inspect_issued_api_key-IsAccepted tenants 5 "hash" keys (resolved_key key) refl

abbrev withdrawn : IssuedApiKeyRecord
withdrawn = record key { revoked_at = some 7 }

abbrev stored_keys : KeyStore
stored_keys = record keys { storage = some (key ∷ []) }

revoke_api_key-IsRevokedIn_example :
    IsRevokedIn "acme" "issued-1"
      (revoke_api_key tenants 7 "acme" "issued-1" stored_keys).1
      withdrawn
unfolding revoke_api_key revoke_present revoke_found revoke_filled backfilled ttl_seconds expiration
    get sort_by
revoke_api_key-IsRevokedIn_example =
    revoke_api_key-IsRevokedIn tenants 7 "acme" "issued-1" stored_keys withdrawn (refl, tt) refl
      refl
