-- ===== src/Auth/Keys/Validity.antt =====
-- Which API keys app/services/auth_service.py accepts, and what a revocation leaves.
use validador_final.Prelude.{
  ℕ, All, ◌<◌, ◌≡◌, refl, sym, ap, ◌∙◌, Bool, true, false, List, [], ◌∷◌, Option, none, some,
  if◌then◌else◌, String, str_eq, str_eq_iff, arith, Bool-cases, Option-cases, inl, inr, leb, ok,
  ok_injective,
}
use mathlib.Core.Path.{subst}
use validador_final.Prelude.Dict.{get, put, values, get-put_self, put_same}
use validador_final.Prelude.Sorting.{sort_by}
use validador_final.Job.{Time}
use validador_final.Auth.Keys.{
  IssuedApiKeyRecord, ResolvedApiKey, KeyStore, KeyWorld, persist_records, find_record_by_hash,
  resolution, expiration, ttl_seconds, is_just, backfilled, is_updated, load_records, judge,
  resolved_key, inspect_found, inspect_issued_api_key, revoke_filled, revoke_present, revoke_found,
  revoke_api_key,
}

-- The resolved key stands for the record `k` of the store: it has the hash, is not revoked, expires
-- after the time, and speaks for the record's tenant, operator and role.
pub record IsAccepted (now : Time) (hash : String) (r : ResolvedApiKey) (s : KeyStore)
    (k : IssuedApiKeyRecord) : Type 0 where
  pub stored : get r.api_key_id s.records ≡ some k
  pub has_hash : k.key_hash ≡ hash
  pub not_revoked : k.revoked_at ≡ none
  pub expiry : Time
  pub expires : k.expires_at ≡ some expiry
  pub in_time : now < expiry
  pub same_tenant : r.tenant_id ≡ k.tenant_id
  pub same_operator : r.operator_id ≡ some k.operator_id
  pub same_role : r.role ≡ some k.role

find_record_by_hash_lem :
    (hash : String) (records : List (String × IssuedApiKeyRecord)) (k : IssuedApiKeyRecord)
    → find_record_by_hash hash records ≡ some k
    → k.key_hash ≡ hash
unfolding find_record_by_hash
find_record_by_hash_lem hash [] k h = cc
find_record_by_hash_lem hash ((i, r) ∷ records) k h =
    ground (arith, str_eq_iff r.key_hash hash, find_record_by_hash_lem hash records k)

-- Writing the storage changes no record.
persist_same : (s : KeyStore) → (persist_records s).records ≡ s.records
unfolding persist_records
persist_same s = elim (Option-cases s.storage) [ inl e ↦ rw e refl | inr (old, e) ↦ rw e refl ]

persist_if : (b : Bool) (s : KeyStore) → (if b then persist_records s else s).records ≡ s.records
persist_if true s = persist_same s
persist_if false s = refl

judge-resolved :
    (v : Option Time) (late : Bool) (now : Time) (k : IssuedApiKeyRecord) (s : KeyStore)
    (r : ResolvedApiKey)
    → (judge v late now k s).0.resolved_api_key ≡ some r
    → (v ≡ none) × (late ≡ false) × (r ≡ resolved_key k) × ((judge v late now k s).1 ≡ s)
unfolding judge resolution
judge-resolved (some t) late now k s r e = cc
judge-resolved none true now k s r e = cc
judge-resolved none false now k s r e = (refl, refl, cc, refl)

module _ (world : KeyWorld) (now : Time) (hash : String) where
  inspect_found-IsAccepted :
      (found : Option IssuedApiKeyRecord) (s : KeyStore) (r : ResolvedApiKey)
      → ((k : IssuedApiKeyRecord) → found ≡ some k → k.key_hash ≡ hash)
      → (inspect_found world now found s).0.resolved_api_key ≡ some r
      → (k : IssuedApiKeyRecord) × IsAccepted now hash r (inspect_found world now found s).1 k
  unfolding inspect_found resolution backfilled resolved_key
  inspect_found-IsAccepted none s r f e = cc
  inspect_found-IsAccepted (some found) s r f e =
      let k = backfilled world found in
      let written = record s { records = put k.key_id k s.records } in
      let after = if is_updated world found then persist_records written else written in
      let (v, late, key, same) =
        judge-resolved found.revoked_at (leb (expiration world found) now) now k after r e in
      (
        k,
        subst (λ t. IsAccepted now hash r t k) (sym same)
            (subst (λ x. IsAccepted now hash x after k) (sym key)
              (record {
                stored =
                    ap (λ records. get k.key_id records)
                      (persist_if (is_updated world found) written)
                    ∙ get-put_self k.key_id k s.records;
                has_hash = f found refl;
                not_revoked = v;
                expiry = expiration world found;
                expires = refl;
                in_time = ground arith;
                same_tenant = refl;
                same_operator = refl;
                same_role = refl;
              })),
      )

  -- Where a key is resolved, the store has a record with its hash that is not revoked and expires
  -- later, and the answer speaks for that record's tenant, operator and role.
  pub inspect_issued_api_key-IsAccepted :
      (s : KeyStore) (r : ResolvedApiKey)
      → (inspect_issued_api_key world now hash s).0.resolved_api_key ≡ some r
      → (k : IssuedApiKeyRecord) × IsAccepted now hash r
          (inspect_issued_api_key world now hash s).1
          k
  unfolding inspect_issued_api_key
  inspect_issued_api_key-IsAccepted s r e =
      elim (Option-cases (find_record_by_hash hash s.records)) [
        | inl f ↦
            let loaded = load_records world s in
            rw (inspect_issued_api_key, f)
              (inspect_found-IsAccepted (find_record_by_hash hash loaded.records) loaded r
                (find_record_by_hash_lem hash loaded.records) (rw (inspect_issued_api_key, f) at e))
        | inr (k, f) ↦
            rw (inspect_issued_api_key, f)
              (inspect_found-IsAccepted (some k) s r
                (λ k' h. find_record_by_hash_lem hash s.records k' (f ∙ h))
                (rw (inspect_issued_api_key, f) at e))
      ]

-- The storage, where there is one, holds the records of the dict in the order of their creation.
abbrev IsStored : List (String × IssuedApiKeyRecord) → Option (List IssuedApiKeyRecord) → Type 0
IsStored records none = Unit
IsStored records (some payload) =
    payload ≡ sort_by (λ a b. leb a.created_at b.created_at) (values records)

abbrev pub IsInStep : KeyStore → Type 0
IsInStep s = IsStored s.records s.storage

-- Each record stands under its identifier.
abbrev pub IsFiled : KeyStore → Type 0
IsFiled s = All (λ e. e.0 ≡ e.1.key_id) s.records

persist_records-IsInStep : (s : KeyStore) → IsInStep (persist_records s)
unfolding persist_records
persist_records-IsInStep s = elim (Option-cases s.storage) [
  | inl e ↦ rw (persist_records, e) (subst (IsStored s.records) (sym e) tt)
  | inr (old, e) ↦ rw (persist_records, e) refl
]

get_filed :
    (key : String) (records : List (String × IssuedApiKeyRecord)) (k : IssuedApiKeyRecord)
    → All (λ e. e.0 ≡ e.1.key_id) records
    → get key records ≡ some k
    → k.key_id ≡ key
unfolding get
get_filed key [] k f h = cc
get_filed key ((i, r) ∷ records) k f h = elim (Bool-cases (str_eq i key)) [
  | inl e ↦ let h' = rw e at h in let i' = (str_eq_iff i key).0 e in let f' = f.0 in cc
  | inr e ↦ get_filed key records k f.1 (rw e at h)
]

is_just_lem : (o : Option ℕ) (n : ℕ) → is_just o n ≡ true → o ≡ some n
is_just_lem none n h = cc
is_just_lem (some m) n h = ap some (ground arith)

backfilled_same :
    (world : KeyWorld) (k : IssuedApiKeyRecord)
    → is_updated world k ≡ false
    → backfilled world k ≡ k
unfolding is_updated backfilled
backfilled_same world k h =
    let ttl = is_just_lem k.issued_ttl_seconds (ttl_seconds world k) (ground arith) in
    let end = is_just_lem k.expires_at (expiration world k) (ground arith) in
    ap (λ a. record k { issued_ttl_seconds = a; expires_at = some (expiration world k) }) (sym ttl)
    ∙ ap (λ b. record k { expires_at = b }) (sym end)

-- The record has the identifier, belongs to the tenant and is revoked; the store holds it under the
-- identifier, and the storage is in step with the dict.
pub record IsRevokedIn (tenant key : String) (s : KeyStore) (r : IssuedApiKeyRecord) : Type 0 where
  pub time : Time
  pub revoked_at : r.revoked_at ≡ some time
  pub same_key : r.key_id ≡ key
  pub stored : get key s.records ≡ some r
  pub same_tenant : r.tenant_id ≡ tenant
  pub in_step : IsInStep s

-- The record that is written, and the storage after that.
persist_if-IsInStep :
    (updated : Bool) (r : IssuedApiKeyRecord) (s : KeyStore)
    → IsInStep s
    → (updated ≡ false → put r.key_id r s.records ≡ s.records)
    → IsInStep (
        if updated
        then persist_records (record s { records = put r.key_id r s.records })
        else record s { records = put r.key_id r s.records })
persist_if-IsInStep true r s h same =
    persist_records-IsInStep (record s { records = put r.key_id r s.records })
persist_if-IsInStep false r s h same =
    subst (λ records. IsStored records s.storage) (sym (same refl)) h

revoke_filled-IsRevokedIn :
    (v : Option Time) (updated : Bool) (now : Time) (r : IssuedApiKeyRecord) (s : KeyStore)
    → r.revoked_at ≡ v
    → IsInStep s
    → (updated ≡ false → put r.key_id r s.records ≡ s.records)
    → IsRevokedIn r.tenant_id r.key_id
        (revoke_filled v updated now r s).1
        (revoke_filled v updated now r s).0
unfolding revoke_filled
revoke_filled-IsRevokedIn (some t) updated now r s e h same =
    let written = record s { records = put r.key_id r s.records } in
    record {
      time = t;
      revoked_at = e;
      same_key = refl;
      stored =
          ap (λ records. get r.key_id records) (persist_if updated written)
          ∙ get-put_self r.key_id r s.records;
      same_tenant = refl;
      in_step = persist_if-IsInStep updated r s h same;
    }
revoke_filled-IsRevokedIn none updated now filled s e h same =
    let r = record filled { revoked_at = some now } in
    record {
      time = now;
      revoked_at = refl;
      same_key = refl;
      stored =
          ap (λ records. get r.key_id records)
            (persist_same (record s { records = put r.key_id r s.records }))
          ∙ get-put_self r.key_id r s.records;
      same_tenant = refl;
      in_step = persist_records-IsInStep (record s { records = put r.key_id r s.records });
    }

module _ (world : KeyWorld) (now : Time) where
  revoke_present-IsRevokedIn :
      (tenant key : String) (k : IssuedApiKeyRecord) (s : KeyStore) (r : IssuedApiKeyRecord)
      → get key s.records ≡ some k
      → k.key_id ≡ key
      → IsInStep s
      → (revoke_present world now tenant (some k) s).0 ≡ ok r
      → IsRevokedIn tenant key (revoke_present world now tenant (some k) s).1 r
  unfolding revoke_present revoke_found backfilled
  revoke_present-IsRevokedIn tenant key k s r got named step e =
      let kept = λ (u : is_updated world k ≡ false).
        ap (λ x. put k.key_id x s.records) (backfilled_same world k u)
        ∙ put_same k.key_id k s.records (ap (λ x. get x s.records) named ∙ got) in
      let done =
        revoke_filled-IsRevokedIn k.revoked_at (is_updated world k) now (backfilled world k) s refl
          step kept in
      elim (Bool-cases (str_eq k.tenant_id tenant)) [
        | inr t ↦ let e' = rw t at e in cc
        | inl t ↦
            let same = ok_injective (rw t at e) in
            rw t (
              subst (λ x. IsRevokedIn tenant key (revoke_found world now k s).1 x) same
                (subst
                  (λ x.
                    IsRevokedIn tenant x (revoke_found world now k s).1
                      (revoke_found world now k s).0)
                  named
                  (subst
                    (λ x.
                      IsRevokedIn x k.key_id (revoke_found world now k s).1
                        (revoke_found world now k s).0)
                    ((str_eq_iff k.tenant_id tenant).0 t) done)))
      ]

  -- Where each record of the dict stands under its identifier and the storage, if there is one,
  -- holds the records of the dict in the order of their creation: a revocation that returns gives
  -- a record with the identifier asked for and of the tenant, which is revoked; the dict holds
  -- that record under the identifier, and the storage again holds the records of the dict.
  pub revoke_api_key-IsRevokedIn :
      (tenant_id api_key_id : String) (s : KeyStore) (r : IssuedApiKeyRecord)
      → IsFiled s
      → IsInStep s
      → (revoke_api_key world now tenant_id api_key_id s).0 ≡ ok r
      → IsRevokedIn
          (world.canonicalize_tenant_id tenant_id)
          api_key_id
          (revoke_api_key world now tenant_id api_key_id s).1
          r
  unfolding revoke_api_key revoke_present
  revoke_api_key-IsRevokedIn tenant_id api_key_id s r filed step e =
      let tenant = world.canonicalize_tenant_id tenant_id in
      elim (Option-cases (get api_key_id s.records)) [
        | inl f ↦ let e' = rw (revoke_api_key, f) at e in cc
        | inr (k, f) ↦
            rw (revoke_api_key, f)
              (revoke_present-IsRevokedIn tenant api_key_id k s r f
                (get_filed api_key_id s.records k filed f) step (rw (revoke_api_key, f) at e))
      ]
