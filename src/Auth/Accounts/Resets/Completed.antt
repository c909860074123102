-- ===== src/Auth/Accounts/Resets/Completed.antt =====
-- A token that resets a password serves once, and sets the password (app/services/auth_service.py).
use validador_final.Prelude.{
  String, str_eq, str_eq_refl, arith, Bool, true, ◌&&◌, All, List, any, ◌≡◌, refl, sym, ap, ◌∙◌,
  inl, inr, false, Option, none, some, leb, Result, ok, err, ok_injective, Bool-cases, Result-cases,
}
use mathlib.Core.Path.{subst}
use validador_final.Prelude.Dict.{get, put, values, get-put_self}
use validador_final.Prelude.Exec.{Exec, ◌>>=◌, gets, modify, pure, raise}
use validador_final.Prelude.Text.{strip}
use validador_final.Job.{Time}
use validador_final.Auth.Operators.{
  AuthError, StoredOperatorRecord, EffectiveOperator, operator_from_record,
}
use validador_final.Auth.Shelves.{Shelf, persist, keep, load, find_by_hash}
use validador_final.Auth.Accounts.{
  Accounts, AccountWorld, AccountEvent, OperatorPasswordResetRecord, resets_kind, operators_kind,
  canonicalize, load_operator_records, record_event, store_operator, with_password,
  validate_password_strength,
}
use validador_final.Auth.Accounts.Invitations.{is_unused}
use validador_final.Auth.Accounts.Settled.{
  IsFiled, Throughout, IsTokenOf, persist-records, persist-Throughout, find_by_hash-Throughout,
  find_by_hash-IsFiled, find_by_hash_first, with_hash-Throughout, with_hash-hash, put_settles,
  put_only, keep_stored, load-IsFiled,
}
use validador_final.Auth.Accounts.Resets.{
  checked_use, checked_reset, checked_operator, noted, noted_some, weak_password, find_operator,
  revoke_each, revoke_active_keys_for_operator, store_reset, find_password_reset_by_token,
  complete_for, complete_operator_password_reset,
}

module _ {A B : Type 0} where
  -- A check whose failure is noted, before a rest that returns.
  noted_returns :
      (r : Result (AccountEvent × AuthError) A) (f : A → Exec Accounts AuthError B) (s : Accounts)
      (b : B)
      → ((noted r >>= f) s).0 ≡ ok b
      → (a : A) × (r ≡ ok a) × ((noted r >>= f) s ≡ f a s)
  unfolding noted ◌>>=◌ pure raise record_event modify
  noted_returns (ok a) f s b h = (a, refl, refl)
  noted_returns (err (event, e)) f s b h = cc

  noted_some_returns :
      (r : Result (Option AccountEvent × AuthError) A) (f : A → Exec Accounts AuthError B)
      (s : Accounts) (b : B)
      → ((noted_some r >>= f) s).0 ≡ ok b
      → (a : A) × (r ≡ ok a) × ((noted_some r >>= f) s ≡ f a s)
  unfolding noted_some ◌>>=◌ pure raise record_event modify
  noted_some_returns (ok a) f s b h = (a, refl, refl)
  noted_some_returns (err (none, e)) f s b h = cc
  noted_some_returns (err (some event, e)) f s b h = cc

checked_use_ok :
    (u : Option Time) (now : Time) (j r : OperatorPasswordResetRecord)
    → checked_use u now j ≡ ok r
    → j ≡ r
unfolding checked_use
checked_use_ok (some t) now j r h = cc
checked_use_ok none now j r h = elim (Bool-cases (leb j.expires_at now)) [
  | inl e ↦ let h' = rw e at h in cc
  | inr e ↦ ok_injective (rw e at h)
]

checked_reset_ok :
    (now : Time) (found : Option OperatorPasswordResetRecord) (r : OperatorPasswordResetRecord)
    → checked_reset now found ≡ ok r
    → found ≡ some r
unfolding checked_reset
checked_reset_ok now none r h = cc
checked_reset_ok now (some j) r h = ap some (checked_use_ok j.used_at now j r h)

module _ (world : AccountWorld) where
  -- The operators and the resets after the completion, and the operator that it returns.
  complete_for_ok :
      (now : Time) (password : String) (r : OperatorPasswordResetRecord)
      (operator : EffectiveOperator) (s : Accounts) (o : EffectiveOperator)
      → (complete_for world now password r operator s).0 ≡ ok o
      → ((complete_for world now password r operator s).1.resets
          ≡ persist resets_kind (keep resets_kind (record r { used_at = some now }) s.resets))
        × ((complete_for world now password r operator s).1.operators
            ≡ persist (operators_kind world.directory) (
                keep
                  (operators_kind world.directory)
                  (with_password world operator (world.hash_password password))
                  s.operators))
        × (o
            ≡ operator_from_record
                (with_password world operator (world.hash_password password))
                operator.is_seed)
  unfolding complete_for store_operator revoke_active_keys_for_operator store_reset record_event
      ◌>>=◌ modify pure
  complete_for_ok now password r operator s o h =
      let run =
        revoke_each world now operator.tenant_id operator.operator_id (values s.keys.records)
          (ok 0, s.keys) in
      elim (Result-cases run.0) [
        | inl (n, e) ↦ let h' = rw e at h in (rw e refl, rw e refl, sym (ok_injective h'))
        | inr (d, e) ↦ let h' = rw e at h in cc
      ]

  abbrev pub hash_of_token : String → String
  hash_of_token token = world.hash_api_key (strip token)

  -- The reset has the hash and can still be used.
  abbrev pub live : String → OperatorPasswordResetRecord → Bool
  live hash r = str_eq r.token_hash hash && is_unused r.used_at

  abbrev pub IsDead : String → OperatorPasswordResetRecord → Type 0
  IsDead hash r = live hash r ≡ false

  -- No reset of the token can be used, in the dict and in the storage.
  abbrev pub IsUsedUp : String → Accounts → Type 0
  IsUsedUp token s = Throughout resets_kind (IsDead (hash_of_token token)) s.resets

  -- The token is that of the reset with the identifier, in the dict and in the storage.
  abbrev pub IsResetOf : String → String → Accounts → Type 0
  IsResetOf token reset_id s =
      Throughout resets_kind (IsTokenOf resets_kind (hash_of_token token) reset_id) s.resets

  -- The operator's record with the password's hash
  abbrev is_record_of : EffectiveOperator → String → StoredOperatorRecord → Bool
  is_record_of o password r =
      str_eq r.tenant_id o.tenant_id
      && str_eq r.operator_id o.operator_id
      && str_eq r.password_hash (world.hash_password password)

  -- The operator's record, with the hash of the password and no change of it required: the dict has
  -- it, so has the storage, if there is one, and under its key neither has another.
  pub record HasPassword (o : EffectiveOperator) (password : String) (s : Accounts) : Type 0 where
    pub stored : StoredOperatorRecord
    pub in_dict :
        get ((operators_kind world.directory).key_of stored) s.operators.records ≡ some stored
    pub in_storage :
        (payload : List StoredOperatorRecord)
        → s.operators.stored ≡ some payload
        → any (is_record_of o password) payload ≡ true
    pub only :
        Throughout
          (operators_kind world.directory)
          (λ r.
            (operators_kind world.directory).key_of r
              ≡ (operators_kind world.directory).key_of stored
            → r ≡ stored)
          s.operators
    pub same_tenant : stored.tenant_id ≡ o.tenant_id
    pub same_operator : stored.operator_id ≡ o.operator_id
    pub has_hash : stored.password_hash ≡ world.hash_password password
    pub settled : stored.must_change_password ≡ false

  used_at-IsDead :
      (hash : String) (now : Time) (r : OperatorPasswordResetRecord)
      → IsDead hash (record r { used_at = some now })
  used_at-IsDead hash now r = ground arith

  live_hash :
      (hash : String) (r : OperatorPasswordResetRecord)
      → live hash r ≡ true
      → str_eq r.token_hash hash ≡ true
  live_hash hash r h = ground arith

  -- The operators after a completion with the operator that was found.
  has_password :
      (operator o : EffectiveOperator) (password : String) (shelf : Shelf StoredOperatorRecord)
      (s : Accounts)
      → IsFiled (operators_kind world.directory) shelf.records
      → s.operators
        ≡ persist (operators_kind world.directory) (
            keep
              (operators_kind world.directory)
              (with_password world operator (world.hash_password password))
              shelf)
      → o
        ≡ operator_from_record
            (with_password world operator (world.hash_password password))
            operator.is_seed
      → HasPassword o password s
  unfolding keep with_password operator_from_record
  has_password operator o password shelf s filed operators returned =
      let kind = operators_kind world.directory in
      let stored = with_password world operator (world.hash_password password) in
      let kept = keep kind stored shelf in
      record {
        stored = stored;
        in_dict =
            ap (λ (x : Shelf StoredOperatorRecord). get (kind.key_of stored) x.records) operators
            ∙ ap (get (kind.key_of stored)) (persist-records kind kept)
            ∙ get-put_self (kind.key_of stored) stored shelf.records;
        in_storage = λ payload e.
            keep_stored kind (is_record_of o password) stored shelf payload (is_it returned)
              (sym (ap (λ (x : Shelf StoredOperatorRecord). x.stored) operators) ∙ e);
        only =
            subst (Throughout kind (λ r. kind.key_of r ≡ kind.key_of stored → r ≡ stored))
              (sym operators)
              (persist-Throughout kind (λ r. kind.key_of r ≡ kind.key_of stored → r ≡ stored) kept
                (put_only kind stored shelf.records filed));
        same_tenant = ap (λ (x : EffectiveOperator). x.tenant_id) (sym returned);
        same_operator = ap (λ (x : EffectiveOperator). x.operator_id) (sym returned);
        has_hash = refl;
        settled = refl;
      }
    where
      is_it :
          o
            ≡ operator_from_record
                (with_password world operator (world.hash_password password))
                operator.is_seed
          → is_record_of o password (with_password world operator (world.hash_password password))
            ≡ true
      is_it returned =
          rw
            (
              ap (λ (x : EffectiveOperator). x.tenant_id) returned,
              ap (λ (x : EffectiveOperator). x.operator_id) returned,
              str_eq_refl operator.tenant_id,
              str_eq_refl operator.operator_id,
              str_eq_refl (world.hash_password password),
            )
            refl

  pub complete_lem :
      (now : Time) (token password reset_id : String) (s : Accounts) (o : EffectiveOperator)
      → IsFiled resets_kind s.resets.records
      → IsFiled (operators_kind world.directory) s.operators.records
      → IsResetOf token reset_id s
      → (complete_operator_password_reset world now token password s).0 ≡ ok o
      → IsUsedUp token (complete_operator_password_reset world now token password s).1
        × HasPassword o password (complete_operator_password_reset world now token password s).1
  unfolding complete_operator_password_reset find_password_reset_by_token find_operator
      load_operator_records ◌>>=◌ gets modify keep
  complete_lem now token password reset_id s o filed filed_operators mine h =
      let hash = hash_of_token token in
      let search = find_by_hash resets_kind (canonicalize world) hash s.resets in
      let searched = record s { resets = search.1 } in
      let operators_read = load (operators_kind world.directory) (canonicalize world) s.operators in
      let after = record searched { operators = operators_read } in
      let kept = find_by_hash-IsFiled resets_kind (canonicalize world) hash s.resets filed in
      let first = find_by_hash_first resets_kind (canonicalize world) hash s.resets in
      let tokens =
        find_by_hash-Throughout resets_kind (IsTokenOf resets_kind hash reset_id)
          (canonicalize world) (λ t v p. p) hash s.resets mine in
      let (a, e, q) =
        noted_returns (weak_password (validate_password_strength world password)) _ s o h in
      let h1 = sym (ap (λ x. x.0) q) ∙ h in
      let (r, f, q1) = noted_returns (checked_reset now search.0) _ searched o h1 in
      let h2 = sym (ap (λ x. x.0) q1) ∙ h1 in
      let (operator, g, q2) = noted_some_returns (checked_operator r _) _ after o h2 in
      let h3 = sym (ap (λ x. x.0) q2) ∙ h2 in
      let (resets, operators, returned) = complete_for_ok now password r operator after o h3 in
      let found = first ∙ checked_reset_ok now search.0 r f in
      let used = record r { used_at = some now } in
      let named =
        with_hash-Throughout resets_kind (IsTokenOf resets_kind hash reset_id) hash r
          search.1.records tokens.0 found
          (with_hash-hash resets_kind hash r search.1.records found) in
      let run = q ∙ q1 ∙ q2 in
      (
        subst (λ x. IsUsedUp token x.1) (sym run)
            (subst (Throughout resets_kind (IsDead hash)) (sym resets) (
              persist-Throughout resets_kind (IsDead hash) (keep resets_kind used search.1) (
                subst (λ k. All (λ e. IsDead hash e.1) (put k used search.1.records)) (sym named)
                  (put_settles resets_kind hash reset_id (live hash) (live_hash hash) used
                    search.1.records kept tokens.0 (used_at-IsDead hash now r))))),
        subst (λ x. HasPassword o password x.1) (sym run)
            (has_password operator o password operators_read _
              (load-IsFiled (operators_kind world.directory) (canonicalize world) s.operators
                filed_operators)
              operators returned),
      )

  use_refused :
      (u : Option Time) (now : Time) (r : OperatorPasswordResetRecord)
      → is_unused u ≡ false
      → (event : AccountEvent) × (e : AuthError) × (checked_use u now r ≡ err (event, e))
  unfolding checked_use
  use_refused (some t) now r h = (_, _, refl)
  use_refused none now r h = cc

  reset_refused :
      (hash : String) (now : Time) (found : Option OperatorPasswordResetRecord)
      → ((r : OperatorPasswordResetRecord)
          → found ≡ some r
          → (str_eq r.token_hash hash ≡ true) × IsDead hash r)
      → (event : AccountEvent) × (e : AuthError) × (checked_reset now found ≡ err (event, e))
  unfolding checked_reset
  reset_refused hash now none dead = (_, _, refl)
  reset_refused hash now (some r) dead =
      let (same, spent) = dead r refl in use_refused r.used_at now r (ground arith)

  -- The token is refused, and neither operators nor keys change.
  abbrev pub IsRefused : Time → String → String → Accounts → Type 0
  IsRefused now token password s =
      (e : AuthError) × ((complete_operator_password_reset world now token password s).0 ≡ err e)
      × ((complete_operator_password_reset world now token password s).1.operators ≡ s.operators)
      × ((complete_operator_password_reset world now token password s).1.keys ≡ s.keys)

  pub IsUsedUp-IsRefused :
      (now : Time) (token password : String) (s : Accounts)
      → IsUsedUp token s
      → IsRefused now token password s
  unfolding complete_operator_password_reset find_password_reset_by_token noted weak_password
      record_event ◌>>=◌ modify pure raise
  IsUsedUp-IsRefused now token password s spent =
      let hash = hash_of_token token in
      let search = find_by_hash resets_kind (canonicalize world) hash s.resets in
      let first = find_by_hash_first resets_kind (canonicalize world) hash s.resets in
      let dead =
        find_by_hash-Throughout resets_kind (IsDead hash) (canonicalize world) (λ t v p. p) hash
          s.resets spent in
      let (event, d, refusal) = reset_refused hash now search.0 (λ r found. (
        with_hash-hash resets_kind hash r search.1.records (first ∙ found),
        with_hash-Throughout resets_kind (IsDead hash) hash r search.1.records dead.0
            (first ∙ found),
      )) in
      elim (Result-cases (validate_password_strength world password)) [
        | inr (e, f) ↦ (e, rw f refl, rw f refl, rw f refl)
        | inl (u, f) ↦ (d, rw (f, refusal) refl, rw (f, refusal) refl, rw (f, refusal) refl)
      ]
