-- ===== src/Auth/Accounts/Resets/Once.antt =====
-- A token that has reset a password stays used through later calls of app/services/auth_service.py.
use validador_final.Prelude.{
  String, ◌≡◌, refl, false, List, [], ◌∷◌, Option, none, some, str_eq, arith, Result, ok, err, All,
  Bool-cases, inl, inr,
}
use validador_final.Prelude.Exec.{
  lift, modify, Keeps, Keeps-bind, Keeps-lift, Keeps-gets, Keeps-modify, Keeps-pure, Keeps-raise,
  Anything, Returned,
}
use validador_final.Prelude.Dict.{values}
use validador_final.Job.{Time}
use validador_final.Auth.Operators.{AuthError, EffectiveOperator, StoredOperatorRecord}
use validador_final.Auth.Accounts.{
  Accounts, AccountAction, AccountWorld, AccountEvent, OperatorPasswordResetRecord, resets_kind,
  operators_kind, canonicalize, load_operator_records, store_operator, record_event, Lifetime,
}
use validador_final.Auth.Accounts.Resets.{
  is_pending, invalidate, invalidated, noted, noted_some, find_operator, revoke_each,
  revoke_active_keys_for_operator, load_password_reset_records, store_reset, issue_reset,
  create_operator_password_reset_token, find_password_reset_by_token, complete_for,
  complete_operator_password_reset,
}
use validador_final.Auth.Accounts.Settled.{
  IsFiled, persist-Throughout, keep-Throughout, load-Throughout, find_by_hash-Throughout,
}
use validador_final.Auth.Accounts.Resets.Completed.{
  hash_of_token, IsDead, IsUsedUp, IsResetOf, complete_lem, IsRefused, IsUsedUp-IsRefused,
}

-- The calls on resets: the storage is read again, a token is issued, or one is used.
pub data ResetCall : Type 0 where
  reload : ResetCall
  issue : Time → String → String → String → String → Option Lifetime → Option String → ResetCall
  complete : Time → String → String → ResetCall

module _ (world : AccountWorld) where
  unfoldable pub perform : ResetCall → Accounts → Accounts
  perform reload s = (load_password_reset_records world s).1
  perform (issue now raw reset_id tenant_id operator_id expires_in api_key_id) s =
      (create_operator_password_reset_token world now raw reset_id tenant_id operator_id expires_in
        api_key_id s).1
  perform (complete now token password) s =
      (complete_operator_password_reset world now token password s).1

  unfoldable pub perform_all : List ResetCall → Accounts → Accounts
  unfolding perform
  perform_all [] s = s
  perform_all (c ∷ calls) s = perform_all calls (perform c s)

  -- A new token has another hash.
  abbrev pub IsFresh : String → ResetCall → Type 0
  IsFresh token reload = Unit
  IsFresh token (issue now raw reset_id tenant_id operator_id expires_in api_key_id) =
      str_eq (world.hash_api_key raw) (hash_of_token world token) ≡ false
  IsFresh token (complete now t password) = Unit

  module _ (token : String) where
    abbrev Settles : {A : Type 0} → AccountAction A → Type 0
    Settles m = Keeps (IsUsedUp world token) Anything m

    abbrev Dead : OperatorPasswordResetRecord → Type 0
    Dead = IsDead world (hash_of_token world token)

    checked : {A : Type 0} (r : Result AuthError A) → Returned {E = AuthError} Anything r
    checked (ok a) = tt
    checked (err e) = tt

    lift-Settles : {A : Type 0} (r : Result AuthError A) → Settles (lift r)
    lift-Settles r = Keeps-lift r (checked r)

    record_event-Settles : (event : AccountEvent) → Settles (record_event event)
    unfolding record_event
    record_event-Settles event = Keeps-modify _ (λ s h. h)

    noted-Settles : {A : Type 0} (r : Result (AccountEvent × AuthError) A) → Settles (noted r)
    unfolding noted
    noted-Settles (ok a) = Keeps-pure a tt
    noted-Settles (err (event, e)) =
        Keeps-bind _ _ (record_event-Settles event) (λ a p. Keeps-raise e)

    noted_some-Settles :
        {A : Type 0} (r : Result (Option AccountEvent × AuthError) A) → Settles (noted_some r)
    unfolding noted_some
    noted_some-Settles (ok a) = Keeps-pure a tt
    noted_some-Settles (err (none, e)) = Keeps-raise e
    noted_some-Settles (err (some event, e)) =
        Keeps-bind _ _ (record_event-Settles event) (λ a p. Keeps-raise e)

    store_operator-Settles : (r : StoredOperatorRecord) → Settles (store_operator world r)
    unfolding store_operator
    store_operator-Settles r = Keeps-modify _ (λ s h. h)

    find_operator-Settles :
        (tenant_id operator_id : String) → Settles (find_operator world tenant_id operator_id)
    unfolding find_operator load_operator_records
    find_operator-Settles tenant_id operator_id =
        Keeps-bind _ _ (Keeps-modify _ (λ s h. h)) (λ a p. Keeps-gets _ (λ s h. tt))

    revoke_active_keys_for_operator-Settles :
        (now : Time) (tenant_id operator_id : String)
        → Settles (revoke_active_keys_for_operator world now tenant_id operator_id)
    unfolding revoke_active_keys_for_operator
    revoke_active_keys_for_operator-Settles now tenant_id operator_id = record {
      at = λ s h. (
        h,
        checked
            (revoke_each world now tenant_id operator_id (values s.keys.records) (ok 0, s.keys)).0,
      );
    }

    load_password_reset_records-Settles : Settles (load_password_reset_records world)
    unfolding load_password_reset_records
    load_password_reset_records-Settles =
        Keeps-modify _
          (λ s h. load-Throughout resets_kind Dead (canonicalize world) (λ t v p. p) s.resets h)

    store_reset-Settles : (r : OperatorPasswordResetRecord) → Dead r → Settles (store_reset world r)
    unfolding store_reset
    store_reset-Settles r d =
        Keeps-modify _ (λ s h. keep-Throughout resets_kind Dead r s.resets d h)

    find_password_reset_by_token-Settles :
        (raw : String) → Settles (find_password_reset_by_token world raw)
    unfolding find_password_reset_by_token
    find_password_reset_by_token-Settles raw = record {
      at = λ s h. (
        find_by_hash-Throughout resets_kind Dead (canonicalize world) (λ t v p. p)
            (world.hash_api_key raw) s.resets h,
        tt,
      );
    }

    used_at-Dead :
        (now : Time) (r : OperatorPasswordResetRecord) → Dead (record r { used_at = some now })
    used_at-Dead now r = ground arith

    invalidate-Dead :
        (now : Time) (tenant_id operator_id : String)
        (records : List (String × OperatorPasswordResetRecord))
        → All (λ e. Dead e.1) records
        → All (λ e. Dead e.1) (invalidate now tenant_id operator_id records).0
    unfolding invalidate
    invalidate-Dead now tenant_id operator_id [] h = tt
    invalidate-Dead now tenant_id operator_id ((k, r) ∷ records) h =
        elim (Bool-cases (is_pending now tenant_id operator_id r)) [
          | inl e ↦ rw e (used_at-Dead now r, invalidate-Dead now tenant_id operator_id records h.1)
          | inr e ↦ rw e (h.0, invalidate-Dead now tenant_id operator_id records h.1)
        ]

    invalidated-Settles :
        (now : Time) (tenant_id operator_id : String)
        → Settles (modify (invalidated world now tenant_id operator_id))
    unfolding invalidated
    invalidated-Settles now tenant_id operator_id = Keeps-modify _ (λ s h.
        let after = invalidate now tenant_id operator_id s.resets.records in
        let all = invalidate-Dead now tenant_id operator_id s.resets.records h.0 in
        let resets = record s.resets { records = after.0 } in
        elim (Bool-cases after.1) [
          | inl e ↦ rw e (persist-Throughout resets_kind Dead resets all)
          | inr e ↦ rw e (all, h.1)
        ])

    complete_operator_password_reset-Settles :
        (now : Time) (t password : String)
        → Settles (complete_operator_password_reset world now t password)
    unfolding complete_operator_password_reset complete_for
    complete_operator_password_reset-Settles now t password =
        Keeps-bind _ _ (noted-Settles _) (λ a p.
          Keeps-bind _ _ (find_password_reset_by_token-Settles _) (λ a p.
            Keeps-bind _ _ (noted-Settles _) (λ r p.
              Keeps-bind _ _ (find_operator-Settles _ _) (λ a p.
                Keeps-bind _ _ (noted_some-Settles _) (λ a p.
                  Keeps-bind _ _ (store_operator-Settles _) (λ a p.
                    Keeps-bind _ _ (revoke_active_keys_for_operator-Settles _ _ _) (λ a p.
                      Keeps-bind _ _ (store_reset-Settles _ (used_at-Dead now r)) (λ a p.
                        Keeps-bind _ _ (record_event-Settles _) (λ a p. Keeps-pure _ tt)))))))))

    create_operator_password_reset_token-Settles :
        (now : Time) (raw reset_id tenant_id operator_id : String) (expires_in : Option Lifetime)
        (api_key_id : Option String)
        → str_eq (world.hash_api_key raw) (hash_of_token world token) ≡ false
        → Settles (
            create_operator_password_reset_token world now raw reset_id tenant_id operator_id
              expires_in api_key_id)
    unfolding create_operator_password_reset_token issue_reset
    create_operator_password_reset_token-Settles now raw reset_id tenant_id operator_id expires_in
          api_key_id fresh =
        Keeps-bind _ _ (find_operator-Settles _ _) (λ a p. Keeps-bind _ _ (lift-Settles _) (λ a p.
          Keeps-bind _ _ (lift-Settles _) (λ a p.
            Keeps-bind _ _ load_password_reset_records-Settles (λ a p.
              Keeps-bind _ _ (invalidated-Settles _ _ _) (λ a p.
                Keeps-bind _ _ (store_reset-Settles _ (rw fresh refl))
                  (λ a p. Keeps-bind _ _ (record_event-Settles _) (λ a p. Keeps-pure _ tt)))))))

    perform-IsUsedUp :
        (c : ResetCall) (s : Accounts)
        → IsFresh token c
        → IsUsedUp world token s
        → IsUsedUp world token (perform c s)
    unfolding perform
    perform-IsUsedUp reload s f h = (load_password_reset_records-Settles.at s h).0
    perform-IsUsedUp (issue now raw reset_id tenant_id operator_id expires_in api_key_id) s f h =
        ((create_operator_password_reset_token-Settles now raw reset_id tenant_id operator_id
            expires_in api_key_id f).at
          s h).0
    perform-IsUsedUp (complete now t password) s f h =
        ((complete_operator_password_reset-Settles now t password).at s h).0

    perform_all-IsUsedUp :
        (calls : List ResetCall) (s : Accounts)
        → All (IsFresh token) calls
        → IsUsedUp world token s
        → IsUsedUp world token (perform_all calls s)
    unfolding perform_all
    perform_all-IsUsedUp [] s f h = h
    perform_all-IsUsedUp (c ∷ calls) s f h =
        perform_all-IsUsedUp calls (perform c s) f.1 (perform-IsUsedUp c s f.0 h)

    -- Where the dicts have every reset and every operator once and under its key, and the hash of
    -- the token is that of one reset only, in the dict and in the storage: once the token has
    -- reset a password, it is refused after any later calls that read the storage of resets
    -- again, use tokens or issue new ones of another hash, and the refusal changes neither
    -- operators nor keys.
    pub complete_operator_password_reset-once :
        (now later : Time) (password other reset_id : String) (s : Accounts) (o : EffectiveOperator)
        (calls : List ResetCall)
        → IsFiled resets_kind s.resets.records
        → IsFiled (operators_kind world.directory) s.operators.records
        → IsResetOf world token reset_id s
        → (complete_operator_password_reset world now token password s).0 ≡ ok o
        → All (IsFresh token) calls
        → IsRefused world later token other
            (perform_all calls (complete_operator_password_reset world now token password s).1)
    complete_operator_password_reset-once now later password other reset_id s o calls filed
          operators mine h fresh =
        IsUsedUp-IsRefused world later token other _ (
          perform_all-IsUsedUp calls _ fresh
            (complete_lem world now token password reset_id s o filed operators mine h).0)
