-- ===== src/Auth/Accounts/Once.antt =====
-- An invitation that is accepted stays used through later calls of app/services/auth_service.py.
use validador_final.Prelude.{
  String, ◌≡◌, refl, false, List, [], ◌∷◌, Option, str_eq, Result, ok, err, All,
}
use validador_final.Prelude.Exec.{
  lift, gets, Keeps, Keeps-bind, Keeps-lift, Keeps-gets, Keeps-modify, Keeps-pure, Anything,
  Returned,
}
use validador_final.Job.{Time}
use validador_final.Auth.Operators.{
  OperatorRole, AuthError, EffectiveOperator, StoredOperatorRecord,
}
use validador_final.Auth.Accounts.{
  Accounts, AccountAction, AccountWorld, AccountEvent, OperatorInvitationRecord, invites_kind,
  canonicalize, load_operator_records, store_operator, record_event, Lifetime,
}
use validador_final.Auth.Accounts.Invitations.{
  find_invitation_by_token, load_invite_records, store_invite, accept_usable,
  accept_operator_invitation, create_operator_invitation,
}
use validador_final.Auth.Accounts.Settled.{
  IsFiled, keep-Throughout, load-Throughout, find_by_hash-Throughout,
}
use validador_final.Auth.Accounts.Spent.{
  hash_of_token, IsDead, IsSpent, IsInvitationOf, accepted-IsDead, accept-IsSpent, IsRefused,
  IsSpent-IsRefused,
}

-- The calls on invitations: the storage is read again, an invitation is accepted, or one is made.
pub data InvitationCall : Type 0 where
  reload : InvitationCall
  accept : Time → String → String → String → InvitationCall
  invite :
      Time
      → String
      → String
      → String
      → String
      → OperatorRole
      → Option Lifetime
      → Option String
      → InvitationCall

module _ (world : AccountWorld) where
  unfoldable pub perform : InvitationCall → Accounts → Accounts
  perform reload s = (load_invite_records world s).1
  perform (accept now operator_id token password) s =
      (accept_operator_invitation world now operator_id token password s).1
  perform (invite now raw invite_id tenant_id username role expires_in api_key_id) s =
      (create_operator_invitation world now raw invite_id tenant_id username role expires_in
        api_key_id s).1

  unfoldable pub perform_all : List InvitationCall → Accounts → Accounts
  unfolding perform
  perform_all [] s = s
  perform_all (c ∷ calls) s = perform_all calls (perform c s)

  -- A new invitation has a token with another hash.
  abbrev pub IsFresh : String → InvitationCall → Type 0
  IsFresh token reload = Unit
  IsFresh token (accept now operator_id t password) = Unit
  IsFresh token (invite now raw invite_id tenant_id username role expires_in api_key_id) =
      str_eq (world.hash_api_key raw) (hash_of_token world token) ≡ false

  module _ (token : String) where
    abbrev Settles : {A : Type 0} → AccountAction A → Type 0
    Settles m = Keeps (IsSpent world token) Anything m

    checked : {A : Type 0} (r : Result AuthError A) → Returned {E = AuthError} Anything r
    checked (ok a) = tt
    checked (err e) = tt

    lift-Settles : {A : Type 0} (r : Result AuthError A) → Settles (lift r)
    lift-Settles r = Keeps-lift r (checked r)

    gets-Settles : {A : Type 0} (f : Accounts → A) → Settles (gets f)
    gets-Settles f = Keeps-gets f (λ s h. tt)

    record_event-Settles : (event : AccountEvent) → Settles (record_event event)
    unfolding record_event
    record_event-Settles event = Keeps-modify _ (λ s h. h)

    load_operator_records-Settles : Settles (load_operator_records world)
    unfolding load_operator_records
    load_operator_records-Settles = Keeps-modify _ (λ s h. h)

    store_operator-Settles : (r : StoredOperatorRecord) → Settles (store_operator world r)
    unfolding store_operator
    store_operator-Settles r = Keeps-modify _ (λ s h. h)

    load_invite_records-Settles : Settles (load_invite_records world)
    unfolding load_invite_records
    load_invite_records-Settles = Keeps-modify _ (λ s h.
        load-Throughout invites_kind (IsDead world (hash_of_token world token)) (canonicalize world)
          (λ t v p. p) s.invites h)

    store_invite-Settles :
        (i : OperatorInvitationRecord)
        → IsDead world (hash_of_token world token) i
        → Settles (store_invite world i)
    unfolding store_invite
    store_invite-Settles i dead = Keeps-modify _ (λ s h.
        keep-Throughout invites_kind (IsDead world (hash_of_token world token)) i s.invites dead h)

    find_invitation_by_token-Settles : (raw : String) → Settles (find_invitation_by_token world raw)
    unfolding find_invitation_by_token
    find_invitation_by_token-Settles raw = record {
      at = λ s h. (
        find_by_hash-Throughout invites_kind (IsDead world (hash_of_token world token))
            (canonicalize world) (λ t v p. p) (world.hash_api_key raw) s.invites h,
        tt,
      );
    }

    accept_usable-Settles :
        (now : Time) (operator_id password : String) (i : OperatorInvitationRecord)
        → Settles (accept_usable world now operator_id password i)
    unfolding accept_usable
    accept_usable-Settles now operator_id password i = Keeps-bind _ _ (lift-Settles _) (λ a p.
        Keeps-bind _ _ load_operator_records-Settles (λ a p.
          Keeps-bind _ _ load_operator_records-Settles (λ a p.
            Keeps-bind _ _ (gets-Settles _) (λ a p. Keeps-bind _ _ (lift-Settles _) (λ a p.
              Keeps-bind _ _ (store_operator-Settles _) (λ a p.
                Keeps-bind _ _
                  (store_invite-Settles _
                    (accepted-IsDead world (hash_of_token world token) operator_id now i))
                  (λ a p. Keeps-bind _ _ (record_event-Settles _) (λ a p. Keeps-pure _ tt))))))))

    accept_operator_invitation-Settles :
        (now : Time) (operator_id t password : String)
        → Settles (accept_operator_invitation world now operator_id t password)
    unfolding accept_operator_invitation
    accept_operator_invitation-Settles now operator_id t password =
        Keeps-bind _ _ (lift-Settles _) (λ a p.
          Keeps-bind _ _ (find_invitation_by_token-Settles _) (λ a p.
            Keeps-bind _ _ (lift-Settles _)
              (λ i p. accept_usable-Settles now operator_id password i)))

    create_operator_invitation-Settles :
        (now : Time) (raw invite_id tenant_id username : String) (role : OperatorRole)
        (expires_in : Option Lifetime) (api_key_id : Option String)
        → str_eq (world.hash_api_key raw) (hash_of_token world token) ≡ false
        → Settles (
            create_operator_invitation world now raw invite_id tenant_id username role expires_in
              api_key_id)
    unfolding create_operator_invitation
    create_operator_invitation-Settles now raw invite_id tenant_id username role expires_in
          api_key_id fresh =
        Keeps-bind _ _ (lift-Settles _) (λ a p. Keeps-bind _ _ load_operator_records-Settles (λ a p.
          Keeps-bind _ _ load_invite_records-Settles (λ a p.
            Keeps-bind _ _ load_operator_records-Settles (λ a p.
              Keeps-bind _ _ (gets-Settles _) (λ a p. Keeps-bind _ _ (lift-Settles _) (λ a p.
                Keeps-bind _ _ (gets-Settles _) (λ a p. Keeps-bind _ _ (lift-Settles _) (λ a p.
                  Keeps-bind _ _ (lift-Settles _) (λ a p.
                    Keeps-bind _ _ (store_invite-Settles _ (rw fresh refl)) (λ a p.
                      Keeps-bind _ _ (record_event-Settles _) (λ a p. Keeps-pure _ tt)))))))))))

    perform-IsSpent :
        (c : InvitationCall) (s : Accounts)
        → IsFresh token c
        → IsSpent world token s
        → IsSpent world token (perform c s)
    unfolding perform
    perform-IsSpent reload s f h = (load_invite_records-Settles.at s h).0
    perform-IsSpent (accept now operator_id t password) s f h =
        ((accept_operator_invitation-Settles now operator_id t password).at s h).0
    perform-IsSpent (invite now raw invite_id tenant_id username role expires_in api_key_id) s f h =
        ((create_operator_invitation-Settles now raw invite_id tenant_id username role expires_in
            api_key_id f).at
          s h).0

    perform_all-IsSpent :
        (calls : List InvitationCall) (s : Accounts)
        → All (IsFresh token) calls
        → IsSpent world token s
        → IsSpent world token (perform_all calls s)
    unfolding perform_all
    perform_all-IsSpent [] s f h = h
    perform_all-IsSpent (c ∷ calls) s f h =
        perform_all-IsSpent calls (perform c s) f.1 (perform-IsSpent c s f.0 h)

    -- Where the dict has every invitation once and under its identifier, and the hash of the
    -- token is that of one invitation only, in the dict and in the storage: once the token has
    -- been accepted, it is refused after any later calls that read the storage again, accept
    -- invitations or make new ones with tokens of another hash, and the refusal changes nothing
    -- but the invitations, in so far as they are read again.
    pub accept_operator_invitation-once :
        (now later : Time) (first_id second_id password other invite_id : String) (s : Accounts)
        (o : EffectiveOperator) (calls : List InvitationCall)
        → IsFiled invites_kind s.invites.records
        → IsInvitationOf world token invite_id s
        → (accept_operator_invitation world now first_id token password s).0 ≡ ok o
        → All (IsFresh token) calls
        → IsRefused world later second_id token other
            (perform_all calls (accept_operator_invitation world now first_id token password s).1)
    accept_operator_invitation-once now later first_id second_id password other invite_id s o calls
          filed mine h fresh =
        IsSpent-IsRefused world later second_id token other _ (
          perform_all-IsSpent calls _ fresh
            (accept-IsSpent world now first_id token password invite_id s o filed mine h))
