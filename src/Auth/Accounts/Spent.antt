-- ===== src/Auth/Accounts/Spent.antt =====
-- An invitation of app/services/auth_service.py makes one operator at most.
use validador_final.Prelude.{
  String, ◌≡◌, refl, sym, ap, ◌∙◌, inl, inr, Bool, true, false, ◌&&◌, Option, none, some, str_eq,
  arith, ok, err, ok_injective, Bool-cases, Result-cases, All, leb,
}
use mathlib.Core.Path.{subst}
use validador_final.Prelude.Dict.{put}
use validador_final.Prelude.Exec.{◌>>=◌, gets, modify, lift_returns}
use validador_final.Prelude.Text.{strip}
use validador_final.Job.{Time}
use validador_final.Auth.Operators.{AuthError, EffectiveOperator, load_tenant_for_login}
use validador_final.Auth.Shelves.{Shelf, persist, keep, find_by_hash}
use validador_final.Auth.Accounts.{
  auth_error, Accounts, AccountWorld, OperatorInvitationRecord, invites_kind, canonicalize,
  validate_password_strength, load_operator_records, store_operator, is_free, record_event,
}
use validador_final.Auth.Accounts.Invitations.{
  is_unused, unexpired, usable, accepted, find_invitation_by_token, store_invite, accept_usable,
  accept_operator_invitation,
}
use validador_final.Auth.Accounts.Settled.{
  IsFiled, Throughout, IsTokenOf, persist-Throughout, find_by_hash-Throughout, find_by_hash-IsFiled,
  find_by_hash_first, with_hash-Throughout, with_hash-hash, put_settles,
}

unexpired_ok :
    (u : Option Time) (now : Time) (j i : OperatorInvitationRecord)
    → unexpired u now j ≡ ok i
    → j ≡ i
unfolding unexpired
unexpired_ok (some t) now j i h = cc
unexpired_ok none now j i h = elim (Bool-cases (leb j.expires_at now)) [
  | inl e ↦ let h' = rw e at h in cc
  | inr e ↦ ok_injective (rw e at h)
]

unexpired_used :
    (u : Option Time) (now : Time) (i : OperatorInvitationRecord)
    → is_unused u ≡ false
    → unexpired u now i ≡ err (auth_error 409 "Invitation token already used")
unfolding unexpired
unexpired_used (some t) now i h = refl
unexpired_used none now i h = cc

module _ (world : AccountWorld) where
  accept_usable-invites :
      (now : Time) (operator_id password : String) (i : OperatorInvitationRecord) (s : Accounts)
      (o : EffectiveOperator)
      → (accept_usable world now operator_id password i s).0 ≡ ok o
      → (accept_usable world now operator_id password i s).1.invites
        ≡ persist invites_kind (keep invites_kind (accepted now operator_id i) s.invites)
  unfolding accept_usable load_operator_records store_operator store_invite record_event ◌>>=◌ gets
      modify
  accept_usable-invites now operator_id password i s o h =
      let (a, e, q) = lift_returns (load_tenant_for_login world.directory _) _ s o h in
      let (b, f, r) = lift_returns (is_free world _) _ _ o (sym (ap (λ x. x.0) q) ∙ h) in
      ap (λ x. x.1.invites) q ∙ ap (λ x. x.1.invites) r

  abbrev pub hash_of_token : String → String
  hash_of_token token = world.hash_api_key (strip token)

  -- The invitation has the hash and can still be used.
  abbrev pub live : String → OperatorInvitationRecord → Bool
  live hash i = str_eq i.token_hash hash && is_unused i.used_at

  abbrev pub IsDead : String → OperatorInvitationRecord → Type 0
  IsDead hash i = live hash i ≡ false

  -- No invitation of the token can be used, in the dict and in the storage.
  abbrev pub IsSpent : String → Accounts → Type 0
  IsSpent token s = Throughout invites_kind (IsDead (hash_of_token token)) s.invites

  -- The token is that of the invitation with the identifier, in the dict and in the storage.
  abbrev pub IsInvitationOf : String → String → Accounts → Type 0
  IsInvitationOf token invite_id s =
      Throughout invites_kind (IsTokenOf invites_kind (hash_of_token token) invite_id) s.invites

  usable_ok :
      (now : Time) (found : Option OperatorInvitationRecord) (i : OperatorInvitationRecord)
      → usable now found ≡ ok i
      → found ≡ some i
  unfolding usable
  usable_ok now none i h = cc
  usable_ok now (some j) i h = ap some (unexpired_ok j.used_at now j i h)

  pub accepted-IsDead :
      (hash operator_id : String) (now : Time) (i : OperatorInvitationRecord)
      → IsDead hash (accepted now operator_id i)
  unfolding accepted
  accepted-IsDead hash operator_id now i = ground arith

  live_hash :
      (hash : String) (i : OperatorInvitationRecord)
      → live hash i ≡ true
      → str_eq i.token_hash hash ≡ true
  live_hash hash i h = ground arith

  pub accept-IsSpent :
      (now : Time) (operator_id token password invite_id : String) (s : Accounts)
      (o : EffectiveOperator)
      → IsFiled invites_kind s.invites.records
      → IsInvitationOf token invite_id s
      → (accept_operator_invitation world now operator_id token password s).0 ≡ ok o
      → IsSpent token (accept_operator_invitation world now operator_id token password s).1
  unfolding accept_operator_invitation find_invitation_by_token ◌>>=◌ keep accepted
  accept-IsSpent now operator_id token password invite_id s o filed mine h =
      let hash = hash_of_token token in
      let search = find_by_hash invites_kind (canonicalize world) hash s.invites in
      let after = record s { invites = search.1 } in
      let kept = find_by_hash-IsFiled invites_kind (canonicalize world) hash s.invites filed in
      let first = find_by_hash_first invites_kind (canonicalize world) hash s.invites in
      let tokens =
        find_by_hash-Throughout invites_kind (IsTokenOf invites_kind hash invite_id)
          (canonicalize world) (λ t v p. p) hash s.invites mine in
      let (a, e, q) = lift_returns (validate_password_strength world password) _ s o h in
      let h' = sym (ap (λ x. x.0) q) ∙ h in
      let (i, f, r) = lift_returns (usable now search.0) _ after o h' in
      let found = first ∙ usable_ok now search.0 i f in
      let named =
        with_hash-Throughout invites_kind (IsTokenOf invites_kind hash invite_id) hash i
          search.1.records tokens.0 found
          (with_hash-hash invites_kind hash i search.1.records found) in
      let w = accepted now operator_id i in
      let stored =
        accept_usable-invites now operator_id password i after o (sym (ap (λ x. x.0) r) ∙ h') in
      subst (λ x. IsSpent token x.1) (sym (q ∙ r))
        (subst (Throughout invites_kind (IsDead hash)) (sym stored) (
          persist-Throughout invites_kind (IsDead hash) (keep invites_kind w search.1) (
            subst (λ k. All (λ e. IsDead hash e.1) (put k w search.1.records)) (sym named)
              (put_settles invites_kind hash invite_id (live hash) (live_hash hash) w
                search.1.records kept tokens.0 (accepted-IsDead hash operator_id now i)))))

  unexpired_refused :
      (hash : String) (now : Time) (i : OperatorInvitationRecord)
      → str_eq i.token_hash hash ≡ true
      → IsDead hash i
      → unexpired i.used_at now i ≡ err (auth_error 409 "Invitation token already used")
  unexpired_refused hash now i same dead = unexpired_used i.used_at now i (ground arith)

  usable_refused :
      (hash : String) (now : Time) (found : Option OperatorInvitationRecord)
      → ((i : OperatorInvitationRecord)
          → found ≡ some i
          → (str_eq i.token_hash hash ≡ true) × IsDead hash i)
      → (e : AuthError) × (usable now found ≡ err e)
  unfolding usable
  usable_refused hash now none dead = (auth_error 404 "Invitation token not found", refl)
  usable_refused hash now (some i) dead =
      (_, unexpired_refused hash now i (dead i refl).0 (dead i refl).1)

  -- The token is refused, and nothing but the invitations, which may be read again, changes.
  abbrev pub IsRefused : Time → String → String → String → Accounts → Type 0
  IsRefused now operator_id token password s =
      (e : AuthError) × (invites : Shelf OperatorInvitationRecord) × (accept_operator_invitation
          world now operator_id token password s
        ≡ (err e, record s { invites = invites }))

  pub IsSpent-IsRefused :
      (now : Time) (operator_id token password : String) (s : Accounts)
      → IsSpent token s
      → IsRefused now operator_id token password s
  unfolding accept_operator_invitation find_invitation_by_token ◌>>=◌
  IsSpent-IsRefused now operator_id token password s spent =
      let hash = hash_of_token token in
      let search = find_by_hash invites_kind (canonicalize world) hash s.invites in
      let first = find_by_hash_first invites_kind (canonicalize world) hash s.invites in
      let dead =
        find_by_hash-Throughout invites_kind (IsDead hash) (canonicalize world) (λ t v p. p) hash
          s.invites spent in
      let (e, refusal) = usable_refused hash now search.0 (λ i found. (
        with_hash-hash invites_kind hash i search.1.records (first ∙ found),
        with_hash-Throughout invites_kind (IsDead hash) hash i search.1.records dead.0
            (first ∙ found),
      )) in
      elim (Result-cases (validate_password_strength world password)) [
        | inr (d, f) ↦ (d, s.invites, rw f refl)
        | inl (u, f) ↦ (e, search.1, rw (f, refusal) refl)
      ]
