-- ===== src/Auth/Accounts/Resets/Pending.antt =====
-- An operator has at most one pending token to reset its password (app/services/auth_service.py).
use validador_final.Prelude.{
  String, ◌≡◌, refl, sym, ap, ◌∙◌, ◌⊎◌, inl, inr, false, List, [], ◌∷◌, Option, some, arith, ok,
  ok_injective, Bool-cases, All, All-map,
}
use mathlib.Core.Path.{subst}
use validador_final.Prelude.Exec.{◌>>=◌, gets, modify, pure, lift_returns}
use validador_final.Job.{Time}
use validador_final.Auth.Shelves.{keep, load}
use validador_final.Auth.Accounts.{
  Accounts, AccountWorld, OperatorPasswordResetRecord, resets_kind, operators_kind,
  load_operator_records, canonicalize, record_event, Lifetime, lifetime_or,
}
use validador_final.Auth.Accounts.Settled.{persist-records, put-All}
use validador_final.Auth.Accounts.Resets.{
  active_operator, is_pending, invalidate, invalidated, load_password_reset_records, store_reset,
  find_operator, issue_reset, create_operator_password_reset_token,
}

module _ (now : Time) (tenant_id operator_id : String) where
  not_pending :
      (r : OperatorPasswordResetRecord)
      → is_pending now tenant_id operator_id (record r { used_at = some now }) ≡ false
  unfolding is_pending
  not_pending r = ground arith

  invalidate_lem :
      (records : List (String × OperatorPasswordResetRecord))
      → All
          (λ e. is_pending now tenant_id operator_id e.1 ≡ false)
          (invalidate now tenant_id operator_id records).0
  unfolding invalidate
  invalidate_lem [] = tt
  invalidate_lem ((k, r) ∷ records) = elim (Bool-cases (is_pending now tenant_id operator_id r)) [
    | inl e ↦ rw e (not_pending r, invalidate_lem records)
    | inr e ↦ rw e (e, invalidate_lem records)
  ]

-- Each record is no longer pending for the operator of the new record, or is the new one.
abbrev pub IsOnlyPending : Time → OperatorPasswordResetRecord → Accounts → Type 0
IsOnlyPending now issued s =
    All (λ e. (is_pending now issued.tenant_id issued.operator_id e.1 ≡ false) ⊎ (e.1 ≡ issued))
      s.resets.records

invalidated-records :
    (world : AccountWorld) (now : Time) (t o : String) (s : Accounts)
    → (invalidated world now t o s).resets.records ≡ (invalidate now t o s.resets.records).0
unfolding invalidated
invalidated-records world now t o s =
    let after = invalidate now t o s.resets.records in
    elim (Bool-cases after.1) [
      | inl e ↦ rw e (persist-records resets_kind (record s.resets { records = after.0 }))
      | inr e ↦ rw e refl
    ]

issue_reset-IsOnlyPending :
    (world : AccountWorld) (now : Time) (reset : OperatorPasswordResetRecord) (s : Accounts)
    → IsOnlyPending now reset (issue_reset world now reset s).1
unfolding issue_reset load_password_reset_records store_reset record_event keep ◌>>=◌ modify pure
issue_reset-IsOnlyPending world now reset s =
    let loaded = record s { resets = load resets_kind (canonicalize world) s.resets } in
    let rest = invalidated world now reset.tenant_id reset.operator_id loaded in
    let P = λ (r : OperatorPasswordResetRecord).
      (is_pending now reset.tenant_id reset.operator_id r ≡ false) ⊎ (r ≡ reset) in
    subst (All (λ e. P e.1))
      (sym (persist-records resets_kind (keep resets_kind reset rest.resets)))
      (put-All P reset.reset_id reset rest.resets.records (inr refl) (
        subst (All (λ e. P e.1))
          (sym (invalidated-records world now reset.tenant_id reset.operator_id loaded))
          (All-map _ _ (invalidate now reset.tenant_id reset.operator_id loaded.resets.records).0
            (λ e h. inl h)
            (invalidate_lem now reset.tenant_id reset.operator_id loaded.resets.records))))

issue_reset_ok :
    (world : AccountWorld) (now : Time) (reset : OperatorPasswordResetRecord) (s : Accounts)
    → (issue_reset world now reset s).0 ≡ ok reset
unfolding issue_reset load_password_reset_records store_reset record_event ◌>>=◌ modify pure
issue_reset_ok world now reset s = refl

issue_reset_only :
    (world : AccountWorld) (now : Time) (reset : OperatorPasswordResetRecord) (s : Accounts)
    (issued : OperatorPasswordResetRecord)
    → (issue_reset world now reset s).0 ≡ ok issued
    → IsOnlyPending now issued (issue_reset world now reset s).1
issue_reset_only world now reset s issued h =
    subst (λ i. IsOnlyPending now i (issue_reset world now reset s).1)
      (ok_injective (sym (issue_reset_ok world now reset s) ∙ h))
      (issue_reset-IsOnlyPending world now reset s)

-- Where a token for a reset is issued, the operator has no other pending one left: each record of the
-- dict is used, or over, or of another operator, or is the new one.
pub create_operator_password_reset_token-IsOnlyPending :
    (world : AccountWorld) (now : Time) (raw_reset_token reset_id tenant_id operator_id : String)
    (expires_in : Option Lifetime) (api_key_id : Option String) (s : Accounts)
    (issued : OperatorPasswordResetRecord)
    → (create_operator_password_reset_token world now raw_reset_token reset_id tenant_id operator_id
        expires_in api_key_id s).0
      ≡ ok issued
    → IsOnlyPending now issued
        (create_operator_password_reset_token world now raw_reset_token reset_id tenant_id
          operator_id expires_in api_key_id s).1
unfolding create_operator_password_reset_token find_operator load_operator_records ◌>>=◌ gets modify
create_operator_password_reset_token-IsOnlyPending world now raw_reset_token reset_id tenant_id
      operator_id expires_in api_key_id s issued h =
    let operators = load (operators_kind world.directory) (canonicalize world) s.operators in
    let read = record s { operators = operators } in
    let (o, e, q) = lift_returns (active_operator 409 _) _ read issued h in
    let h' = sym (ap (λ x. x.0) q) ∙ h in
    let (ttl, f, r) = lift_returns (lifetime_or _ _ expires_in) _ read issued h' in
    let h'' = sym (ap (λ x. x.0) r) ∙ h' in
    subst (λ x. IsOnlyPending now issued x.1) (sym (q ∙ r))
      (issue_reset_only world now _ read issued h'')
