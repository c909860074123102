-- ===== src/Examples/Tokens.antt =====
-- An invitation that is accepted, and a password that is reset.
use validador_final.Prelude.{some, List, refl, [], ◌∷◌, none, true, false, ok}
use validador_final.Prelude.Dict.{put}
use validador_final.Prelude.Exec.{◌>>=◌}
use validador_final.Prelude.Sorting.{sort_by}
use validador_final.Prelude.Text.{strip, strip_start, strip_end, text_length}
use validador_final.Auth.Operators.{
  StoredOperatorRecord, EffectiveOperator, operator, operator_from_record, load_tenant_for_login,
  list_effective_operators, find_operator_by_id, of_tenant, seed_operators, is_managed,
  first_with_id,
}
use validador_final.Auth.Shelves.{load_all, load, persist, keep, find_by_hash, with_hash}
use validador_final.Auth.Accounts.{
  load_operator_records, Accounts, AccountWorld, OperatorInvitationRecord,
  OperatorPasswordResetRecord, recorded, record_event, validate_password_strength, any_character,
  store_operator, find_operator_by_username, found_username, first_with_username, is_free,
  with_password, lifetime_or,
}
use validador_final.Auth.Accounts.Invitations.{
  accept_operator_invitation, find_invitation_by_token, usable, unexpired, accept_usable, invited,
  accepted, store_invite,
}
use validador_final.Auth.Accounts.Spent.{IsRefused as IsInvitationRefused}
use validador_final.Auth.Accounts.Once.{
  InvitationCall, reload, accept, perform_all, accept_operator_invitation-once,
}
use validador_final.Auth.Accounts.Resets.{
  complete_operator_password_reset, find_password_reset_by_token, checked_reset, checked_use,
  checked_operator, noted, noted_some, weak_password, find_operator, complete_for, store_reset,
  revoke_active_keys_for_operator, revoke_each, create_operator_password_reset_token,
  active_operator, issue_reset, load_password_reset_records, invalidated, invalidate, is_pending,
}
use validador_final.Auth.Accounts.Resets.Completed.{IsRefused}
use validador_final.Auth.Accounts.Resets.Once.{
  ResetCall, reload as reload_resets, complete, perform_all as perform_resets,
  complete_operator_password_reset-once,
}
use validador_final.Auth.Accounts.Resets.Pending.{
  IsOnlyPending, create_operator_password_reset_token-IsOnlyPending,
}

abbrev office : AccountWorld
office = record {
  directory = record {
    canonicalize_tenant_id = λ t. t;
    load_operators = λ t. ok [];
    seed_operators_enabled = false;
    name_le = λ a b. true;
  };
  keys = record { canonicalize_tenant_id = λ t. t; get_tenant_ttl_seconds = λ t. 60 };
  hash_api_key = λ t. t;
  hash_password = λ t. t;
  islower = λ c. true;
  isupper = λ c. true;
  isdigit = λ c. true;
  isalnum = λ c. false;
}

abbrev invitation : OperatorInvitationRecord
invitation = record {
  invite_id = "i1";
  tenant_id = "acme";
  username = "ana";
  role = operator;
  token_hash = "token";
  created_at = 0;
  expires_at = 100;
  created_by_api_key_id = none;
  used_at = none;
  accepted_operator_id = none;
}

abbrev before : Accounts
before = record {
  operators = record { records = []; stored = none };
  invites = record { records = ("i1", invitation) ∷ []; stored = some (invitation ∷ []) };
  resets = record { records = []; stored = none };
  keys = record { records = []; storage = none; audit = [] };
  audit = none;
}

abbrev later_invitations : List InvitationCall
later_invitations = reload ∷ accept 15 "o3" "token" "abcdefgh" ∷ []

accept_operator_invitation-once_example : IsInvitationRefused office 20 "o2" "token" "abcdefgh" (
    perform_all office later_invitations
      (accept_operator_invitation office 10 "o1" "token" "12345678" before).1)
unfolding load_all accept_operator_invitation find_invitation_by_token usable unexpired
    accept_usable invited accepted store_invite validate_password_strength text_length any_character
    find_by_hash with_hash load_operator_records load load_tenant_for_login is_free
    find_operator_by_username found_username first_with_username list_effective_operators of_tenant
    seed_operators sort_by store_operator persist keep put record_event recorded
    operator_from_record ◌>>=◌ strip strip_start strip_end
accept_operator_invitation-once_example =
    accept_operator_invitation-once office "token" 10 20 "o1" "o2" "12345678" "abcdefgh" "i1" before
      (operator_from_record (invited office "o1" "12345678" invitation) false) later_invitations
      (refl, tt, tt) (((λ h. refl), tt), ((λ h. refl), tt)) refl (tt, (tt, tt))

abbrev ana : StoredOperatorRecord
ana = record {
  tenant_id = "acme";
  operator_id = "o1";
  username = "ana";
  password_hash = "old";
  role = operator;
  disabled = false;
  must_change_password = true;
}

abbrev reset : OperatorPasswordResetRecord
reset = record {
  reset_id = "r1";
  tenant_id = "acme";
  operator_id = "o1";
  username = "ana";
  token_hash = "token";
  created_at = 0;
  expires_at = 100;
  created_by_api_key_id = none;
  used_at = none;
}

abbrev forgotten : Accounts
forgotten = record before {
  operators = record { records = ("acme\no1", ana) ∷ []; stored = some (ana ∷ []) };
  resets = record { records = ("r1", reset) ∷ []; stored = some (reset ∷ []) };
}

abbrev returned : EffectiveOperator
returned = record {
  tenant_id = "acme";
  operator_id = "o1";
  username = "ana";
  password_hash = "12345678";
  role = operator;
  disabled = false;
  must_change_password = false;
  is_seed = false;
}

abbrev later_resets : List ResetCall
later_resets = reload_resets ∷ complete 15 "token" "abcdefgh" ∷ []

complete_operator_password_reset-once_example : IsRefused office 20 "token" "abcdefgh" (
    perform_resets office later_resets
      (complete_operator_password_reset office 10 "token" "12345678" forgotten).1)
unfolding load load_all load_operator_records complete_operator_password_reset
    find_password_reset_by_token checked_reset checked_use checked_operator noted noted_some
    weak_password find_operator complete_for store_reset revoke_active_keys_for_operator revoke_each
    validate_password_strength text_length any_character find_by_hash with_hash find_operator_by_id
    first_with_id list_effective_operators load_tenant_for_login of_tenant seed_operators is_managed
    sort_by store_operator with_password persist keep put record_event recorded operator_from_record
    ◌>>=◌ strip strip_start strip_end
complete_operator_password_reset-once_example =
    complete_operator_password_reset-once office "token" 10 20 "12345678" "abcdefgh" "r1" forgotten
      returned later_resets (refl, tt, tt) (refl, tt, tt) (((λ h. refl), tt), ((λ h. refl), tt))
      refl (tt, (tt, tt))

abbrev second_reset : OperatorPasswordResetRecord
second_reset = record reset {
  reset_id = "r2";
  token_hash = "new";
  created_at = 10;
  expires_at = 3600000010;
}

create_operator_password_reset_token-IsOnlyPending_example :
    IsOnlyPending 10 second_reset
      (create_operator_password_reset_token office 10 "new" "r2" "acme" "o1" none none forgotten).1
unfolding load_all load_operator_records create_operator_password_reset_token find_operator
    active_operator lifetime_or issue_reset load_password_reset_records invalidated invalidate
    is_pending store_reset record_event recorded find_operator_by_id first_with_id
    list_effective_operators load_tenant_for_login of_tenant seed_operators is_managed sort_by
    operator_from_record persist keep put load ◌>>=◌
create_operator_password_reset_token-IsOnlyPending_example =
    create_operator_password_reset_token-IsOnlyPending office 10 "new" "r2" "acme" "o1" none none
      forgotten second_reset refl
