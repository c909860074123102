-- ===== src/Auth/Accounts.antt =====
-- The accounts of app/services/auth_service.py: operators, invitations, tokens that reset a password,
-- and keys. The principals that an audit event names, which are looked up, are left out of it. The
-- random texts, hashes and salts come from outside.
pub mod Administration
pub mod Once
pub mod Settled
pub mod Invitations
pub mod Resets
pub mod Spent
use validador_final.Prelude.{
  ℕ, ◌+◌, ◌*◌, String, Bool, true, false, not, ◌&&◌, List, [], ◌∷◌, ◌++◌, Option, none, some,
  if◌then◌else◌, str_eq, ltb, leb, ◌==◌, Result, ok, err,
}
use Prim.Native.Char.{Char}
use Prim.Native.String
use validador_final.Prelude.Dict.{put, values}
use validador_final.Prelude.Exec.{Exec, pure, raise, lift, gets, modify, ◌>>=◌, ◌>>◌}
use validador_final.Prelude.Text.{text_length, text_leb}
use validador_final.Job.{Time}
use validador_final.Auth.Operators.{
  OperatorRole, AuthError, StoredOperatorRecord, EffectiveOperator, OperatorConfig, Directory,
  load_tenant_for_login, list_effective_operators, operator_from_record,
}
use validador_final.Auth.Keys.{
  KeyStore, KeyWorld, IssuedApiKeyRecord, backfilled, expiration, revoke_api_key,
}
use validador_final.Auth.Shelves.{Shelf, Kind, persist, keep, load, find_by_hash}

pub record OperatorInvitationRecord : Type 0 where
  pub invite_id : String
  pub tenant_id : String
  pub username : String
  pub role : OperatorRole
  pub token_hash : String
  pub created_at : Time
  pub expires_at : Time
  pub created_by_api_key_id : Option String
  pub used_at : Option Time
  pub accepted_operator_id : Option String

pub record OperatorPasswordResetRecord : Type 0 where
  pub reset_id : String
  pub tenant_id : String
  pub operator_id : String
  pub username : String
  pub token_hash : String
  pub created_at : Time
  pub expires_at : Time
  pub created_by_api_key_id : Option String
  pub used_at : Option Time

pub data AccountEventType : Type 0 where
  operator_invited operator_invite_accepted reset_token_issued reset_failed reset_completed
        operator_role_changed operator_password_reset operator_password_rotated operator_disabled :
      AccountEventType

-- The type of an event, its tenant, the record that it is about and when that was used, the key that
-- acts, and the operator or the reason that the details name.
pub record AccountEvent : Type 0 where
  pub event_type : AccountEventType
  pub tenant_id : String
  pub record_id : Option String
  pub used_at : Option Time
  pub api_key_id : Option String
  pub operator_id : Option String
  pub reason : Option String
  pub revoked_api_key_count : Option ℕ

pub record Accounts : Type 0 where
  pub operators : Shelf StoredOperatorRecord
  pub invites : Shelf OperatorInvitationRecord
  pub resets : Shelf OperatorPasswordResetRecord
  pub keys : KeyStore
  pub audit : Option (List AccountEvent)

abbrev pub AccountAction : Type 0 → Type 0
AccountAction A = Exec Accounts AuthError A

-- The tenants, the lifetimes of keys, the two hashes, and Python's tables of characters.
pub record AccountWorld : Type 0 where
  pub directory : Directory
  pub keys : KeyWorld
  pub hash_api_key : String → String
  pub hash_password : String → String
  pub islower : Char → Bool
  pub isupper : Char → Bool
  pub isdigit : Char → Bool
  pub isalnum : Char → Bool

abbrev pub auth_error : ℕ → String → AuthError
auth_error status detail = record { status_code = status; detail = detail }

-- `(tenant_id, created_at, id)`, compared in this order
unfoldable pub stored_before : String × Time × String → String × Time × String → Bool
unfolding text_leb
stored_before (t, c, i) (u, d, j) =
    if not (str_eq t u) then text_leb t u else if c == d then text_leb i j else ltb c d

abbrev pub operators_kind : Directory → Kind StoredOperatorRecord
operators_kind directory = record {
  key_of = λ r. String.◌++◌ r.tenant_id (String.◌++◌ "\n" r.operator_id);
  tenant_of = λ r. r.tenant_id;
  with_tenant = λ t r. record r { tenant_id = t };
  before = λ a b.
      if not (str_eq a.tenant_id b.tenant_id)
      then text_leb a.tenant_id b.tenant_id
      else directory.name_le a b;
  hash_of = λ r. r.password_hash;
}

abbrev pub invites_kind : Kind OperatorInvitationRecord
invites_kind = record {
  key_of = λ r. r.invite_id;
  tenant_of = λ r. r.tenant_id;
  with_tenant = λ t r. record r { tenant_id = t };
  before = λ a b.
      stored_before (a.tenant_id, a.created_at, a.invite_id)
        (b.tenant_id, b.created_at, b.invite_id);
  hash_of = λ r. r.token_hash;
}

abbrev pub resets_kind : Kind OperatorPasswordResetRecord
resets_kind = record {
  key_of = λ r. r.reset_id;
  tenant_of = λ r. r.tenant_id;
  with_tenant = λ t r. record r { tenant_id = t };
  before = λ a b.
      stored_before (a.tenant_id, a.created_at, a.reset_id) (b.tenant_id, b.created_at, b.reset_id);
  hash_of = λ r. r.token_hash;
}

unfoldable pub any_character : (Char → Bool) → String → Bool
any_character p String.[] = false
any_character p (String.◌∷◌ c s) = let rest = any_character p s in if p c then true else rest

unfoldable pub recorded : AccountEvent → Option (List AccountEvent) → Option (List AccountEvent)
recorded event none = none
recorded event (some events) = some (events ++ event ∷ [])

unfoldable pub record_event : AccountEvent → AccountAction (Unit {0})
unfolding recorded
record_event event = modify (λ s. record s { audit = recorded event s.audit })

unfoldable pub first_with_username : String → List EffectiveOperator → Option EffectiveOperator
first_with_username username [] = none
first_with_username username (o ∷ os) =
    if str_eq o.username username then some o else first_with_username username os

-- A lifetime that is asked for.
pub data Lifetime : Type 0 where
  lasting : ℕ → Lifetime
  negative : Lifetime

-- `expires_in or default`, refused unless it is positive
unfoldable pub lifetime_or : String → ℕ → Option Lifetime → Result AuthError ℕ
lifetime_or detail default none = ok default
lifetime_or detail default (some negative) = err (auth_error 400 detail)
lifetime_or detail default (some (lasting n)) = ok (if n == 0 then default else n)

module _ (world : AccountWorld) where
  unfoldable pub validate_password_strength : String → Result AuthError (Unit {0})
  unfolding text_length any_character
  validate_password_strength password =
      if leb 8 (text_length password)
        && any_character world.islower password
        && any_character world.isupper password
        && any_character world.isdigit password
        && any_character (λ c. not (world.isalnum c)) password
      then ok tt
      else err (
          auth_error 400
            "Password must be at least 8 characters long and include uppercase, lowercase, digit, and special character")

  abbrev pub canonicalize : String → String
  canonicalize = world.directory.canonicalize_tenant_id

  unfoldable pub load_operator_records : AccountAction (Unit {0})
  load_operator_records =
      modify (λ s. record s {
        operators = load (operators_kind world.directory) canonicalize s.operators;
      })

  -- `self._operator_records[key] = record`, and the persistence.
  unfoldable pub store_operator : StoredOperatorRecord → AccountAction (Unit {0})
  store_operator r = modify (λ s. record s {
    operators =
        persist (operators_kind world.directory)
          (keep (operators_kind world.directory) r s.operators);
  })

  unfoldable pub found_username :
      String
      → Result AuthError (List EffectiveOperator)
      → Result AuthError (Option EffectiveOperator)
  unfolding first_with_username
  found_username username (err e) = err e
  found_username username (ok operators) = ok (first_with_username username operators)

  unfoldable pub find_operator_by_username :
      List StoredOperatorRecord → String → String → Result AuthError (Option EffectiveOperator)
  find_operator_by_username records tenant_id username =
      found_username username (list_effective_operators world.directory records tenant_id)

  -- Nobody has the username yet.
  unfoldable pub is_free : Result AuthError (Option EffectiveOperator) → Result AuthError (Unit {0})
  is_free (err e) = err e
  is_free (ok none) = ok tt
  is_free (ok (some operator)) = err (auth_error 409 "Operator username already exists")

  -- `_store_effective_operator` with a new hash of the password
  unfoldable pub with_password : EffectiveOperator → String → StoredOperatorRecord
  with_password operator password_hash = record {
    tenant_id = operator.tenant_id;
    operator_id = operator.operator_id;
    username = operator.username;
    password_hash = password_hash;
    role = operator.role;
    disabled = operator.disabled;
    must_change_password = false;
  }
