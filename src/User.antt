-- ===== src/User.antt =====
-- app/domain/entities/user.py and app/domain/entities/api_key.py, the two ways to sign in. Each
-- argument `now…` is one reading of the clock.
pub mod Revoked
use aiagent_x.Common.{
  ℕ, String, Bool, true, false, not, Option, none, some, is_some, List, [], ◌∷◌, M, Result, ok,
  raise, ltb, ◌&&◌, if◌then◌else◌,
}
use aiagent_x.Common.Text.{str_eq, is_empty, is_blank, contains}

pub data UserError : Type 0 where
  email_empty email_malformed hash_empty : UserError

pub record User : Type 0 where
  pub id : ℕ
  pub updated_at : ℕ
  pub tenant_id : ℕ
  pub email : String
  pub password_hash : String
  pub status : String
  pub last_login_at : Option ℕ

-- `User(…)` with `__post_init__`; `has_at` is whether the text holds an "@".
unfoldable pub new_user :
    (has_at : String → Bool)
    → (id now tenant_id : ℕ) → (email password_hash : String) → Result UserError User
new_user has_at id now tenant_id email password_hash =
    if is_blank email
    then raise email_empty
    else if not (has_at email)
    then raise email_malformed
    else if is_empty password_hash
    then raise hash_empty
    else ok (record {
      id = id;
      updated_at = now;
      tenant_id = tenant_id;
      email = email;
      password_hash = password_hash;
      status = "active";
      last_login_at = none;
    })

unfoldable pub verify_password : String → User → Bool
verify_password password_hash u = str_eq u.password_hash password_hash

unfoldable pub update_password : ℕ → String → M User UserError (Unit {0})
update_password now new_hash u =
    if is_empty new_hash
    then (raise hash_empty, u)
    else (ok tt, record u { password_hash = new_hash; updated_at = now })

unfoldable pub record_login : (now now' : ℕ) → User → User
record_login now now' u = record u { last_login_at = some now; updated_at = now' }

unfoldable pub deactivate : ℕ → User → User
deactivate now u =
    if str_eq u.status "inactive" then u else record u { status = "inactive"; updated_at = now }

unfoldable pub activate : ℕ → User → User
activate now u =
    if str_eq u.status "active" then u else record u { status = "active"; updated_at = now }

unfoldable pub is_active : User → Bool
is_active u = str_eq u.status "active"

-- The scopes are a dictionary, of which only the keys are read.
pub record ApiKey : Type 0 where
  pub id : ℕ
  pub updated_at : ℕ
  pub tenant_id : ℕ
  pub key_hash : String
  pub name : Option String
  pub scopes : List String
  pub expires_at : Option ℕ
  pub revoked_at : Option ℕ
  pub last_used_at : Option ℕ

unfoldable pub new_key :
    (id now tenant_id : ℕ)
    → (key_hash : String) → Option String
    → List String
    → (expires_at : Option ℕ) → Result UserError ApiKey
new_key id now tenant_id key_hash name scopes expires_at =
    if is_empty key_hash
    then raise hash_empty
    else ok (record {
      id = id;
      updated_at = now;
      tenant_id = tenant_id;
      key_hash = key_hash;
      name = name;
      scopes = scopes;
      expires_at = expires_at;
      revoked_at = none;
      last_used_at = none;
    })

unfoldable pub is_revoked : ApiKey → Bool
is_revoked k = is_some k.revoked_at

unfoldable pub is_expired : ℕ → ApiKey → Bool
is_expired now k = elim k.expires_at [ none ↦ false | some t ↦ ltb t now ]

unfoldable pub is_valid : ℕ → ApiKey → Bool
unfolding is_revoked is_expired
is_valid now k = not (is_revoked k) && not (is_expired now k)

unfoldable pub has_scope : String → ApiKey → Bool
has_scope scope k = contains k.scopes scope

unfoldable pub revoke : (now now' : ℕ) → ApiKey → ApiKey
unfolding is_revoked
revoke now now' k =
    if is_revoked k then k else record k { revoked_at = some now; updated_at = now' }

unfoldable pub record_usage : (now now' : ℕ) → ApiKey → ApiKey
record_usage now now' k = record k { last_used_at = some now; updated_at = now' }
