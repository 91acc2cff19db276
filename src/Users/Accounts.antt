-- ===== src/Users/Accounts.antt =====
-- The log-in, UserViewSet and RoleViewSet of apps/ucenter/views.py. The check of a password is a parameter.
use devops_backend.Prelude.{
  ℕ, suc, String, Bool, true, false, ◌&&◌, not, Option, none, some, List, [], ◌∷◌, ◌++◌, map,
  text_key, number_key, ◌==◌, if◌then◌else◌, any, select, contains,
}
use devops_backend.Outcome.{Result, ok, err, does_not_exist, type_error, value_error}
use devops_backend.Shared.Config.{get_one}

pub record Account : Type 0 where
  pub id : ℕ
  pub username : String
  pub is_active : Bool
  pub roles : List ℕ
  pub last_login : Option ℕ

pub record RoleRow : Type 0 where
  pub id : ℕ
  pub name : String

-- an entry of log_audit
pub record Audit : Type 0 where
  pub action : String
  pub username : String

pub record UserDb : Type 0 where
  pub next_id : ℕ
  pub accounts : List Account
  pub roles : List RoleRow
  pub audits : List Audit

unfoldable pub log_audit : String → String → UserDb → UserDb
log_audit action username db = record db {
  audits = db.audits ++ record { action = action; username = username } ∷ [];
}

-- a change of the row with an id
unfoldable pub update_account : ℕ → (Account → Account) → UserDb → UserDb
update_account id change db = record db {
  accounts = map (λ a. if a.id == id then change a else a) db.accounts;
}

-- `user.roles.add(role.id)`
unfoldable pub add_role : ℕ → Account → Account
add_role role a = if contains a.roles role then a else record a { roles = a.roles ++ role ∷ [] }

-- the default role, if there is exactly one of the name; an exception is logged
unfoldable pub bind_default_role : Account → UserDb → UserDb
bind_default_role user db = elim (get_one (λ r. r.name == "默认角色") db.roles) [
  | none ↦ db
  | some role ↦ update_account user.id (add_role role.id) db
]

unfoldable pub update_last_login : ℕ → Account → UserDb → UserDb
update_last_login now user db = update_account user.id (λ a. record a { last_login = some now }) db

-- code 20000 with the tokens, or code 40108
pub data LoginReply : Type 0 where
  logged_in : String → LoginReply
  login_failed : LoginReply

unfoldable pub after_check : ℕ → String → String → UserDb → UserDb × LoginReply
after_check now username tokens db = elim (get_one (λ a. a.username == username) db.accounts) [
  | none ↦ (log_audit "登录失败" username db, login_failed)
  | some user ↦ (update_last_login now user (bind_default_role user db), logged_in tokens)
]

-- UserAuthTokenView.post; every exception ends as a failed log-in
unfoldable pub auth_token_post :
    (String → String → Option String) → ℕ → String → String → UserDb → UserDb × LoginReply
auth_token_post authenticate now username password db = elim (authenticate username password) [
  | none ↦ (log_audit "登录失败" username db, login_failed)
  | some tokens ↦ after_check now username tokens (log_audit "登录成功" username db)
]

-- the users of UserViewSet
unfoldable pub is_listed : Account → Bool
is_listed a = not (a.username == "thirdparty") && a.is_active

-- the account that exists already, or the new one with its password; `valid` is the serializer's check,
-- which no user name passes that is taken
pub data CreateReply : Type 0 where
  account_exists : CreateReply
  account_created : ℕ → String → CreateReply

unfoldable pub create_user : Bool → String → String → UserDb → UserDb × Result CreateReply
create_user valid password username db =
    if any (λ a. is_listed a && a.username == username) db.accounts
    then (db, ok account_exists)
    else if valid && not (any (λ a. a.username == username) db.accounts)
    then (
      log_audit "创建" username (record db {
        next_id = suc db.next_id;
        accounts =
            record {
              id = db.next_id;
              username = username;
              is_active = true;
              roles = [];
              last_login = none;
            }
            ∷ db.accounts;
      }),
      ok (account_created db.next_id password),
    )
    else (db, err value_error)

-- `perform_destroy` of UserViewSet: the row is kept
unfoldable pub destroy_user : ℕ → UserDb → UserDb
destroy_user id db = update_account id (λ a. record a { is_active = false }) db

-- `perform_destroy` of RoleViewSet: the default role stays, though the reply is the same
unfoldable pub destroy_role : RoleRow → UserDb → UserDb
destroy_role role db =
    if role.name == "默认角色"
    then db
    else record db { roles = select (λ r. not (r.id == role.id)) db.roles }

-- password_reset hands the text of a password to a digest, which takes bytes only
unfoldable pub password_reset : ℕ → UserDb → Result (Unit {0})
password_reset uid db = elim (get_one (λ a. is_listed a && a.id == uid) db.accounts) [
  | none ↦ err does_not_exist
  | some user ↦ err type_error
]
