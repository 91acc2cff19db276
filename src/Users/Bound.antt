-- ===== src/Users/Bound.antt =====
-- What a log-in changes, in apps/ucenter/views.py.
use devops_backend.Prelude.{
  ℕ, String, ◌≡◌, refl, ◌∙◌, inl, inr, true, Option, some, List, [], ◌∷◌, ◌++◌, arith, text_key,
  number_key, ◌==◌, if◌then◌else◌, Bool-cases, get_elem?, contains,
}
use devops_backend.Prelude.{get_elem?-map}
use devops_backend.Shared.Config.{get_one}
use devops_backend.Users.Accounts.{
  Account, RoleRow, UserDb, logged_in, log_audit, update_account, add_role, bind_default_role,
  update_last_login, after_check, auth_token_post,
}

add_role-contains : (role : ℕ) (a : Account) → contains (add_role role a).roles role ≡ true
unfolding add_role
add_role-contains role a = elim (Bool-cases (contains a.roles role)) [
  | inl held ↦ rw held held
  | inr lacks ↦ rw lacks (contains-last a.roles role)
]
  where
    contains-last : (xs : List ℕ) (x : ℕ) → contains (xs ++ x ∷ []) x ≡ true
    contains-last [] x = ground arith
    contains-last (y ∷ xs) x = ground (arith, contains-last xs x)

add_role-id : (role : ℕ) (a : Account) → (add_role role a).id ≡ a.id
unfolding add_role
add_role-id role a = ground arith

audits-update_account :
    (id : ℕ) (change : Account → Account) (db : UserDb)
    → (update_account id change db).audits ≡ db.audits
unfolding update_account
audits-update_account id change db = refl

get_elem?-update_account :
    (id : ℕ) (change : Account → Account) (db : UserDb) (i : ℕ) (a : Account)
    → get_elem? db.accounts i ≡ some a
    → get_elem? (update_account id change db).accounts i ≡ some (if a.id == id then change a else a)
unfolding update_account
get_elem?-update_account id change db i a at =
    get_elem?-map (λ b. if b.id == id then change b else b) db.accounts i a at

-- A log-in that the check of the password passes, of a user who is the only one with the name, replies
-- with the tokens where there is exactly one default role; the user has then this role and the time of
-- the log-in, the other users' rows stay as they were, and one entry records the success.
pub auth_token_post-bound :
    (authenticate : String → String → Option String) (now : ℕ) (username password tokens : String)
    (db : UserDb) (user : Account) (role : RoleRow) (i : ℕ) (a : Account)
    → authenticate username password ≡ some tokens
    → get_one (λ b. b.username == username) db.accounts ≡ some user
    → get_one (λ r. r.name == "默认角色") db.roles ≡ some role
    → get_elem? db.accounts i ≡ some a
    → ((auth_token_post authenticate now username password db).1 ≡ logged_in tokens)
      × (get_elem? (auth_token_post authenticate now username password db).0.accounts i
          ≡ some (
              if a.id == user.id then record (add_role role.id a) { last_login = some now } else a))
      × (contains (add_role role.id a).roles role.id ≡ true)
      × ((auth_token_post authenticate now username password db).0.audits
          ≡ db.audits ++ record { action = "登录成功"; username = username } ∷ [])
unfolding auth_token_post after_check log_audit bind_default_role update_last_login
auth_token_post-bound authenticate now username password tokens db user role i a passed only default
      at =
    let audited = log_audit "登录成功" username db in
    let first = get_elem?-update_account user.id (add_role role.id) audited i a at in
    let bound = update_account user.id (add_role role.id) audited in
    let second =
      get_elem?-update_account user.id (λ b. record b { last_login = some now }) bound i
        (if a.id == user.id then add_role role.id a else a) first in
    let same = add_role-id role.id a in
    let met : get_elem?
          (update_account user.id (λ b. record b { last_login = some now }) bound).accounts i
        ≡ some
            (if a.id == user.id then record (add_role role.id a) { last_login = some now } else a) =
      elim (Bool-cases (a.id == user.id)) [
        | inl q ↦ ground (arith, second, q, same)
        | inr q ↦ ground (arith, second, q)
      ] in
    let kept =
      audits-update_account user.id (λ b. record b { last_login = some now }) bound
      ∙ audits-update_account user.id (add_role role.id) audited in
    (
      ground (arith, passed, only, default),
      ground (arith, passed, only, default, met),
      add_role-contains role.id a,
      ground (arith, passed, only, default, kept),
    )
