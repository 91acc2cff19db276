-- ===== src/Access/Rbac.antt =====
-- RbacPermission, AdminPermission and ObjPermission of common/extends/permissions.py. The rows of
-- the roles and the configuration are given with the request; `lower` stands for the lower-cased
-- method.
use Prim.Native.String.{◌++◌ as append}
use devops_backend.Prelude.{
  ℕ, String, Bool, true, false, Option, none, some, List, [], ◌∷◌, ◌++◌, map, ◌&&◌, ◌||◌, not, ◌==◌,
  text_key, number_key, if◌then◌else◌, any, contains, length, select, ltb,
}
use devops_backend.Outcome.{Result, ok, err, ◌>>=◌, or_raise, key_error}
use devops_backend.Text.{is_part}

-- a role with the methods of its permissions
pub record Role : Type 0 where
  pub name : String
  pub methods : List String

pub record Account : Type 0 where
  pub id : ℕ
  pub is_superuser : Bool
  pub roles : List Role

-- `request.user`: an AnonymousUser has no roles and is no superuser
pub data User : Type 0 where
  anonymous : User
  account : Account → User

pub record Request : Type 0 where
  pub lower : String
  pub path_info : String
  pub query_keys : List String
  pub user : User
  pub user_agent : Option String

-- an entry `method: (code, label)` of an item of perms_map
pub record Entry : Type 0 where
  pub method : String
  pub code : String

-- the view, whose `action` may be None
pub record View : Type 0 where
  pub perms_map : List (List Entry)
  pub action : Option String

-- the configuration `platform`: its whitelist of urls, where it has one
pub record PlatformConfig : Type 0 where
  pub whitelist : Option (List String)

abbrev admin_role : String
admin_role = "管理员"

unfoldable pub check_is_admin : User → Bool
check_is_admin anonymous = false
check_is_admin (account a) = ltb 0 (length (select (λ r. r.name == admin_role) a.roles))

-- the rows of the join of the roles with their permissions: a role without permissions gives None
unfoldable pub joined : List String → List (Option String)
joined [] = none ∷ []
joined (m ∷ methods) = map (λ method. some method) (m ∷ methods)

unfoldable pub methods_of : List Role → List (Option String)
methods_of [] = []
methods_of (r ∷ roles) = joined r.methods ++ methods_of roles

-- the AttributeError of a user without roles is caught
unfoldable pub get_permission_from_role : User → List (Option String)
unfolding methods_of
get_permission_from_role anonymous = []
get_permission_from_role (account a) = methods_of a.roles

-- `alias[0] in perms`
unfoldable pub has_method : List (Option String) → String → Bool
has_method [] code = false
has_method (p ∷ perms) code =
    let rest = has_method perms code in elim p [ none ↦ rest | some m ↦ m == code || rest ]

unfoldable pub url_whitelist : Option PlatformConfig → Result (List String)
url_whitelist none = ok ("/api/login/feishu/" ∷ "/api/login/gitlab/" ∷ [])
url_whitelist (some platform) = elim platform.whitelist [
  | none ↦ err key_error
  | some urls ↦ ok (urls ++ "/api/login/feishu/" ∷ "/api/login/gitlab/" ∷ [])
]

-- `f'{_method}_{action}'`
unfoldable pub custom_method : String → Option String → String
custom_method method none = append method "_None"
custom_method method (some action) = append method (append "_" action)

-- the four tests of an entry of perms_map
unfoldable pub entry_grants : Bool → List (Option String) → String → Option String → Entry → Bool
entry_grants is_admin perms method action e =
    (is_admin && (e.method == "*" && e.code == "admin"))
    || ((e.method == "*" && has_method perms e.code)
        || ((has_method perms e.code
              && (e.method == custom_method method action || e.method == custom_method "*" action))
            || (e.method == method && has_method perms e.code)))

unfoldable pub user_is_superuser : User → Bool
user_is_superuser anonymous = false
user_is_superuser (account a) = a.is_superuser

unfoldable pub is_empty : List (Option String) → Bool
is_empty [] = true
is_empty (p ∷ ps) = false

-- the part of `_has_permission` behind the tests of the whitelist, the query and the superuser
unfoldable pub map_grants : Request → View → Bool
map_grants request view =
    let is_admin = check_is_admin request.user in
    let perms = get_permission_from_role request.user in
    not (not is_admin && is_empty perms)
    && any (any (entry_grants is_admin perms request.lower view.action)) view.perms_map

-- `_has_permission`
unfoldable pub decide : Option PlatformConfig → Request → View → Result Bool
decide platform request view = do
  urls ← url_whitelist platform
  let listed = any (λ url. is_part url request.path_info) urls
  let from_workflow = request.lower == "get" && contains request.query_keys "from_workflow"
  ok (listed || (from_workflow || (user_is_superuser request.user || map_grants request view)))

-- a row of the audit log
pub record AuditLog : Type 0 where
  pub user : User
  pub action : String
  pub path : String

-- the verdict and the audit log, whose row needs the header HTTP_USER_AGENT
unfoldable pub has_permission :
    Option PlatformConfig → Request → View → List AuditLog → Result (Bool × List AuditLog)
has_permission platform request view audit = do
  res ← decide platform request view
  let row : AuditLog = record { user = request.user; action = "拒绝操作"; path = request.path_info }
  if res
      then ok (true, audit)
      else (or_raise key_error request.user_agent >>= λ agent. ok (false, audit ++ row ∷ []))

-- AdminPermission.has_permission
unfoldable pub admin_permission : User → Bool
admin_permission user = check_is_admin user

-- ObjPermission.has_object_permission on an object of the user `uid`, None being no refusal of its
-- own: it counts as false
unfoldable pub obj_permission : User → Option ℕ → Bool
obj_permission user uid = has_method (get_permission_from_role user) "admin" || elim user [
  | anonymous ↦ elim uid [ none ↦ true | some id ↦ false ]
  | account a ↦ elim uid [ none ↦ false | some id ↦ a.id == id ]
]
