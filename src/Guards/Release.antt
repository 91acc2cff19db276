-- ===== src/Guards/Release.antt =====
-- build_allow_check, deploy_allow_check and appinfo_order_check of common/extends/decorators.py.
use devops_backend.Prelude.{
  ℕ, ◌-◌, String, Bool, true, false, Option, none, some, List, [], ◌∷◌, ◌&&◌, not, ◌==◌, text_key,
  number_key, if◌then◌else◌, any, first_where, leb, ltb, count_where,
}
use devops_backend.Outcome.{Result, ok, ◌>>=◌, or_raise, does_not_exist, key_error, type_error}
use devops_backend.Guards.Branch.{AppInfo, Verdict, refuse, proceed, is_k8s_server, find_appinfo}

-- a build of a commit of an application
pub record Built : Type 0 where
  pub appinfo_id : ℕ
  pub status : ℕ
  pub short_id : String

-- `commits` is a dict with the short id, or a text
pub record BuildRequest : Type 0 where
  pub pk : ℕ
  pub env : Option ℕ
  pub commits : Option String
  pub force : Bool
  pub is_deploy : Bool

-- `[region, product] not in environment.extra.get('product', [])` where tickets are on
unfoldable pub needs_ticket : AppInfo → Bool
needs_ticket app =
    app.environment.ticket_on
    && not (any (λ p. p.0 == app.region && p.1 == app.product) app.environment.skipped_products)

unfoldable pub build_allow_check : List AppInfo → List Built → BuildRequest → Result Verdict
build_allow_check apps builds request =
    elim (first_where (λ a. a.id == request.pk && is_env request.env a) apps) [
      | none ↦ ok (refuse 50000 200)
      | some app ↦
          if request.is_deploy && needs_ticket app
          then ok (refuse 40300 200)
          else (or_raise type_error request.commits >>= λ short_id. ok (
              if not request.force && ltb 0 (count_where (is_built app short_id) builds)
              then refuse 40403 200
              else proceed))
    ]
  where
    is_env : Option ℕ → AppInfo → Bool
    is_env none a = false
    is_env (some e) a = a.environment_id == e

    is_built : AppInfo → String → Built → Bool
    is_built app short_id b = b.appinfo_id == app.id && (b.status == 1 && b.short_id == short_id)

-- `time_comp` of common/ext_fun.py: within the window of the time that is given, in seconds, or at
-- that very time where no window is given
unfoldable pub time_comp : ℕ → ℕ → Option ℕ → Bool
time_comp ctime target none = ctime == target
time_comp ctime target (some window) =
    if ltb ctime target then leb (target - ctime) window else leb (ctime - target) window

pub record Order : Type 0 where
  pub order_id : String
  pub status : ℕ
  pub expect_time : Option ℕ

-- what the check calls: the time, the entry PUBLISH_TIME_DIFF of the data dictionary, the generator
-- of the deployment and the connection to a cluster
pub record Platform : Type 0 where
  pub now : ℕ
  pub publish_time_diff : Option (Option ℕ)
  pub template_ecode : AppInfo → Option ℕ
  pub k8s_cli : ℕ → Bool

pub record DeployRequest : Type 0 where
  pub from_order : Bool
  pub order_id : Option String
  pub appinfo_id : Option ℕ
  pub image : String

-- the order at a time at which it may be deployed; a comparison with None raises
unfoldable pub on_time : Platform → Option ℕ → Order → Result Bool
on_time platform window order =
    if order.status == 0
    then (or_raise type_error order.expect_time >>= λ t. ok (time_comp platform.now t window))
    else ok true

unfoldable pub check_order : Platform → List Order → DeployRequest → AppInfo → Result Verdict
check_order platform orders request app =
    if app.environment.ticket_on then found (find request.order_id) else ok (refuse 40300 200)
  where
    find : Option String → Option Order
    find none = none
    find (some order_id) = first_where (λ o. o.order_id == order_id) orders

    found : Option Order → Result Verdict
    found o = do
      order ← or_raise does_not_exist o
      window ← or_raise does_not_exist platform.publish_time_diff
      timely ← on_time platform window order
      ok (if timely then proceed else refuse 40300 200)

-- the clusters are connected one after the other, and the first that fails ends the check
unfoldable pub check_clusters : Platform → List ℕ → Verdict
check_clusters platform [] = proceed
check_clusters platform (k8s ∷ rest) =
    let later = check_clusters platform rest in
    if platform.k8s_cli k8s then later else refuse 50000 500

unfoldable pub check_template : Platform → AppInfo → Verdict
check_template platform app =
    if is_k8s_server app
      && not (elim (platform.template_ecode app) [ none ↦ false | some ecode ↦ ecode == 200 ])
    then refuse 50000 500
    else check_clusters platform app.kubernetes

unfoldable pub deploy_allow_check :
    Platform → List AppInfo → List Order → DeployRequest → Result Verdict
deploy_allow_check platform apps orders request = do
  key ← or_raise key_error request.appinfo_id
  app ← or_raise does_not_exist (find_appinfo (some key) apps)
  if request.image == ""
      then ok (refuse 40300 200)
      else if request.from_order
      then (check_order platform orders request app >>= λ v. continued app v)
      else ok (check_template platform app)
  where
    continued : AppInfo → Verdict → Result Verdict
    continued app (refuse code http) = ok (refuse code http)
    continued app proceed = ok (check_template platform app)

unfoldable pub appinfo_order_check : Option ℕ → List AppInfo → Verdict
appinfo_order_check key apps = elim (find_appinfo key apps) [
  | none ↦ refuse 40400 200
  | some app ↦ proceed
]
