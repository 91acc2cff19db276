-- ===== src/Launch/Views.antt =====
-- The views of DeployJobViewSet that start a deployment, with their guards: create and deploy_callback
-- of apps/deploy/views.py; and deploy_result, which reads one.
use Prim.Native.String.{◌++◌ as append}
use devops_backend.Prelude.{
  ℕ, String, Bool, true, false, Option, none, some, List, map, ◌&&◌, not, ◌==◌, text_key,
  number_key, if◌then◌else◌, any, first_where,
}
use devops_backend.Outcome.{Result, ok, err, ◌>>=◌, or_raise, does_not_exist}
use devops_backend.Text.{split, last}
use devops_backend.Guards.Branch.{
  AppInfo, BuildJob, BranchRequest, Verdict, refuse, proceed, cd, branch_allow_check,
}
use devops_backend.Guards.Release.{Order, Platform, DeployRequest, deploy_allow_check}
use devops_backend.Launch.Model.{LaunchApp, LaunchJob, LaunchDb, LaunchRequest, Services, get_app}
use devops_backend.Launch.Handle.{
  Launched, launched, refused, app_deploy_handle, deploy_handle, new_job, insert_job,
}

pub record Response : Type 0 where
  pub code : ℕ
  pub http : ℕ

abbrev pub respond : ℕ → ℕ → Response
respond code http = record { code = code; http = http }

-- check_user_deploy_perm of apps/deploy/ext_func.py, whose arguments do not matter
unfoldable pub check_user_deploy_perm : LaunchApp → Bool
check_user_deploy_perm app = true

-- the part of the modules behind the last colon
unfoldable pub module_name : Option String → Option String
module_name none = none
module_name (some modules) = if modules == "" then some modules else some (last (split ":" modules))

-- the data of the request as `create` rewrites it
unfoldable pub prepared : LaunchRequest → LaunchRequest
prepared request = record request {
  deploy_type = if request.rollback then 2 else request.deploy_type;
  modules = module_name request.modules;
}

-- `create` behind its guards; the exceptions of app_deploy_handle are caught
unfoldable pub create_deploy_job : Services → LaunchRequest → LaunchDb → LaunchDb × Result Response
create_deploy_job services request db = elim (get_app request.appinfo_id db) [
  | none ↦ (db, err does_not_exist)
  | some app ↦
      if not (check_user_deploy_perm app) && needs_order app
      then (db, ok (respond 40300 200))
      else answer (app_deploy_handle services (prepared request) app db)
]
  where
    needs_order : LaunchApp → Bool
    needs_order app =
        app.info.environment.ticket_on
        && not (
            any (λ p. p.0 == app.info.region && p.1 == app.info.product)
              app.info.environment.skipped_products)

    answer : LaunchDb × Result Launched → LaunchDb × Result Response
    answer (after, err e) = (after, ok (respond 50000 200))
    answer (after, ok refused) = (after, ok (respond 50000 200))
    answer (after, ok (launched job)) = (after, ok (respond 20000 200))

-- what the guards read beside the rows of a deployment
pub record GuardRows : Type 0 where
  pub build_jobs : List BuildJob
  pub orders : List Order
  pub platform : Platform

-- the data of a request with the name in its commit_tag
pub record CreateRequest : Type 0 where
  pub commit_name : Option String
  pub launch : LaunchRequest

unfoldable pub image_text : Option String → String
image_text none = ""
image_text (some image) = image

unfoldable pub branch_request : CreateRequest → BranchRequest
branch_request request = record {
  commit_name = request.commit_name;
  pk = none;
  appinfo_id = some request.launch.appinfo_id;
  jobid = none;
}

unfoldable pub deploy_request : CreateRequest → DeployRequest
deploy_request request = record {
  from_order = false;
  order_id = request.launch.order_id;
  appinfo_id = some request.launch.appinfo_id;
  image = image_text request.launch.image;
}

unfoldable pub app_infos : LaunchDb → List AppInfo
app_infos db = map (λ a. a.info) db.apps

-- the two guards of `create`, the outer one first
unfoldable pub create_guards : GuardRows → CreateRequest → LaunchDb → Result Verdict
create_guards rows request db =
    branch_allow_check cd rows.build_jobs (app_infos db) (branch_request request) >>= λ v. inner v
  where
    inner : Verdict → Result Verdict
    inner (refuse code http) = ok (refuse code http)
    inner proceed =
        deploy_allow_check rows.platform (app_infos db) rows.orders (deploy_request request)

-- `create` as it is called
unfoldable pub create : GuardRows → Services → CreateRequest → LaunchDb → LaunchDb × Result Response
create rows services request db = elim (create_guards rows request db) [
  | err e ↦ (db, err e)
  | ok (refuse code http) ↦ (db, ok (respond code http))
  | ok proceed ↦ create_deploy_job services request.launch db
]

-- a row of BuildJob, of which a callback starts the deployment
pub record BuiltJob : Type 0 where
  pub id : ℕ
  pub appinfo_id : ℕ
  pub image : Option String
  pub modules : Option String
  pub batch_uuid : Option String

-- the data of the new job: all clusters of the application
unfoldable pub callback_data : BuiltJob → LaunchApp → LaunchRequest
callback_data job app = record {
  appinfo_id = job.appinfo_id;
  order_id = none;
  image = job.image;
  kubernetes = app.info.kubernetes;
  modules = job.modules;
  batch_uuid = job.batch_uuid;
  rollback = false;
  deploy_type = 0;
}

-- the row that the callback saves, whose `uniq_id` does not name the modules
unfoldable pub callback_job : Services → BuiltJob → LaunchApp → LaunchDb → LaunchJob
callback_job services built app db = record (new_job services (callback_data built app) db) {
  uniq_id = append (services.number_text built.appinfo_id) (append "-" services.stamp);
}

-- deploy_callback behind its guard
unfoldable pub deploy_callback :
    Services → List BuiltJob → ℕ → LaunchDb → LaunchDb × Result Response
deploy_callback services builds jobid db = elim (first_where (λ b. b.id == jobid) builds) [
  | none ↦ (db, err does_not_exist)
  | some built ↦ elim (get_app built.appinfo_id db) [
    | none ↦ (db, ok (respond 50000 404))
    | some app ↦
        if services.is_valid (callback_data built app)
        then started app (callback_job services built app db)
        else (db, ok (respond 40000 400))
  ]
]
  where
    -- the code 500, which the view tests, is never returned by deploy_handle
    finish : LaunchDb → LaunchDb × Result ℕ → LaunchDb × Result Response
    finish before (after, err e) = (after, ok (respond 50000 424))
    finish before (after, ok code) =
        if code == 500 then (before, ok (respond 50000 424)) else (after, ok (respond 20000 200))

    started : LaunchApp → LaunchJob → LaunchDb × Result Response
    started app job = elim (insert_job job db) [
      | err e ↦ (db, ok (respond 50000 424))
      | ok saved ↦ finish db (deploy_handle services job job.kubernetes app saved)
    ]

-- what deploy_result shows: a result, nothing yet, or a text that asks to wait
pub data Shown (A : Type 0) : Type 0 where
  result : A → Shown A
  running : Shown A
  later : Shown A

-- deploy_result over the results of the job, the newest first; an empty result counts as none
unfoldable pub deploy_result : {A : Type 0} → ℕ → LaunchDb → List (ℕ × Option A) → Result (Shown A)
deploy_result {A} pk db results =
    or_raise does_not_exist (first_where (λ j. j.id == pk) db.jobs) >>= λ job.
    ok (found job (first_where (λ r. r.0 == pk) results))
  where
    unshown : LaunchJob → Shown A
    unshown job = if job.status == 3 then running else later

    found : LaunchJob → Option (ℕ × Option A) → Shown A
    found job none = unshown job
    found job (some (key, none)) = unshown job
    found job (some (key, some r)) = if not (job.status == 3) then result r else unshown job
