-- ===== src/Deploy/Orders.antt =====
-- How a deployment marks its job, the apps of its publish order and the order: K8sDeploys,
-- JarDeploy.task_over and WebDeploy.task_over of qtasks/tasks_deploy.py.
use devops_backend.Prelude.{
  ℕ, String, Bool, Option, none, some, List, map, ◌&&◌, ◌||◌, not, ◌==◌, text_key, number_key,
  if◌then◌else◌, first_where, select, contains,
}
use devops_backend.Outcome.{Result, ok, err, does_not_exist}
use devops_backend.Deploy.Model.{CdResult, all_ones}

pub record DeployJob : Type 0 where
  pub id : ℕ
  pub order_id : String
  pub appinfo_id : ℕ
  pub status : ℕ
  pub deploy_type : ℕ
  pub modules : String
  pub result : Option CdResult

pub record PublishApp : Type 0 where
  pub id : ℕ
  pub order_id : String
  pub appinfo_id : ℕ
  pub status : ℕ
  pub deploy_type : String
  pub modules : String

pub record PublishOrder : Type 0 where
  pub order_id : String
  pub status : ℕ

-- the rows and the cache entries that a deployment writes; the delay counts tenths of a second
pub record World : Type 0 where
  pub job : DeployJob
  pub apps : List PublishApp
  pub orders : List PublishOrder
  pub cached : Option CdResult
  pub notice_delay : ℕ

abbrev pub Done : Type 0
Done = World × Result Unit

-- `PublishOrder.objects.get(order_id=...)`
unfoldable pub find_order : String → World → Option PublishOrder
find_order order_id w = first_where (λ o. o.order_id == order_id) w.orders

unfoldable pub save_order : String → ℕ → World → World
save_order order_id status w = record w {
  orders = map (λ o. if o.order_id == order_id then record o { status = status } else o) w.orders;
}

-- `PublishApp.objects.filter(appinfo_id=..., order_id=...).update(status=...)`
unfoldable pub update_apps : DeployJob → ℕ → World → World
update_apps job status w = record w { apps = map updated w.apps }
  where
    updated : PublishApp → PublishApp
    updated a =
        if a.appinfo_id == job.appinfo_id && a.order_id == job.order_id
        then record a { status = status }
        else a

unfoldable pub init_deploy_job_status : Option ℕ → World → Done
init_deploy_job_status order_delay w =
    let started = record w { job = record w.job { status = 3 } } in
    let marked = update_apps w.job 3 started in
    if w.job.order_id == "" then (started, ok tt) else elim (find_order w.job.order_id marked) [
      | none ↦ (marked, err does_not_exist)
      | some order ↦ (
        record (save_order w.job.order_id 3 marked) {
          notice_delay = elim order_delay [ none ↦ 600 | some delay ↦ delay ];
        },
        ok tt,
      )
    ]

-- the statuses of the apps of an order
unfoldable pub app_status : String → List PublishApp → List ℕ
app_status order_id apps = map (λ a. a.status) (select (λ a. a.order_id == order_id) apps)

-- the statuses of the apps of an order that are not void
unfoldable pub valid_status : String → List PublishApp → List ℕ
valid_status order_id apps =
    map (λ a. a.status) (select (λ a. a.order_id == order_id && not (a.status == 4)) apps)

-- the status that an order gets from the statuses of its apps: 1 success, 2 failure, 3 under way
unfoldable pub order_status : List ℕ → ℕ
order_status app_status =
    if all_ones app_status
    then 1
    else if contains app_status 0 || contains app_status 3
    then 3
    else 2

-- a verdict also brings the notice forward
abbrev pub judge_order : String → ℕ → World → World
judge_order order_id status w = record (save_order order_id status w) {
  notice_delay = if status == 3 then w.notice_delay else 1;
}

unfoldable pub update_deploy_job_status : CdResult → World → Done
update_deploy_job_status cd_result w =
    let saved = record w {
      cached = some cd_result;
      job = record w.job { status = cd_result.status; result = some cd_result };
    } in
    let marked = update_apps w.job cd_result.status saved in
    if w.job.order_id == "" then (saved, ok tt) else elim (find_order w.job.order_id saved) [
      | none ↦ (saved, err does_not_exist)
      | some order ↦ (
        judge_order w.job.order_id (order_status (valid_status w.job.order_id marked.apps)) marked,
        ok tt,
      )
    ]

-- the app of the order that JarDeploy and WebDeploy were made with, written back
unfoldable pub save_app : PublishApp → List PublishApp → List PublishApp
save_app app apps = map (λ a. if a.id == app.id then app else a) apps

-- JarDeploy's verdict, which takes the partial results 10 + status for what is under way
unfoldable pub jar_status : List ℕ → ℕ
jar_status app_status =
    if all_ones app_status
    then 1
    else if contains app_status 0 || contains app_status 3 || contains app_status 11
    then 3
    else 2

-- JarDeploy.task_over, up to the notice; the second value says whether the batch key is deleted
unfoldable pub jar_task_over : String → ℕ → ℕ → ℕ → PublishApp → World → World × Bool
jar_task_over action_type status deployed hosts pub_app w =
    let rollback = action_type == "rollback" in
    let job = record w.job {
      status = status;
      deploy_type = if rollback then 2 else w.job.deploy_type;
    } in
    let app = record pub_app {
      status = status;
      deploy_type = if rollback then "2" else pub_app.deploy_type;
    } in
    let apps = save_app app w.apps in
    let judged =
      judge_order job.order_id (jar_status (app_status job.order_id apps))
        (record w { job = job; apps = apps }) in
    (if job.order_id == "" then record w { job = job } else judged, rollback || deployed == hosts)

-- WebDeploy.task_over, up to the notice
unfoldable pub web_task_over : ℕ → PublishApp → World → World
web_task_over status pub_app w =
    let job = record w.job { status = status } in
    let apps = save_app (record pub_app { status = status }) w.apps in
    if job.order_id == ""
    then record w { job = job }
    else judge_order job.order_id (order_status (app_status job.order_id apps))
        (record w { job = job; apps = apps })
