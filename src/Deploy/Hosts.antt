-- ===== src/Deploy/Hosts.antt =====
-- The deployment of an application to hosts by a playbook: JarDeploy and WebDeploy of
-- qtasks/tasks_deploy.py. The run of the playbook and the results of its steps are parameters.
use devops_backend.Prelude.{
  ℕ, ◌+◌, String, Bool, true, Option, none, some, List, ◌&&◌, ◌||◌, ◌==◌, text_key, number_key,
  if◌then◌else◌, all, ltb, length, distinct, first_where,
}
use devops_backend.Outcome.{
  Result, ok, err, ◌>>=◌, or_raise, does_not_exist, attribute_error, type_error,
}
use devops_backend.Deploy.Orders.{
  DeployJob, PublishApp, World, find_order, save_order, save_app, jar_task_over, web_task_over,
}

-- what the playbook returns; an `err` is an exception of its run
pub record Playbook : Type 0 where
  pub failed : Bool
  pub unreachable : Bool

-- the program's state besides the tables: the version, and the hosts that the cache keeps
pub record Site : Type 0 where
  pub world : World
  pub version : String
  pub batch : Option (List String)
  pub over : Bool

-- the app of the order, and the module where the job has one
unfoldable pub own_app : DeployJob → List PublishApp → Option PublishApp
own_app job apps =
    first_where (λ a. is_own a && (job.modules == "" || a.modules == job.modules)) apps
  where
    is_own : PublishApp → Bool
    is_own a = a.appinfo_id == job.appinfo_id && a.order_id == job.order_id

-- JarDeploy.init_result: the order's app, the order and the job are under way. The app's row, which is
-- written before a missing order is noticed, is not shown beside that exception.
unfoldable pub init_order : Option ℕ → World → Result (Option PublishApp × World)
init_order order_delay w =
    if w.job.order_id == "" then ok (none, w) else marked (own_app w.job w.apps)
  where
    marked : Option PublishApp → Result (Option PublishApp × World)
    marked found = do
      app ← or_raise attribute_error found
      order ← or_raise does_not_exist (find_order w.job.order_id w)
      ok (
        some (record app { status = 3 }),
        record (save_order w.job.order_id 3 w) {
          apps = save_app (record app { status = 3 }) w.apps;
          notice_delay = elim order_delay [ none ↦ 600 | some delay ↦ delay ];
        },
      )

unfoldable pub init_result : Option ℕ → World → Result (Option PublishApp × World)
init_result order_delay w = do
  started ← init_order order_delay w
  ok (started.0, record started.1 { job = record started.1.job { status = 3 } })

-- `task_over` after the run; without an order it needs no app
unfoldable pub jar_over : ℕ → ℕ → ℕ → Option PublishApp → World → World × Bool
jar_over status deployed hosts none w =
    (record w { job = record w.job { status = status } }, deployed == hosts)
jar_over status deployed hosts (some app) w = jar_task_over "update" status deployed hosts app w

-- the status of a run that neither failed nor missed a host it was sent to
unfoldable pub jar_result : List Bool → ℕ → ℕ → ℕ
jar_result step_status deployed hosts =
    let base = if all (λ b. b) step_status then 1 else 2 in
    if ltb deployed hosts then base + 10 else base

-- JarDeploy.run. The handler of an exception itself raises, since `json.dumps` takes no class as a
-- key.
unfoldable pub jar_run :
    Result Playbook
    → List Bool
    → String
    → List String
    → List String
    → Option PublishApp
    → Site
    → Result Site
jar_run playbook step_status src_tag target_hosts hosts pub_app s = elim playbook [
  | err e ↦ err type_error
  | ok res ↦
      let host_deployed = distinct target_hosts in
      let deployed = length host_deployed in
      let failed = jar_over 2 deployed (length hosts) pub_app s.world in
      let status = jar_result step_status deployed (length hosts) in
      let done = jar_over status deployed (length hosts) pub_app s.world in
      let is_new = all (λ b. b) step_status && deployed == length hosts in
      ok (
        if res.failed || res.unreachable
        then record s { world = failed.0; batch = none }
        else record s {
          world = done.0;
          version = if is_new then src_tag else s.version;
          batch = if done.1 then none else some host_deployed;
          over = true;
        })
]

unfoldable pub web_over : ℕ → Option PublishApp → World → World
web_over status none w = record w { job = record w.job { status = status } }
web_over status (some app) w = web_task_over status app w

-- WebDeploy.run, which sends no hosts to the cache and takes no partial results
unfoldable pub web_run :
    Result Playbook → List Bool → String → Option PublishApp → Site → Result Site
web_run playbook step_status src_tag pub_app s = elim playbook [
  | err e ↦ err type_error
  | ok res ↦
      let success = all (λ b. b) step_status in
      ok (
        if res.failed || res.unreachable
        then record s { world = web_over 2 pub_app s.world }
        else record s {
          world = web_over (if success then 1 else 2) pub_app s.world;
          version = if success then src_tag else s.version;
          over = true;
        })
]
