-- ===== src/Deploy/Flow.antt =====
-- The stages of a deployment to one cluster: class K8sDeploy of qtasks/tasks_deploy.py. The API of
-- the cluster, the image registry and the check of the pods are parameters.
use devops_backend.Prelude.{
  ℕ, String, Bool, Option, none, some, List, [], ◌∷◌, ◌++◌, map, ◌==◌, text_key, number_key,
  if◌then◌else◌, index_of, set, ltb, contains,
}
use devops_backend.Outcome.{Result, ok, err, ◌>>=◌, value_error, key_error, assertion_error}
use devops_backend.Text.{replace}
use devops_backend.Deploy.Model.{
  missing, ApiReply, dumps, json_text, plain_text, reply, raised, logs, Stat, Stage, Cluster,
  all_ones,
}

pub record Kubernetes : Type 0 where
  pub name : String
  pub api_version : String

-- what a deployment calls: an `err` is an exception of the call
pub record Services : Type 0 where
  pub load_config : Kubernetes → Result String
  pub k8s_cli : Kubernetes → Bool × String
  pub harbor_config : Result String
  pub fetch_tag : String → String → Result ApiReply
  pub patch_tag : String → String → String → Result ApiReply
  pub fetch_deployment : Kubernetes → String → String → Result ApiReply
  pub create_namespace_deployment : Kubernetes → String → Result ApiReply
  pub update_deployment : Kubernetes → String → String → Result ApiReply
  pub check_app_deploy : Kubernetes → String → Option String → Stat

-- the job and the image that K8sDeploy is made with
pub record Target : Type 0 where
  pub order_id : String
  pub environment : String
  pub deployment_name : String
  pub image_repo : String
  pub image_with_tag : String
  pub image_tag : String

-- K8sDeploy's own state, the stages of its cluster in cd_result, and those that the job's row and
-- the cache show
pub record Flow : Type 0 where
  pub stage_list : List String
  pub cur_stage : Option String
  pub stages : List Stage
  pub saved : List Stage

abbrev pub new_flow : Flow
new_flow = record { stage_list = []; cur_stage = none; stages = []; saved = [] }

-- a method that changes the state and may raise
abbrev pub Step : Type 0
Step = Flow × Result Unit

-- the next call of a method, which an exception skips
unfoldable pub and_then : Step → (Flow → Step) → Step
and_then s next = elim s.1 [ ok u ↦ next s.0 | err e ↦ (s.0, err e) ]

unfoldable pub validate_stat : ℕ → Flow → Step
validate_stat stat f = if stat == 1 then (f, ok tt) else (f, err assertion_error)

unfoldable pub init_stage : String → Flow → Flow
init_stage stage_name f =
    let stages = f.stages ++ record { name = stage_name; status = 0; logs = "" } ∷ [] in
    record {
      stage_list = f.stage_list ++ stage_name ∷ [];
      cur_stage = some stage_name;
      stages = stages;
      saved = stages;
    }

-- the index of the current stage
unfoldable pub stage_index : Flow → Result ℕ
stage_index f = elim f.cur_stage [
  | none ↦ err value_error
  | some stage_name ↦ elim (index_of f.stage_list stage_name) [
    | none ↦ err value_error
    | some i ↦ ok i
  ]
]

abbrev pub put_stage : Stat → ℕ → String → Flow → Flow
put_stage o i text f =
    let stages =
      set f.stages i (record { name = current f.cur_stage; status = o.stat; logs = text }) in
    record f { stages = stages; saved = stages }
  where
    current : Option String → String
    current none = ""
    current (some stage_name) = stage_name

unfoldable pub save_stage_result : Stat → Flow → Step
save_stage_result o f = elim (stage_index f) [
  | err e ↦ (f, err e)
  | ok i ↦ elim (logs o.ret) [ err e ↦ (f, err e) | ok text ↦ (put_stage o i text f, ok tt) ]
]

unfoldable pub get_k8s_client : Services → Kubernetes → Stat
get_k8s_client services k8s = elim (services.load_config k8s) [
  | err e ↦ record {
    stat = 2;
    ret = reply (record {
      ecode = none;
      message = some "{'err': str(e)}";
      data_field = missing;
      json = "";
    });
  }
  | ok k8s_config ↦
      let cli = services.k8s_cli k8s in
      if cli.0 then record { stat = 1; ret = plain_text "" } else record {
        stat = 2;
        ret =
            reply (record { ecode = none; message = some cli.1; data_field = missing; json = "" });
      }
]

unfoldable pub stage_get_k8s_client : Stat → Flow → Step
stage_get_k8s_client o f =
    and_then (if o.stat == 2 then save_stage_result o (init_stage "连接K8S集群" f) else (f, ok tt))
      (validate_stat o.stat)

-- `res.get('ecode', default) > 399`
abbrev pub is_failed : ℕ → ApiReply → Bool
is_failed default res = ltb 399 (elim res.ecode [ none ↦ default | some code ↦ code ])

-- the body of the `try` of image_sync
unfoldable pub sync_image : Services → String → String → String → Result Stat
sync_image services repo image tag = do
  harbor ← services.harbor_config
  found ← services.fetch_tag repo tag
  if is_failed 500 found
      then patched (services.patch_tag repo image tag)
      else (dumps found >>= λ text. ok (record { stat = 1; ret = json_text found }))
  where
    synced : ApiReply → Result Stat
    synced res = elim res.data_field [
      | missing ↦ err key_error
      | _ ↦ ok (record { stat = 1; ret = json_text res })
    ]

    patched : Result ApiReply → Result Stat
    patched call = do
      res ← call
      if is_failed 500 res
          then (dumps res >>= λ text. ok (record { stat = 2; ret = json_text res }))
          else synced res

unfoldable pub image_sync : Services → String → String → String → Stat
image_sync services repo image tag = elim (sync_image services repo image tag) [
  | ok o ↦ o
  | err e ↦ record { stat = 2; ret = raised }
]

-- the body of the `try` of app_deploy
unfoldable pub deploy_app : Services → Kubernetes → String → Result Stat
deploy_app services k8s deployment_name =
    services.fetch_deployment k8s deployment_name k8s.api_version >>= λ found.
    if is_failed 200 found
    then (services.create_namespace_deployment k8s deployment_name >>= λ ret. ok (judged ret))
    else (services.update_deployment k8s deployment_name k8s.api_version >>= λ ret. ok (judged ret))
  where
    judged : ApiReply → Stat
    judged ret = record { stat = if is_failed 200 ret then 2 else 1; ret = reply ret }

unfoldable pub app_deploy : Services → Kubernetes → String → Stat
app_deploy services k8s deployment_name = elim (deploy_app services k8s deployment_name) [
  | ok o ↦ o
  | err e ↦ record {
    stat = 2;
    ret = reply (record { ecode = none; message = some "str(e)"; data_field = missing; json = "" });
  }
]

-- a stage, its result and the test of its status
unfoldable pub run_stage : String → Stat → Flow → Step
run_stage stage_name o f =
    and_then (save_stage_result o (init_stage stage_name f)) (validate_stat o.stat)

unfoldable pub synced_image : Target → String
synced_image t =
    if t.environment == "pro" then replace "pro-" "uat-" t.image_with_tag else t.image_with_tag

unfoldable pub stage_image_sync : Services → Target → Flow → Step
stage_image_sync services t f =
    if t.order_id == ""
    then (f, ok tt)
    else run_stage "镜像同步" (image_sync services t.image_repo (synced_image t) t.image_tag) f

unfoldable pub stage_app_deploy : Services → Kubernetes → Target → Flow → Step
stage_app_deploy services k8s t f = run_stage "应用部署" (app_deploy services k8s t.deployment_name) f

-- `verify_image_tag and self.image_tag or None`
abbrev pub checked_tag : Target → Option String
checked_tag t = if t.image_tag == "" then none else some t.image_tag

unfoldable pub stage_app_deploy_status : Services → Kubernetes → Target → Flow → Step
stage_app_deploy_status services k8s t f =
    run_stage "状态检测" (services.check_app_deploy k8s t.deployment_name (checked_tag t)) f

unfoldable pub deploy_flow_standard : Services → Kubernetes → Target → Flow → Step
deploy_flow_standard services k8s t f =
    and_then (and_then (stage_image_sync services t f) (stage_app_deploy services k8s t))
      (stage_app_deploy_status services k8s t)

unfoldable pub generate_deploy_status : List Stage → ℕ
generate_deploy_status stages =
    let k8s_status = map (λ s. s.status) stages in
    if all_ones k8s_status then 1 else if contains k8s_status 4 then 4 else 2

-- one round of the loop of K8sDeploys.run: an exception ends the stages and is logged
unfoldable pub deploy_cluster : Services → Target → Kubernetes → Cluster
deploy_cluster services t k8s =
    let connected = stage_get_k8s_client (get_k8s_client services k8s) new_flow in
    let flow = (and_then connected (deploy_flow_standard services k8s t)).0 in
    record { name = k8s.name; stages = flow.stages; status = generate_deploy_status flow.stages }
