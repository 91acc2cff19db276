-- ===== src/Launch/Handle.antt =====
-- app_deploy_handle and deploy_handle of apps/deploy/ext_func.py. Copies of rows in Elasticsearch are
-- left out: their exceptions are swallowed.
use Prim.Native.String.{◌++◌ as append}
use devops_backend.Prelude.{
  ℕ, suc, String, Bool, true, Option, none, some, List, [], ◌∷◌, ◌++◌, map, ◌==◌, text_key,
  number_key, if◌then◌else◌, any, contains, ltb,
}
use devops_backend.Outcome.{Result, ok, err, ◌>>=◌, integrity_error}
use devops_backend.Guards.Branch.{is_k8s_server}
use devops_backend.Launch.Model.{
  LaunchApp, LaunchJob, LaunchDb, LaunchRequest, Services, ClusterRow, YamlReply, HostPayload, Task,
  deploy_to_k8s, deploy_to_hosts,
}
use devops_backend.Launch.Payload.{host_payload}

-- `yaml.get('ecode', 500) > 399`
unfoldable pub template_failed : YamlReply → Bool
template_failed yaml = elim yaml.ecode [ none ↦ true | some ecode ↦ ltb 399 ecode ]

unfoldable pub job_key : Services → LaunchRequest → String
job_key services request = suffix request.modules
  where
    base : String
    base = append (services.number_text request.appinfo_id) (append "-" services.stamp)

    suffix : Option String → String
    suffix none = base
    suffix (some modules) = if modules == "" then base else append base (append "-" modules)

unfoldable pub new_job : Services → LaunchRequest → LaunchDb → LaunchJob
new_job services request db = record {
  id = db.next_id;
  uniq_id = job_key services request;
  order_id = request.order_id;
  appinfo_id = request.appinfo_id;
  status = 0;
  image = request.image;
  kubernetes = request.kubernetes;
  deploy_type = request.deploy_type;
  modules = request.modules;
  batch_uuid = request.batch_uuid;
}

-- an insert into DeployJob, whose `uniq_id` is unique
unfoldable pub insert_job : LaunchJob → LaunchDb → Result LaunchDb
insert_job job db =
    if any (λ j. j.uniq_id == job.uniq_id) db.jobs
    then err integrity_error
    else ok (record db { next_id = suc db.next_id; jobs = job ∷ db.jobs })

-- `ClusterRow.objects.filter(kubernetes_id__in=targets).update(online=9)`
unfoldable pub mark_clusters : List ℕ → LaunchDb → LaunchDb
mark_clusters targets db = record db { deploys = map marked db.deploys }
  where
    marked : ClusterRow → ClusterRow
    marked d = if contains targets d.kubernetes_id then record d { online = 9 } else d

-- an application that was taken offline is online again
unfoldable pub mark_online : LaunchApp → LaunchDb → LaunchDb
mark_online app db =
    if app.online == 10
    then record db {
      apps = map (λ a. if a.info.id == app.info.id then record a { online = 1 } else a) db.apps;
    }
    else db

unfoldable pub queue_task : Task → LaunchDb → LaunchDb
queue_task t db = record db { tasks = db.tasks ++ t ∷ [] }

-- the new job with True, or False with a message
pub data Launched : Type 0 where
  launched : LaunchJob → Launched
  refused : Launched

-- the branch for Kubernetes, which catches every exception; `before` is the savepoint
unfoldable pub launch_on_k8s :
    Services → LaunchDb → LaunchApp → LaunchJob → LaunchDb → LaunchDb × Launched
launch_on_k8s services before app job db = elim (services.generate app job.image) [
  | err e ↦ (before, refused)
  | ok yaml ↦ if template_failed yaml then (before, refused) else (
    queue_task (deploy_to_k8s job.id yaml true) (mark_clusters job.kubernetes (mark_online app db)),
    launched job,
  )
]

-- the branch for hosts, whose exceptions pass
unfoldable pub launch_on_hosts :
    Services → LaunchApp → LaunchJob → LaunchDb → Result (LaunchDb × Launched)
launch_on_hosts services app job db = host_payload services app job.id job.image >>= λ payload.
    ok (queue_task (deploy_to_hosts payload) db, launched job)

-- `@transaction.atomic`: an exception leaves the rows as they were
unfoldable pub app_deploy_handle :
    Services → LaunchRequest → LaunchApp → LaunchDb → LaunchDb × Result Launched
app_deploy_handle services request app db =
    if services.is_valid request
    then committed (insert_job job db >>= λ saved. handled saved)
    else (db, ok refused)
  where
    job : LaunchJob
    job = new_job services request db

    handled : LaunchDb → Result (LaunchDb × Launched)
    handled saved =
        if is_k8s_server app.info
        then ok (launch_on_k8s services db app job saved)
        else launch_on_hosts services app job saved

    committed : Result (LaunchDb × Launched) → LaunchDb × Result Launched
    committed (err e) = (db, err e)
    committed (ok (after, reply)) = (after, ok reply)

-- deploy_handle, which does not look at the `ecode` of the template; its reply is always code 200.
-- It has no transaction of its own, so that the clusters stay marked when the template raises.
unfoldable pub deploy_handle :
    Services → LaunchJob → List ℕ → LaunchApp → LaunchDb → LaunchDb × Result ℕ
deploy_handle services job targets app db =
    if is_k8s_server app.info
    then templated (services.generate app job.image) (mark_clusters targets db)
    else paid (host_payload services app job.id job.image)
  where
    templated : Result YamlReply → LaunchDb → LaunchDb × Result ℕ
    templated (err e) marked = (marked, err e)
    templated (ok yaml) marked = (queue_task (deploy_to_k8s job.id yaml true) marked, ok 200)

    paid : Result HostPayload → LaunchDb × Result ℕ
    paid (err e) = (db, err e)
    paid (ok payload) = (queue_task (deploy_to_hosts payload) db, ok 200)
