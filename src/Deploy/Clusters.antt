-- ===== src/Deploy/Clusters.antt =====
-- The deployment of a job to all its clusters: K8sDeploys.run of qtasks/tasks_deploy.py, up to the
-- notice of the result.
use devops_backend.Prelude.{
  ℕ, String, Bool, true, Option, List, [], ◌∷◌, ◌++◌, map, ◌==◌, text_key, number_key,
  if◌then◌else◌,
}
use devops_backend.Outcome.{Result, ok, err}
use devops_backend.Deploy.Model.{Cluster, CdResult, all_ones}
use devops_backend.Deploy.Flow.{Kubernetes, Services, Target, deploy_cluster}
use devops_backend.Deploy.Orders.{
  DeployJob, World, init_deploy_job_status, update_deploy_job_status,
}

-- a KubernetesDeploy row of the application
pub record KubernetesDeploy : Type 0 where
  pub kubernetes : String
  pub version : String

-- what `run` writes besides the job and its order: the versions, the result rows, the end mark
pub record Release : Type 0 where
  pub world : World
  pub version : String
  pub deployed : List KubernetesDeploy
  pub results : List CdResult
  pub finished : Bool

abbrev pub Ended : Type 0
Ended = Release × Result Unit

-- the job's order as K8sDeploy sees it
unfoldable pub made_with : DeployJob → Target → Target
made_with job t = record t { order_id = job.order_id }

-- `k8s_deploy_obj.update(version=self.image_tag)` after a success
unfoldable pub update_version : String → Cluster → List KubernetesDeploy → List KubernetesDeploy
update_version image_tag c rows =
    if c.status == 1
    then map (λ d. if d.kubernetes == c.name then record d { version = image_tag } else d) rows
    else rows

-- the loop over the clusters, each of which has an entry of its own, their names being unique
unfoldable pub deploy_clusters :
    Services
    → Target
    → List Kubernetes
    → List KubernetesDeploy
    → List Cluster × List KubernetesDeploy
deploy_clusters services t [] rows = ([], rows)
deploy_clusters services t (k8s ∷ rest) rows =
    let c = deploy_cluster services t k8s in
    let later = deploy_clusters services t rest (update_version t.image_tag c rows) in
    (c ∷ later.0, later.1)

-- the name that `col_active` keeps: that of the last cluster
unfoldable pub last_name : List Kubernetes → String
last_name [] = ""
last_name (k8s ∷ rest) = elim rest [ [] ↦ k8s.name | _ ∷ _ ↦ last_name rest ]

-- the end of `run`, after the loop
unfoldable pub conclude : Target → List Kubernetes → List Cluster → Release → Ended
conclude t k8s_clusters clusters r =
    let success = all_ones (map (λ c. c.status) clusters) in
    let cd_result : CdResult = record {
      status = if success then 1 else 2;
      col_active = last_name k8s_clusters;
      clusters = clusters;
    } in
    let w = record r.world { notice_delay = if success then r.world.notice_delay else 50 } in
    let updated = update_deploy_job_status cd_result w in
    let released = record r {
      world = updated.0;
      version = if success then t.image_tag else r.version;
    } in
    elim updated.1 [
      | err e ↦ (released, err e)
      | ok u ↦ (record released { results = r.results ++ cd_result ∷ []; finished = true }, ok tt)
    ]

unfoldable pub run : Services → Option ℕ → Target → List Kubernetes → Release → Ended
run services order_delay t k8s_clusters r =
    let started = init_deploy_job_status order_delay r.world in
    let deployed = deploy_clusters services (made_with r.world.job t) k8s_clusters r.deployed in
    elim started.1 [
      | err e ↦ (record r { world = started.0 }, err e)
      | ok u ↦
          conclude t k8s_clusters deployed.0 (record r { world = started.0; deployed = deployed.1 })
    ]
