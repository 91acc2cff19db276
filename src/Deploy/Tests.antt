-- ===== src/Deploy/Tests.antt =====
-- A job of an order for two clusters, runs on it, and the theorems at it.
use devops_backend.Prelude.{
  first_where, ◌==◌, number_key, ℕ, ◌≡◌, ◌≢◌, ◌↔◌, ◌⊎◌, inr, refl, true, false, none, some, [], ◌∷◌,
  arith, eq_iff, All, get_elem?,
}
use devops_backend.Outcome.{ok, err, type_error}
use devops_backend.Text.{split, last, replace}
use devops_backend.Deploy.Model.{other, ApiReply, CdResult, all_ones, dumps, logs, message_or}
use devops_backend.Deploy.Flow.{
  Kubernetes, Services, Target, get_k8s_client, deploy_cluster, init_stage, run_stage, sync_image,
  image_sync, synced_image, stage_image_sync, generate_deploy_status, and_then,
  stage_get_k8s_client, validate_stat, deploy_flow_standard, app_deploy, deploy_app,
  save_stage_result, stage_app_deploy, stage_app_deploy_status, stage_index,
}
use devops_backend.Deploy.Stages.{planned, HasPassed, deploy_cluster-success}
use devops_backend.Deploy.Orders.{
  DeployJob, PublishApp, PublishOrder, World, find_order, order_status, valid_status,
  update_deploy_job_status, init_deploy_job_status, update_apps, save_order,
}
use devops_backend.Deploy.Verdict.{update_deploy_job_status-order, JudgedAs, GetsStatus}
use devops_backend.Deploy.Clusters.{
  Release, made_with, run, conclude, deploy_clusters, last_name, update_version,
}
use devops_backend.Deploy.Release.{IsDeployable, run-success}
use devops_backend.Deploy.Check.{
  Deployment, items, running, Api, check_deployment, run_check, is_settled, check_rounds,
  check_replica, is_outdated, is_ready_replica, is_ready_pod, image_version, log_text, last_status,
}
use devops_backend.Deploy.Running.{Running, run_check-Running}
use devops_backend.Deploy.Live.{IsChecked, IsLive, run-IsLive}
use devops_backend.Deploy.Voiding.{
  set_status, order_apps, partial_update, Verdict, partial_update-Verdict,
}

abbrev success : ApiReply
success = record { ecode = some 200; message = none; data_field = other; json = "{}" }

abbrev healthy : Api
healthy = record {
  fetch_deployment =
      λ now. some (record { has_annotations = true; has_selector = true; revision = "3" });
  get_replica = λ now. items (
      record {
        revision = "3";
        image = some "harbor/app/web:v2";
        available = 1;
        fully_labeled = 1;
        ready = 1;
      }
      ∷ []);
  get_pods = λ now.
      record {
        phase = running;
        container = some (record { ready = true; is_running = true });
        json = "{}";
      }
      ∷ [];
}

abbrev gone : Api
gone = record healthy { fetch_deployment = λ now. none }

abbrev services : Services
services = record {
  load_config = λ k8s. ok "{}";
  k8s_cli = λ k8s. (true, "");
  harbor_config = ok "{}";
  fetch_tag = λ repo tag. ok success;
  patch_tag = λ repo image tag. ok success;
  fetch_deployment = λ k8s name version. ok success;
  create_namespace_deployment = λ k8s name. ok success;
  update_deployment = λ k8s name version. ok success;
  check_app_deploy = λ k8s name tag. (run_check healthy tag 30 0).0;
}

abbrev registry_down : Services
registry_down = record services { fetch_tag = λ repo tag. err type_error }

abbrev first : Kubernetes
first = record { name = "k1"; api_version = "apps/v1" }

abbrev second : Kubernetes
second = record { name = "k2"; api_version = "apps/v1" }

abbrev target : Target
target = record {
  order_id = "o1";
  environment = "uat";
  deployment_name = "web";
  image_repo = "app/web";
  image_with_tag = "app/web:v2";
  image_tag = "v2";
}

abbrev job : DeployJob
job = record {
  id = 5;
  order_id = "o1";
  appinfo_id = 1;
  status = 0;
  deploy_type = 0;
  modules = "";
  result = none;
}

abbrev deployed_app : PublishApp
deployed_app = record {
  id = 1;
  order_id = "o1";
  appinfo_id = 1;
  status = 0;
  deploy_type = "";
  modules = "";
}

abbrev void_app : PublishApp
void_app = record {
  id = 2;
  order_id = "o1";
  appinfo_id = 2;
  status = 4;
  deploy_type = "";
  modules = "";
}

abbrev order : PublishOrder
order = record { order_id = "o1"; status = 0 }

abbrev world : World
world = record {
  job = job;
  apps = deployed_app ∷ void_app ∷ [];
  orders = order ∷ [];
  cached = none;
  notice_delay = 1;
}

abbrev release : Release
release = record { world = world; version = "v1"; deployed = []; results = []; finished = false }

abbrev deployed : CdResult
deployed = record { status = 1; col_active = "k1"; clusters = [] }

find_order-o1 : find_order "o1" world ≡ some order
unfolding find_order
find_order-o1 = refl

named : target.order_id ≢ ""
named = ground (arith, eq_iff target.order_id "")

gone_deployment : (check_deployment gone 5 0).0 ≡ none
unfolding check_deployment
gone_deployment = refl

sync_down : sync_image registry_down "app/web" (synced_image target) "v2" ≡ err type_error
unfolding sync_image
sync_down = refl

deploy_cluster-success_example :
    ((deploy_cluster services target first).status ≡ 1)
    ↔ (((get_k8s_client services first).stat ≡ 1) × All HasPassed (planned services first target))
deploy_cluster-success_example = deploy_cluster-success services first target

run-success_example :
    ((run services none target (first ∷ second ∷ []) release).1 ≡ ok tt)
    × ((All (IsDeployable services (made_with job target)) (first ∷ second ∷ [])
          × ((run services none target (first ∷ second ∷ []) release).0.world.job.status ≡ 1)
          × ((run services none target (first ∷ second ∷ []) release).0.version ≡ "v2"))
        ⊎ ((¬ All (IsDeployable services (made_with job target)) (first ∷ second ∷ []))
            × ((run services none target (first ∷ second ∷ []) release).0.world.job.status ≡ 2)
            × ((run services none target (first ∷ second ∷ []) release).0.version ≡ "v1")))
run-success_example =
    run-success services none target first (second ∷ []) release (inr (order, find_order-o1))

update_deploy_job_status-order_example :
    (w' : World) × (status : ℕ) × (a' : PublishApp) × (update_deploy_job_status deployed world
      ≡ (w', ok tt))
    × (find_order "o1" w' ≡ some (record order { status = status }))
    × JudgedAs "o1" w'.apps status
    × (get_elem? w'.apps 0 ≡ some a')
    × GetsStatus job deployed.status deployed_app a'
update_deploy_job_status-order_example =
    update_deploy_job_status-order deployed world order 0 deployed_app named find_order-o1 refl

run_check-Running_example :
    ((run_check healthy (some "v2") 30 0).0.stat ≡ 2)
    ⊎ (((run_check healthy (some "v2") 30 0).0.stat ≡ 1)
        × ((d : Deployment) × ((check_deployment healthy 5 0).0 ≡ some d)
            × Running healthy (some "v2") d))
run_check-Running_example = run_check-Running healthy (some "v2") 30 0

is_checked : IsChecked services (λ k8s. healthy) 30
unfolding IsChecked
is_checked k8s name tag = refl

job_succeeds : (run services none target (first ∷ second ∷ []) release).0.world.job.status ≡ 1
unfolding init_deploy_job_status update_apps save_order order_status valid_status find_order
    update_deploy_job_status run conclude deploy_clusters made_with last_name update_version
    all_ones dumps logs message_or deploy_cluster get_k8s_client stage_image_sync image_sync
    init_stage run_stage sync_image synced_image generate_deploy_status and_then
    stage_get_k8s_client validate_stat deploy_flow_standard app_deploy deploy_app save_stage_result
    stage_app_deploy stage_app_deploy_status stage_index run_check check_deployment is_settled
    check_rounds check_replica is_outdated is_ready_replica is_ready_pod image_version log_text
    last_status split last replace
job_succeeds = refl

run-IsLive_example : All (λ k. IsLive healthy (some "v2")) (first ∷ second ∷ [])
run-IsLive_example =
    run-IsLive services (λ k8s. healthy) 30 none target first (second ∷ []) release is_checked
      (inr (order, find_order-o1)) job_succeeds

saved_app :
    first_where (λ b. b.id == 1) (set_status 1 4 world).apps
    ≡ some (record deployed_app { status = 4 })
unfolding set_status
saved_app = refl

saved_order : find_order "o1" (set_status 1 4 world) ≡ some order
unfolding set_status find_order
saved_order = refl

partial_update-Verdict_example :
    (w' : World) × (partial_update 1 4 (λ id. 1 ∷ 2 ∷ []) world ≡ ok w')
    × ((after : ℕ) × (find_order "o1" w' ≡ some (record order { status = after }))
        × Verdict 1 (order_apps (1 ∷ 2 ∷ []) (set_status 1 4 world)) 0 after)
partial_update-Verdict_example =
    partial_update-Verdict 1 (λ id. 1 ∷ 2 ∷ []) world (record deployed_app { status = 4 }) order
      saved_app saved_order
