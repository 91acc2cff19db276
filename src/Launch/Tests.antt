-- ===== src/Launch/Tests.antt =====
-- Deployments at concrete data: an application on two clusters, the first of which it shares.
use devops_backend.Prelude.{ℕ, ◌≡◌, refl, true, false, none, some, [], ◌∷◌, get_elem?, ◌≢◌, ◌⊎◌}
use devops_backend.Outcome.{ok}
use devops_backend.Guards.Branch.{
  Environment, AppInfo, is_k8s_server, branch_allow_check, appinfo_key, find_appinfo, check_app,
  check_branch, allowed_branches, has_target, http_status,
}
use devops_backend.Launch.Model.{LaunchApp, LaunchJob, LaunchDb, LaunchRequest, Services, get_app}
use devops_backend.Launch.Payload.{dest_path}
use devops_backend.Launch.Handle.{
  app_deploy_handle, new_job, insert_job, launch_on_k8s, template_failed, mark_clusters,
  mark_online, queue_task, job_key,
}
use devops_backend.Launch.Views.{
  BuiltJob, respond, create_deploy_job, GuardRows, CreateRequest, create, create_guards,
  branch_request, app_infos, deploy_request, check_user_deploy_perm, image_text, module_name,
  prepared,
}
use devops_backend.Launch.Reset.{
  ResetDb, ResetRequest, reset_status, reset_status-Resets, Resets, IsScope, Filters,
}
use devops_backend.Text.{
  last, split, lower, translate, replace, replace_from, has_prefix, strip_end,
}
use devops_backend.Launch.Whole.{Refused, Begun, create-all_or_nothing}
use devops_backend.Guards.Release.{deploy_allow_check, check_clusters, check_template}

abbrev uat : Environment
uat = record {
  allow_ci_branch = "*" ∷ [];
  allow_cd_branch = "release-*" ∷ [];
  ticket_on = false;
  skipped_products = [];
}

abbrev shop_info : AppInfo
shop_info = record {
  id = 7;
  environment_id = 2;
  allow_ci_branch = [];
  allow_cd_branch = [];
  environment = uat;
  region = "cn";
  product = "shop";
  category = "category.server";
  is_k8s = "k8s";
  kubernetes = 1 ∷ 2 ∷ [];
  hosts = [];
}

abbrev shop : LaunchApp
shop = record {
  info = shop_info;
  online = 10;
  appid = "cn.shop.cart.web";
  name = "web";
  project = "Cart.V2";
  environment_name = "UAT";
}

abbrev shop_db : LaunchDb
shop_db = record {
  next_id = 41;
  apps = shop ∷ [];
  jobs = [];
  deploys =
      record { appinfo_id = 7; kubernetes_id = 1; online = 1 }
      ∷ record { appinfo_id = 8; kubernetes_id = 1; online = 1 }
      ∷ record { appinfo_id = 8; kubernetes_id = 3; online = 1 }
      ∷ [];
  tasks = [];
}

abbrev services_with : ℕ → Services
services_with ecode = record {
  is_valid = λ r. true;
  stamp = "20240101120000";
  generate = λ a i. ok (record { ecode = some ecode; apm = false });
  remote_hosts = some "10.0.0.9:2222";
  deploy_path = λ flag. none;
  playbook_path = "/playbooks";
  number_text = λ n. "7";
}

abbrev to_clusters : LaunchRequest
to_clusters = record {
  appinfo_id = 7;
  order_id = none;
  image = some "uat-cart/web:12";
  kubernetes = 1 ∷ 2 ∷ [];
  modules = none;
  batch_uuid = none;
  rollback = false;
  deploy_type = 0;
}

dest_of_shop : dest_path "/data/web" shop ≡ "/data/web/uat/cart-v2/web"
unfolding dest_path lower translate replace replace_from
dest_of_shop = refl

abbrev built : BuiltJob
built = record {
  id = 5;
  appinfo_id = 7;
  image = some "uat-cart/web:12";
  modules = none;
  batch_uuid = none;
}

abbrev running_job : LaunchJob
running_job = record {
  id = 3;
  uniq_id = "7-1";
  order_id = none;
  appinfo_id = 7;
  status = 3;
  image = some "uat-cart/web:12";
  kubernetes = 1 ∷ [];
  deploy_type = 0;
  modules = none;
  batch_uuid = some "b";
}

abbrev reset_db : ResetDb
reset_db = record { publish_apps = []; reset_jobs = running_job ∷ [] }

abbrev by_pk : ResetRequest
by_pk = record { publish_app = none; pk = 3 }

reset_status-Resets_example :
    (((reset_status by_pk reset_db).0 ≡ reset_db) × ((reset_status by_pk reset_db).1 ≢ ok 20000))
    ⊎ ((f : Filters) × (k : LaunchJob) × ((reset_status by_pk reset_db).1 ≡ ok 20000)
        × IsScope by_pk reset_db (reset_status by_pk reset_db).0 f
        × (get_elem? (reset_status by_pk reset_db).0.reset_jobs 0 ≡ some k)
        × Resets f running_job k)
reset_status-Resets_example = reset_status-Resets by_pk reset_db 0 running_job refl

abbrev guard_rows : GuardRows
guard_rows = record {
  build_jobs = [];
  orders = [];
  platform = record {
    now = 0;
    publish_time_diff = none;
    template_ecode = λ a. some 200;
    k8s_cli = λ k. true;
  };
}

abbrev of_release : CreateRequest
of_release = record { commit_name = some "release-2"; launch = to_clusters }

create-all_or_nothing_example :
    Refused shop_db (create guard_rows (services_with 200) of_release shop_db)
    ⊎ (((create guard_rows (services_with 200) of_release shop_db).1 ≡ ok (respond 20000 200))
        × Begun guard_rows of_release shop_db
            (create guard_rows (services_with 200) of_release shop_db).0)
create-all_or_nothing_example =
    create-all_or_nothing guard_rows (services_with 200) of_release shop_db

created_code : (create guard_rows (services_with 200) of_release shop_db).1 ≡ ok (respond 20000 200)
unfolding create create_guards branch_allow_check branch_request appinfo_key find_appinfo app_infos
    check_app check_branch allowed_branches has_prefix strip_end has_target is_k8s_server last split
    deploy_allow_check deploy_request http_status check_clusters check_template app_deploy_handle
    insert_job template_failed launch_on_k8s mark_clusters mark_online new_job queue_task job_key
    get_app check_user_deploy_perm create_deploy_job image_text module_name prepared
created_code = refl
