-- ===== src/Guards/Tests.antt =====
-- A server of an environment with tickets, and requests for it.
use devops_backend.Prelude.{List, ℕ, ◌≡◌, ◌↔◌, refl, true, false, none, some, [], ◌∷◌}
use devops_backend.Outcome.{ok}
use devops_backend.Text.{split, has_prefix, strip_end, last}
use devops_backend.Guards.Branch.{
  ci, cd, jenkins_callback, Environment, AppInfo, BranchRequest, refuse, proceed, check_branch,
  allowed_branches, find_appinfo, appinfo_key, is_k8s_server, has_target, http_status, check_app,
  branch_allow_check,
}
use devops_backend.Guards.Release.{
  time_comp, Order, Platform, DeployRequest, on_time, check_order, check_clusters, check_template,
  deploy_allow_check,
}
use devops_backend.Guards.Allowed.{Allowed, branch_allow_check-Allowed}
use devops_backend.Guards.Expiry.{is_open, expire, expire_all, Paired, Expires, expire_all-Paired}
use devops_backend.Guards.Timely.{Deployable, deploy_allow_check-Deployable}

abbrev production : Environment
production = record {
  allow_ci_branch = [];
  allow_cd_branch = "release-*" ∷ [];
  ticket_on = true;
  skipped_products = [];
}

abbrev web : AppInfo
web = record {
  id = 1;
  environment_id = 2;
  allow_ci_branch = [];
  allow_cd_branch = [];
  environment = production;
  region = "r";
  product = "p";
  category = "category.server";
  is_k8s = "k8s";
  kubernetes = 4 ∷ [];
  hosts = [];
}

abbrev request : BranchRequest
request = record { commit_name = some "release-2"; pk = none; appinfo_id = some 1; jobid = none }

abbrev unnamed : BranchRequest
unnamed = record request { commit_name = none }

abbrev failed_code : ℕ
failed_code = 50000

abbrev server_error : ℕ
server_error = 500

abbrev order : Order
order = record { order_id = "o1"; status = 0; expect_time = some 100 }

abbrev platform : Platform
platform = record {
  now = 130;
  publish_time_diff = some (some 60);
  template_ecode = λ app. some 200;
  k8s_cli = λ k8s. true;
}

abbrev deploy : DeployRequest
deploy = record { from_order = true; order_id = some "o1"; appinfo_id = some 1; image = "web:v2" }

let_through : branch_allow_check cd [] (web ∷ []) request ≡ ok proceed
unfolding branch_allow_check check_app check_branch allowed_branches has_target has_prefix strip_end
    is_k8s_server find_appinfo split last appinfo_key
let_through = refl

-- an entry without a star lets a longer name through
begins_master : check_branch "master-hotfix" ("master" ∷ []) ≡ true
unfolding check_branch has_prefix strip_end
begins_master = refl

-- the default of both lists, which is empty, lets no branch through
default_list : check_branch "master" (allowed_branches ci web) ≡ false
unfolding check_branch allowed_branches
default_list = refl

unnamed_refused : branch_allow_check jenkins_callback [] [] unnamed ≡ ok (refuse 50000 500)
unfolding branch_allow_check http_status
unnamed_refused = refl

deploys : deploy_allow_check platform (web ∷ []) (order ∷ []) deploy ≡ ok proceed
unfolding deploy_allow_check check_order on_time time_comp check_template check_clusters
    is_k8s_server find_appinfo split last
deploys = refl

branch_allow_check-Allowed_example :
    (branch_allow_check cd [] (web ∷ []) request ≡ ok proceed) ↔ Allowed cd [] (web ∷ []) request
branch_allow_check-Allowed_example = branch_allow_check-Allowed cd [] (web ∷ []) request

deploy_allow_check-Deployable_example : Deployable platform (web ∷ []) (order ∷ []) deploy
deploy_allow_check-Deployable_example =
    deploy_allow_check-Deployable platform (web ∷ []) (order ∷ []) deploy deploys

abbrev late : Order
late = record { order_id = "o2"; status = 0; expect_time = some 20 }

abbrev untimed : Order
untimed = record { order_id = "o3"; status = 3; expect_time = none }

abbrev listed : List Order
listed = order ∷ late ∷ []

abbrev listed_after : List Order
listed_after = order ∷ record late { status = 4 } ∷ []

expires : expire_all 130 (some 60) listed ≡ ok listed_after
unfolding expire_all expire is_open time_comp
expires = refl

waits : is_open untimed ≡ true
unfolding is_open
waits = refl

expire_all-Paired_example : Paired (Expires 130 (some 60)) listed listed_after
expire_all-Paired_example = expire_all-Paired 130 (some 60) listed listed_after expires
