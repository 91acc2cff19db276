-- ===== src/Build/StartTests.antt =====
-- Requests for builds at concrete values.
use devops_backend.Prelude.{◌≡◌, ◌⊎◌, refl, true, false, none, some, [], arith, eq_iff}
use devops_backend.Outcome.{ok, err, Error}
use devops_backend.Build.Jenkins.{triple}
use devops_backend.Build.Handle.{
  BuildApp, BuildDb, BuildWorld, StartRequest, declined, app_build_handle, new_row,
}
use devops_backend.Build.Kept.{
  BuildOutcome, app_build_handle-outcome, app_build_handle-no_kubernetes,
}
use devops_backend.Text.{last, replace, split}

abbrev world : BuildWorld
world = record {
  configured = ok tt;
  stamp = "20240101120000";
  number_text = λ n. "8";
  job_exists = ok true;
  make_job = ok tt;
  in_queue = ok false;
  next_number = ok 8;
  harbor_cli = λ repo. ok true;
  remote_hosts = some "10.0.0.9";
  is_valid = λ row. true;
  still_exists = ok true;
  create_again = ok tt;
  parameters = ok tt;
  reply = triple true (some 31) "";
}

abbrev jar : BuildApp
jar = record {
  id = 7;
  name = "cart.web";
  category = "category.server";
  is_k8s = "nonk8s";
  namespace = "uat-shop";
  cluster = none;
}

abbrev front : BuildApp
front = record jar { category = "category.front" }

abbrev commit : StartRequest
commit = record {
  short_id = some "ab12";
  commit_tag = some ("heads", "master");
  modules = "web:dist";
  custom_tag = none;
  is_deploy = false;
  batch_uuid = none;
}

abbrev no_builds : BuildDb
no_builds = record { next_build_id = 1; rows = []; bindings = [] }

front_image :
    (new_row front commit 8 "8_2024_ab12" no_builds).image ≡ "uat-shop/cart-web:8_2024_ab12_dist"
unfolding new_row replace last split
front_image = refl

app_build_handle-no_kubernetes_example :
    ((app_build_handle world jar commit no_builds).0 ≡ no_builds)
    × (((app_build_handle world jar commit no_builds).1 ≡ ok declined)
        ⊎ ((e : Error) × ((app_build_handle world jar commit no_builds).1 ≡ err e)))
unfolding last split
app_build_handle-no_kubernetes_example =
    app_build_handle-no_kubernetes world jar commit no_builds refl
      (ground (arith, eq_iff jar.is_k8s "k8s"))

app_build_handle-outcome_example :
    BuildOutcome world no_builds (app_build_handle world front commit no_builds)
app_build_handle-outcome_example = app_build_handle-outcome world front commit no_builds
