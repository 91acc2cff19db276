-- ===== src/Access/Tests.antt =====
-- Requests of a developer to a view of three entries.
use devops_backend.Prelude.{String, ◌≡◌, ◌↔◌, refl, true, false, none, some, List, [], ◌∷◌}
use devops_backend.Outcome.{ok}
use devops_backend.Access.Rbac.{User, account, Request, View, url_whitelist, decide}
use devops_backend.Access.Grant.{Granted, decide-Granted}

abbrev view : View
view = record {
  perms_map =
      (record { method = "*"; code = "admin" } ∷ [])
      ∷ (record { method = "get"; code = "app_list" } ∷ [])
      ∷ (record { method = "post_deploy"; code = "app_deploy" } ∷ [])
      ∷ [];
  action = some "deploy";
}

abbrev developer : User
developer = account (record {
  id = 3;
  is_superuser = false;
  roles = record { name = "dev"; methods = "app_deploy" ∷ [] } ∷ [];
})

abbrev deploy : Request
deploy = record {
  lower = "post";
  path_info = "/api/deploy/";
  query_keys = [];
  user = developer;
  user_agent = none;
}

abbrev urls : List String
urls = "/api/login/feishu/" ∷ "/api/login/gitlab/" ∷ []

configured : url_whitelist none ≡ ok urls
unfolding url_whitelist
configured = refl

decide-Granted_example : (decide none deploy view ≡ ok true) ↔ Granted urls deploy view
decide-Granted_example = decide-Granted none deploy view urls configured
