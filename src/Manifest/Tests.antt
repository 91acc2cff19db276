-- ===== src/Manifest/Tests.antt =====
-- A template at concrete values: a flag of the module, a section of the project and a quoted name.
use devops_backend.Prelude.{
  ℕ, String, ◌≡◌, refl, true, false, none, some, List, [], ◌∷◌, arith, get_elem?, any, IsDistinct,
  text_key, if◌then◌else◌, eq_iff,
}
use devops_backend.Shared.Dict.{lookup, keys, put_all, put}
use devops_backend.Manifest.Merge.{
  flag, section, AppTemplate, merged, strip_on, truthy_at, project_pick, custom_section,
  module_loop, app_loop, project_loop,
}
use devops_backend.Manifest.Precedence.{or_else, then_pick, turns_on, lookup-merged}
use devops_backend.Manifest.Env.{
  EnvVar, AppNames, plain_var, env_dict, env_list, with_value, text, clean_var, from_or_value,
  unquote, rstrip, lstrip,
}
use devops_backend.Manifest.Owned.{env_dict-platform}
use devops_backend.Manifest.Generate.{
  Source, PodDeployment, template_generate, template_generate-selects, after_scheme, Body, render,
  resources, pairs, variables, when_has, resources_at, body_at, pairs_at, variables_at,
  extra_containers, before_scheme,
}
use devops_backend.Text.{is_part, split, has_prefix}
use devops_backend.Manifest.Health.{Extra, container_generate}
use devops_backend.Manifest.Pieces.{
  pod_labels, match_labels, annotations, platform_label, add_resources, add_strategy, command_of,
  annotate,
}

abbrev own_template : AppTemplate ℕ
own_template = ("label", section true 1) ∷ ("env", section false 2) ∷ []

abbrev app_template : AppTemplate ℕ
app_template = ("env_on", flag true) ∷ ("env", section false 3) ∷ []

abbrev project_template : AppTemplate ℕ
project_template = ("resources", section false 4) ∷ ("env", section true 5) ∷ []

abbrev environment_template : AppTemplate ℕ
environment_template = ("resources", section false 6) ∷ []

resources_of_environment :
    lookup "resources"
      (merged own_template app_template (some project_template) environment_template)
    ≡ some (section false 6)
unfolding merged lookup module_loop put app_loop is_part strip_on project_loop project_pick
resources_of_environment = refl

lookup-merged_example :
    lookup "env" (merged own_template app_template (some project_template) environment_template)
    ≡ or_else (then_pick (lookup "env" own_template) custom_section) (
        if any (turns_on app_template "env") app_template
        then truthy_at "env" app_template
        else then_pick (lookup "env" project_template) (project_pick environment_template "env"))
lookup-merged_example =
    lookup-merged "env" own_template app_template environment_template project_template
      (ground arith) (ground arith)

abbrev shop_names : AppNames
shop_names = record {
  timezone = "Asia/Shanghai";
  stamp = "20240101120000";
  product = "shop";
  project = "cart";
  app = "web";
  appid = "cn.shop.cart.web";
  environment = "uat";
  namespace = "uat-shop";
}

abbrev set_twice : List EnvVar
set_twice = plain_var "ENV" "pro" ∷ plain_var "'ENV'" "pro" ∷ []

abbrev env_var : EnvVar
env_var = plain_var "ENV" "uat"

env_dict-platform_example :
    (lookup "ENV" (env_dict shop_names set_twice) ≡ some env_var)
    × IsDistinct (keys (env_dict shop_names set_twice))
env_dict-platform_example = env_dict-platform shop_names set_twice 5 env_var refl

-- with its quotes the name is another one in the dict, and the same one in the container
quoted_name :
    get_elem? (env_list shop_names set_twice) 2 ≡ some (with_value "ENV" (some (text "pro")))
unfolding env_list env_dict put_all put clean_var from_or_value unquote rstrip lstrip
quoted_name = refl

abbrev sections : AppTemplate Body
sections =
    (
      "resources",
      section true (resources (record { key = "limits_cpu"; value = "2"; slot = "" } ∷ [])),
    )
    ∷ ("label", section true (pairs (("app", "other") ∷ ("tier", "back") ∷ [])))
    ∷ ("selector", section true (pairs []))
    ∷ ("prometheus", section true (pairs (("path", "/metrics") ∷ [])))
    ∷ ("env", section true (variables set_twice))
    ∷ []

abbrev no_template : AppTemplate Body
no_template = []

abbrev no_extras : List (Extra String)
no_extras = []

abbrev shop_source : Source String
shop_source = record {
  names = shop_names;
  own = sections;
  app = no_template;
  project = some no_template;
  environment = no_template;
  language_command = some none;
  app_command = some "./run";
  registry_url = some "https://harbor.example";
  host_network = false;
  containers_custom = false;
  own_containers = no_extras;
  project_containers = no_extras;
  dictionary = λ k. none;
}

abbrev rendered : PodDeployment String
rendered = record {
  name = "web";
  namespace = "uat-shop";
  image = "harbor.example/web:1";
  strategy = record { rolling = []; plain = [] };
  limits = ("limits", ("cpu", "2") ∷ []) ∷ [];
  command = "./run" ∷ [];
  labels = pod_labels (("app", "other") ∷ ("tier", "back") ∷ []) "web";
  selector = match_labels (("app", "other") ∷ ("tier", "back") ∷ []) "web";
  node_selector = [];
  notes = annotations (("path", "/metrics") ∷ []) "shop" "uat" "cart";
  env = env_list shop_names set_twice;
  health = [];
  lifecycle = [];
  host_network = false;
  containers = [];
}

template_generate-selects_example :
    (lookup "tier" rendered.labels ≡ lookup "tier" rendered.selector)
    × (lookup "app" rendered.selector ≡ some "web")
unfolding template_generate render after_scheme when_has lookup merged module_loop put app_loop
    project_loop resources_at body_at add_resources split pairs_at variables_at extra_containers
    add_strategy command_of put_all container_generate has_prefix clean_var env_dict env_list
    from_or_value lstrip rstrip unquote before_scheme pod_labels match_labels annotations annotate
template_generate-selects_example =
    template_generate-selects shop_source "web:1" rendered "tier" refl
      (λ q. ground (arith, q, eq_iff "tier" platform_label))

abbrev some_source : Source String
some_source = record shop_source { registry_url = none }
