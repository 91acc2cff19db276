-- ===== src/Launch/Payload.antt =====
-- The payload for a deployment to hosts, which app_deploy_handle and deploy_handle build alike:
-- apps/deploy/ext_func.py.
use Prim.Native.String.{◌++◌ as append}
use devops_backend.Prelude.{
  ℕ, String, Option, none, some, List, [], ◌∷◌, ◌==◌, text_key, number_key, if◌then◌else◌,
  first_where,
}
use devops_backend.Outcome.{Result, ok, ◌>>=◌, or_raise, attribute_error, does_not_exist}
use devops_backend.Text.{split, replace, last, lower}
use devops_backend.Guards.Branch.{AppInfo}
use devops_backend.Launch.Model.{LaunchApp, HostPayload, Services, Port, default_port, given_port}

-- the kind of the application and its playbook
unfoldable pub playfile : AppInfo → String × String
playfile info =
    if last (split "." info.category) == "server"
    then (if info.is_k8s == "docker"
        then ("docker", "docker_deploy.yaml")
        else ("jar", "jar_deploy.yaml"))
    else ("web", "web_deploy.yaml")

-- the piece of a text before the first separator
unfoldable pub head_piece : List String → String
head_piece [] = ""
head_piece (x ∷ xs) = x

-- the address and the port of the host that forwards
unfoldable pub forward_host : String → String × Port
forward_host host = (head_piece (split ":" host), port (split ":" host))
  where
    port : List String → Port
    port (ip ∷ p ∷ []) = given_port p
    port _ = default_port

-- `d.get(product, None) or d.get('default', '/data/web')`, an empty text being false
unfoldable pub path_of : Option (List (String × String)) → String → String
path_of none product = "/data/web"
path_of (some dict) product = or_default (entry product dict)
  where
    entry : String → List (String × String) → Option String
    entry key entries = elim (first_where (λ e. e.0 == key) entries) [
      | none ↦ none
      | some e ↦ some e.1
    ]

    fallback : Option String → String
    fallback none = "/data/web"
    fallback (some path) = path

    or_default : Option String → String
    or_default none = fallback (entry "default" dict)
    or_default (some path) = if path == "" then fallback (entry "default" dict) else path

unfoldable pub dest_path : String → LaunchApp → String
dest_path parent app = append parent (
    append "/" (
      append (lower app.environment_name)
        (append "/" (append (lower (replace "." "-" app.project)) (append "/" app.name)))))

unfoldable pub host_payload : Services → LaunchApp → ℕ → Option String → Result HostPayload
host_payload services app job image = do
  host ← or_raise does_not_exist services.remote_hosts
  tag ← or_raise attribute_error image
  let kind = playfile app.info
  let forward = forward_host host
  let parent = path_of (services.deploy_path kind.0) app.info.product
  let playbook = append services.playbook_path (append "/" kind.1)
  ok (record {
    app_flag = kind.0;
    app_name = app.name;
    appid = app.appid;
    product = app.info.product;
    project = app.project;
    src_env = head_piece (split "-" tag);
    dest_env = lower app.environment_name;
    src_tag = last (split ":" tag);
    image = tag;
    path_parent = parent;
    job = job;
    target_hosts = app.info.hosts;
    dest = dest_path parent app;
    playbook4rollback = playbook;
    playbook = playbook;
    forward_ip = forward.0;
    forward_port = forward.1;
  })
