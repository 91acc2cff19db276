-- ===== src/Launch/Model.antt =====
-- The rows that the start of a deployment reads and writes, the tasks that it queues, and what it
-- calls: dbapp/model/model_deploy.py, apps/deploy/ext_func.py.
use devops_backend.Prelude.{ℕ, String, Bool, Option, List, ◌==◌, number_key, first_where}
use devops_backend.Outcome.{Result}
use devops_backend.Guards.Branch.{AppInfo}

-- an application in an environment: what the guards read of it, and the names of its path
pub record LaunchApp : Type 0 where
  pub info : AppInfo
  pub online : ℕ
  pub appid : String
  pub name : String
  pub project : String
  pub environment_name : String

-- a row of DeployJob
pub record LaunchJob : Type 0 where
  pub id : ℕ
  pub uniq_id : String
  pub order_id : Option String
  pub appinfo_id : ℕ
  pub status : ℕ
  pub image : Option String
  pub kubernetes : List ℕ
  pub deploy_type : ℕ
  pub modules : Option String
  pub batch_uuid : Option String

-- a row of ClusterRow: an application on a cluster
pub record ClusterRow : Type 0 where
  pub appinfo_id : ℕ
  pub kubernetes_id : ℕ
  pub online : ℕ

-- the port of the inventory: a text of the data dictionary, or the number 22
pub data Port : Type 0 where
  default_port : Port
  given_port : String → Port

-- the payload of nonk8s_deploy_handle
pub record HostPayload : Type 0 where
  pub app_flag : String
  pub app_name : String
  pub appid : String
  pub product : String
  pub project : String
  pub src_env : String
  pub dest_env : String
  pub src_tag : String
  pub image : String
  pub path_parent : String
  pub job : ℕ
  pub target_hosts : List String
  pub dest : String
  pub playbook4rollback : String
  pub playbook : String
  pub forward_ip : String
  pub forward_port : Port

-- the reply of template_generate: `ecode`, and whether it holds `apm_yaml`
pub record YamlReply : Type 0 where
  pub ecode : Option ℕ
  pub apm : Bool

-- the calls of async_task
pub data Task : Type 0 where
  deploy_to_k8s : ℕ → YamlReply → Bool → Task
  deploy_to_hosts : HostPayload → Task

pub record LaunchDb : Type 0 where
  pub next_id : ℕ
  pub apps : List LaunchApp
  pub jobs : List LaunchJob
  pub deploys : List ClusterRow
  pub tasks : List Task

-- the data of a request: `kubernetes` is what the serializer reads
pub record LaunchRequest : Type 0 where
  pub appinfo_id : ℕ
  pub order_id : Option String
  pub image : Option String
  pub kubernetes : List ℕ
  pub modules : Option String
  pub batch_uuid : Option String
  pub rollback : Bool
  pub deploy_type : ℕ

-- what the code calls: the checks of the serializer, the time as a text of digits, the generator of the
-- deployment, the entries REMOTE_HOSTS and deploy_path.* of the data dictionary, PLAYBOOK_PATH
pub record Services : Type 0 where
  pub is_valid : LaunchRequest → Bool
  pub stamp : String
  pub generate : LaunchApp → Option String → Result YamlReply
  pub remote_hosts : Option String
  pub deploy_path : String → Option (List (String × String))
  pub playbook_path : String
  pub number_text : ℕ → String

-- `AppInfo.objects.get(id=...)`
unfoldable pub get_app : ℕ → LaunchDb → Option LaunchApp
get_app key db = first_where (λ a. a.info.id == key) db.apps
