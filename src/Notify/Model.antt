-- ===== src/Notify/Model.antt =====
-- The entries of the cache that qtasks/tasks_build.py and qtasks/tasks_deploy.py leave for the messages,
-- and the constants of common/variables.py.
use devops_backend.Prelude.{ℕ, String, Option, none, some, List, ◌==◌, text_key, if◌then◌else◌}

-- a message of a build or a deployment
pub record NotifyMessage : Type 0 where
  pub msg_key : Option String
  pub msg : String
  pub title : String
  pub robot : String
  pub order_id : Option String
  pub recv_phone : Option String
  pub recv_openid : Option String

-- a value of the cache: a message, the time of the last message in seconds with its delay, or another
pub data CacheEntry : Type 0 where
  message : NotifyMessage → CacheEntry
  delay : ℕ → ℕ → CacheEntry
  other_value : CacheEntry

abbrev pub Cache : Type 0
Cache = List (String × CacheEntry)

-- a call of async_task with deploy_notify_send
pub record SendTask : Type 0 where
  pub order_id : Option String
  pub title : String
  pub msg : Cache
  pub robot : String

pub record NotifyState : Type 0 where
  pub cache : Cache
  pub tasks : List SendTask

abbrev pub message_prefix : String
message_prefix = "cicd:notify::"

abbrev pub delay_prefix : String
delay_prefix = "delay:notify::"

-- `v.get(key, None)` as a test: an empty text counts as none
unfoldable pub given : Option String → Option String
given none = none
given (some text) = if text == "" then none else some text
