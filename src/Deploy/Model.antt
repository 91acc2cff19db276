-- ===== src/Deploy/Model.antt =====
-- The results that a deployment collects and the replies of the services that it calls:
-- qtasks/tasks_deploy.py.
use devops_backend.Prelude.{
  ℕ, String, Bool, false, Option, none, some, List, ◌&&◌, ◌==◌, text_key, number_key, if◌then◌else◌,
  length, get_elem?, distinct,
}
use devops_backend.Outcome.{Result, ok, err, type_error, value_error}

-- what a reply holds under `data`
pub data Payload : Type 0 where
  missing bytes other : Payload

-- a reply of a service as a dict; `json` is its text, which does not exist where it holds bytes
pub record ApiReply : Type 0 where
  pub ecode : Option ℕ
  pub message : Option String
  pub data_field : Payload
  pub json : String

-- `json.dumps(res)`
unfoldable pub dumps : ApiReply → Result String
dumps r = elim r.data_field [ bytes ↦ err type_error | _ ↦ ok r.json ]

-- the `ret` of a stage: the JSON text of a reply, a text that is no JSON, the text `null`, a reply,
-- or `{'message': e}` with an exception
pub data Ret : Type 0 where
  json_text : ApiReply → Ret
  plain_text : String → Ret
  null_text : Ret
  reply : ApiReply → Ret
  raised : Ret

-- `'message' in ret and ret['message'] or ret`
unfoldable pub message_or : Option String → Result String → Result String
message_or none whole = whole
message_or (some text) whole = if text == "" then whole else ok text

-- the logs that save_stage_result makes of `ret`
unfoldable pub logs : Ret → Result String
logs (json_text r) = message_or r.message (ok r.json)
logs (plain_text s) = err value_error
logs null_text = err type_error
logs (reply r) = message_or r.message (dumps r)
logs raised = err type_error

-- what a step returns, without its message
pub record Stat : Type 0 where
  pub stat : ℕ
  pub ret : Ret

-- a dict of `stages`, without its message
pub record Stage : Type 0 where
  pub name : String
  pub status : ℕ
  pub logs : String

-- the entry of one cluster in cd_result
pub record Cluster : Type 0 where
  pub name : String
  pub stages : List Stage
  pub status : ℕ

-- cd_result without the name of the host
pub record CdResult : Type 0 where
  pub status : ℕ
  pub col_active : String
  pub clusters : List Cluster

-- `len(set(xs)) == 1 and xs[0] == 1`
unfoldable pub all_ones : List ℕ → Bool
all_ones xs = length (distinct xs) == 1 && elim (get_elem? xs 0) [ none ↦ false | some x ↦ x == 1 ]
