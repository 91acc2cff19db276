-- ===== src/Workflow/Model.antt =====
-- dbapp/model/model_workflow.py: the rows of the ticket tables and the lookups in a template.
-- A template copy belongs to one ticket (`create_workflow` saves a fresh copy for each), so it is a
-- field of it. A history table is kept in the model's ordering, `-id`: the newest row first.
use devops_backend.Prelude.{
  ℕ, String, Bool, true, false, Option, some, List, map, ◌==◌, text_key, index_of, get_elem?,
  first_where,
}
use devops_backend.Outcome.{Result, or_raise, value_error, index_error, ◌>>=◌}

-- class STATUS of Workflow
pub data Status : Type 0 where
  close revoke reject wait complete failed : Status

-- class HandleType of WorkflowNodeHistory
pub data HandleType : Type 0 where
  passed reject revoke close error : HandleType

unfoldable pub handle_type_value : HandleType → String
handle_type_value HandleType.passed = "passed"
handle_type_value HandleType.reject = "reject"
handle_type_value HandleType.revoke = "revoke"
handle_type_value HandleType.close = "close"
handle_type_value HandleType.error = "error"

abbrev pub is_passed : Option HandleType → Bool
is_passed (some HandleType.passed) = true
is_passed _ = false

pub record CallbackInfo : Type 0 where
  pub type : String
  pub url : String

-- one element of a template's JSON array `nodes`: the keys that the engine reads
pub record NodeConf : Type 0 where
  pub name : String
  pub pass_type : String
  pub members : List String
  pub callbacks : List CallbackInfo

pub record Template : Type 0 where
  pub nodes : List NodeConf

pub record Workflow : Type 0 where
  pub id : ℕ
  pub wid : String
  pub node : String
  pub status : Status
  pub creator : ℕ
  pub template : Template

-- a key of a JSON form: missing, null or a text
pub data Field : Type 0 where
  absent null : Field
  text : String → Field

-- the form that a handler submits: the keys that the engine reads
pub record Form : Type 0 where
  pub handle_type : Field
  pub next_handle_user : List String

pub record History : Type 0 where
  pub id : ℕ
  pub workflow : ℕ
  pub node : String
  pub handle_type : Option HandleType
  pub operator : ℕ
  pub form : Form

abbrev pub node_list : Template → List String
node_list t = map (λ n. n.name) t.nodes

-- `get_node_conf`: `list.index` raises a ValueError for a name that is not there
unfoldable pub get_node_conf : Template → String → Result NodeConf
get_node_conf t node_name = do
  node_index ← or_raise value_error (index_of (node_list t) node_name)
  or_raise index_error (get_elem? t.nodes node_index)

-- the property `cur_node_conf`; the loop falls through to None
unfoldable pub cur_node_conf : Workflow → Option NodeConf
cur_node_conf w = first_where (λ n. n.name == w.node) w.template.nodes
