-- ===== src/Workflow/Create.antt =====
-- create_workflow of apps/workflow/ext_func.py, and the view `create` of WorkflowViewSet in
-- apps/workflow/views/workflow.py. The manager of a project that the code looks up is never used.
use devops_backend.Prelude.{
  ℕ, String, Bool, false, Option, none, List, [], ◌∷◌, ◌++◌, map, text_key, number_key, ◌==◌,
  if◌then◌else◌, distinct,
}
use devops_backend.Outcome.{
  Result, ok, err, or_raise, value_error, index_error, key_error, does_not_exist, ok_api_exception,
  ◌>>=◌,
}
use devops_backend.Text.{split}
use devops_backend.Shared.Dict.{lookup}
use devops_backend.Workflow.Model.{Status, NodeConf, Workflow, History, Form}
use devops_backend.Workflow.LifeCycle.{Env, Db, Handled, life_cycle, handle}
use devops_backend.Workflow.Views.{insert_history}
use devops_backend.Workflow.Start.{Department, Starter, may_start}

-- an element of `form_models`; a field that names the handlers of a node has a `node_handler_id`
pub record FormModel : Type 0 where
  pub type : String
  pub name : String
  pub node_handler_id : Option String

-- a node of the template, with the keys that only the creation reads
pub record CreateNode : Type 0 where
  pub id : String
  pub conf : NodeConf
  pub form_models : List FormModel

-- `form[name]`: one user or several, as `username@name`
pub data Selected : Type 0 where
  one_user : String → Selected
  several_users : List String → Selected

-- `listed` is the order in which Python lists a set; `user_member` makes `user@id@first_name` of a
-- username; the last fields are the key and the number of the new row
pub record CreateEnv : Type 0 where
  pub env : Env
  pub listed : List String → List String
  pub departments : List Department
  pub user_member : String → Option String
  pub workflow_valid : Bool
  pub new_id : ℕ
  pub new_wid : String

-- `extra` has the members that the request adds to each node
pub record CreateRequest : Type 0 where
  pub user : ℕ
  pub starter : Starter
  pub self_member : String
  pub extra : List (List String)
  pub selected : List (String × Selected)
  pub form : Form

-- a node without approval gets the user who starts the ticket
unfoldable pub add_self : String → CreateNode → CreateNode
add_self self_member n =
    if n.conf.pass_type == "passed"
    then record n { conf = record n.conf { members = n.conf.members ++ self_member ∷ [] } }
    else n

unfoldable pub extend_members : (List String → List String) → List String → CreateNode → CreateNode
extend_members listed extra n = record n {
  conf = record n.conf { members = listed (distinct (n.conf.members ++ extra)) };
}

-- the nodes behind the first
unfoldable pub merge_rest :
    (List String → List String)
    → String
    → List CreateNode
    → List (List String)
    → Result (List CreateNode)
merge_rest listed self_member [] extra = ok []
merge_rest listed self_member (n ∷ nodes) [] = err index_error
merge_rest listed self_member (n ∷ nodes) (ms ∷ extra) =
    merge_rest listed self_member nodes extra >>= λ rest.
    ok (add_self self_member (extend_members listed ms n) ∷ rest)

unfoldable pub without_first {ℓ} : {A : Type ℓ} → List A → List A
without_first [] = []
without_first (x ∷ xs) = xs

-- the loop over `template_obj.nodes`
unfoldable pub merge_members :
    (List String → List String)
    → String
    → List CreateNode
    → List (List String)
    → Result (List CreateNode)
merge_members listed self_member [] extra = ok []
merge_members listed self_member (n ∷ nodes) extra =
    merge_rest listed self_member nodes (without_first extra) >>= λ rest.
    ok (add_self self_member n ∷ rest)

-- `username, _ = u.split('@')`, and the user of the name
unfoldable pub mapped_member : CreateEnv → String → Result String
mapped_member env u = named (split "@" u)
  where
    named : List String → Result String
    named (username ∷ name ∷ []) = or_raise does_not_exist (env.user_member username)
    named _ = err value_error

unfoldable pub mapped_members : CreateEnv → List String → Result (List String)
mapped_members env [] = ok []
mapped_members env (u ∷ us) =
    mapped_member env u >>= λ m. mapped_members env us >>= λ ms. ok (m ∷ ms)

unfoldable pub selected_users : Selected → List String
selected_users (one_user u) = u ∷ []
selected_users (several_users us) = us

-- the loop over the nodes for one field: the users that the form names replace the members
unfoldable pub assign_nodes :
    CreateEnv → CreateRequest → String → String → List CreateNode → Result (List CreateNode)
assign_nodes env request name handler [] = ok []
assign_nodes env request name handler (n ∷ nodes) =
    assign_nodes env request name handler nodes >>= λ rest.
    if n.id == handler
    then (do
      users ← or_raise key_error (lookup name request.selected)
      members ← mapped_members env (selected_users users)
      ok (record n { conf = record n.conf { members = members } } ∷ rest))
    else ok (n ∷ rest)

-- the loop over the fields of the first node
unfoldable pub assign_fields :
    CreateEnv → CreateRequest → List FormModel → List CreateNode → Result (List CreateNode)
assign_fields env request [] nodes = ok nodes
assign_fields env request (f ∷ fields) nodes =
    if f.type == "nodeHandler"
    then (do
      handler ← or_raise key_error f.node_handler_id
      assigned ← assign_nodes env request f.name handler nodes
      assign_fields env request fields assigned)
    else assign_fields env request fields nodes

-- the new rows, or False with a message
pub data Created : Type 0 where
  created : Workflow → History → Created
  turned_down : Created

unfoldable pub new_workflow : CreateEnv → CreateRequest → String → List CreateNode → Workflow
new_workflow env request first nodes = record {
  id = env.new_id;
  wid = env.new_wid;
  node = first;
  status = Status.wait;
  creator = request.user;
  template = record { nodes = map (λ n. n.conf) nodes };
}

unfoldable pub new_history : CreateRequest → Workflow → History
new_history request w = record {
  id = 0;
  workflow = w.id;
  node = w.node;
  handle_type = none;
  operator = request.user;
  form = request.form;
}

unfoldable pub start_ticket :
    CreateEnv → CreateRequest → CreateNode → List CreateNode → Result Created
start_ticket env request first nodes =
    if env.workflow_valid
    then (do
      assigned ← assign_fields env request first.form_models nodes
      let w = new_workflow env request first.conf.name assigned
      if env.env.node_form_valid w.node
          then ok (created w (new_history request w))
          else ok turned_down)
    else ok turned_down

-- behind the copy of the template: who may start, and the rows
unfoldable pub begin_ticket : CreateEnv → CreateRequest → List CreateNode → Result Created
begin_ticket env request [] = ok turned_down
begin_ticket env request (first ∷ rest) =
    may_start env.departments first.conf.members request.starter >>= λ allowed.
    if allowed then start_ticket env request first (first ∷ rest) else ok turned_down

unfoldable pub create_workflow : CreateEnv → CreateRequest → List CreateNode → Result Created
create_workflow env request nodes =
    merge_members env.listed request.self_member nodes request.extra >>= λ merged.
    begin_ticket env request merged

unfoldable pub handle_created : CreateEnv → CreateRequest → Db → Created → Result Handled
handle_created env request db turned_down = err ok_api_exception
handle_created env request db (created w row) =
    handle env.env false (life_cycle w (record row { id = db.next_history }) request.form)
      (insert_history row (record db { workflows = w ∷ db.workflows }))

-- the view: a refusal raises and leaves no row; else the first node is handled at once
unfoldable pub create_ticket : CreateEnv → CreateRequest → List CreateNode → Db → Result Handled
create_ticket env request nodes db =
    create_workflow env request nodes >>= λ reply. handle_created env request db reply
