-- ===== src/Workflow/Upcoming.antt =====
-- `update` of WorkflowMyUpComingViewSet in apps/workflow/views/my_upcoming.py, the handling of a
-- node, and the check that decorates it, `check_workflow_permission` of views/workflow.py.
use devops_backend.Prelude.{
  ℕ, ◌+◌, String, Bool, true, false, Option, none, some, List, [], ◌∷◌, ◌==◌, number_key, text_key,
  index_of, get_elem?, set, first_where, if◌then◌else◌,
}
use devops_backend.Outcome.{
  Result, ok, or_raise, require, value_error, index_error, does_not_exist, ok_api_exception, ◌>>=◌,
}
use devops_backend.Workflow.Model.{
  Status, HandleType, Workflow, History, Form, Field, absent, null, text, node_list,
}
use devops_backend.Workflow.LifeCycle.{
  Env, Db, Handled, life_cycle, save_workflow, handle, is_passed_form,
}
use devops_backend.Workflow.Views.{insert_history}

pub record UpdateRequest : Type 0 where
  pub wid : String
  pub user : ℕ
  pub node : String
  pub form : Form

pub data Reply : Type 0 where
  node_missing handle_type_missing : Reply
  success : Handled → Reply

abbrev pub find_by_wid : String → Db → Result Workflow
find_by_wid wid db = or_raise does_not_exist (first_where (λ w. w.wid == wid) db.workflows)

abbrev pub is_falsy : Field → Bool
is_falsy absent = false
is_falsy null = true
is_falsy (text t) = t == ""

-- `form.get('handle_type', passed)`, and what stands in for an empty one: at the first node the form
-- is completed with `passed`, elsewhere the request is refused
unfoldable pub resolve_form : Workflow → Form → Result (Option Form)
resolve_form w form =
    if is_falsy form.handle_type
    then (do
      i ← or_raise value_error (index_of (node_list w.template) w.node)
      ok (if i == 0 then some (record form { handle_type = text "passed" }) else none))
    else ok (some form)

-- `handle_type == passed and passed or HandleType.REJECT`
abbrev pub submitted_type : Form → HandleType
submitted_type form =
    if is_passed_form form.handle_type then HandleType.passed else HandleType.reject

-- `user@{id}@{user}` for the users that exist
unfoldable pub member_list : Env → List String → List String
member_list env [] = []
member_list env (user_id ∷ ids) =
    let rest = member_list env ids in
    elim (env.find_user user_id) [ none ↦ rest | some u ↦ env.user_text u ∷ rest ]

-- the members of the next node, where the form names them
unfoldable pub assign_next : Env → Form → Workflow → Result Workflow
unfolding member_list
assign_next env form w =
    let conf = (do
      i ← or_raise value_error (index_of (node_list w.template) w.node)
      next_node_conf ← or_raise index_error (get_elem? w.template.nodes (i + 1))
      ok (record w {
        template = record {
          nodes =
              set w.template.nodes (i + 1)
                (record next_node_conf { members = member_list env form.next_handle_user });
        };
      })) in
    elim form.next_handle_user [
      | [] ↦ ok w
      | _ ∷ _ ↦ if is_passed_form form.handle_type then conf else ok w
    ]

abbrev pub node_form : Workflow → UpdateRequest → Form → History
node_form w request form = record {
  id = 0;
  workflow = w.id;
  node = w.node;
  handle_type = some (submitted_type form);
  operator = request.user;
  form = form;
}

-- from the insertion of the history row to the life cycle
unfoldable pub submit : Env → UpdateRequest → Workflow → Form → Db → Result Handled
unfolding assign_next handle
submit env request w form db = do
  row ← require (env.node_form_valid w.node) ok_api_exception (node_form w request form)
  let db' = insert_history row db
  w' ← assign_next env form (record w { status = Status.wait })
  handle env true (life_cycle w' (record row { id = db.next_history }) form) (save_workflow w' db')

unfoldable pub update : Env → UpdateRequest → Db → Result Reply
unfolding resolve_form submit
update env request db = do
  w ← find_by_wid request.wid db
  let submitted = (do
    resolved ← resolve_form w request.form
    elim resolved [
      | none ↦ ok handle_type_missing
      | some form ↦ do handled ← submit env request w form db; ok (success handled)
    ])
  if request.node == "" then ok node_missing else submitted
