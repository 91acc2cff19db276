-- ===== src/Workflow/LifeCycle.antt =====
-- class LifeCycle of apps/workflow/lifecycle.py.
-- A request works on one ticket row and one history row in memory and writes them by `save()`.
-- Django's ORM is a parameter where it reads tables of other parts: `Env`.
use devops_backend.Prelude.{
  ℕ, suc, ◌+◌, String, Bool, true, false, ◌&&◌, Option, none, some, List, [], ◌∷◌, ◌==◌, number_key,
  text_key, index_of, get_elem?, any, ltb, leb, length, if◌then◌else◌, first_where,
}
use devops_backend.Outcome.{
  Result, ok, err, or_raise, value_error, index_error, does_not_exist, ◌>>=◌,
}
use devops_backend.Text.{split}
use devops_backend.Workflow.Model.{
  Status, HandleType, is_passed, NodeConf, Workflow, History, Form, Field, absent, null, text,
  node_list, get_node_conf, cur_node_conf,
}

pub record Env : Type 0 where
  -- `UserProfile.objects.get(id=...)`: the key of the row that the text finds
  pub find_user : String → Option ℕ
  -- `str(user)` and the `first_name` of a user
  pub user_text : ℕ → String
  -- whether the serializer of a history row accepts the name of its node
  pub node_form_valid : String → Bool

-- a row of WorkflowNodeHistoryCallback; `status` stays at its default, pending
pub record CallbackRow : Type 0 where
  pub id : ℕ
  pub node_history : ℕ
  pub trigger : ℕ
  pub callback_type : Option HandleType
  pub callback_url : String

-- a call of qtasks.tasks.workflow_callback, queued or made
pub record CallbackTask : Type 0 where
  pub handle_type : String
  pub node_history : ℕ
  pub callback : ℕ
  pub url : String

pub record Db : Type 0 where
  pub workflows : List Workflow
  pub histories : List History
  pub next_history : ℕ
  pub callbacks : List CallbackRow
  pub next_callback : ℕ
  pub tasks : List CallbackTask

abbrev pub replace_workflow : Workflow → List Workflow → List Workflow
replace_workflow w [] = []
replace_workflow w (v ∷ vs) = (if v.id == w.id then w else v) ∷ replace_workflow w vs

abbrev pub replace_history : History → List History → List History
replace_history h [] = []
replace_history h (g ∷ gs) = (if g.id == h.id then h else g) ∷ replace_history h gs

-- `workflow_obj.save()` and `node_obj.save()`
abbrev pub save_workflow : Workflow → Db → Db
save_workflow w db = record db { workflows = replace_workflow w db.workflows }

abbrev pub save_history : History → Db → Db
save_history h db = record db { histories = replace_history h db.histories }

pub record LifeCycle : Type 0 where
  pub workflow_obj : Workflow
  pub node_obj : History
  pub original_current_node_conf : Option NodeConf
  pub form : Form

-- `LifeCycle(request, workflow_obj, node_obj, form)`
abbrev pub life_cycle : Workflow → History → Form → LifeCycle
life_cycle w h form = record {
  workflow_obj = w;
  node_obj = h;
  original_current_node_conf = cur_node_conf w;
  form = form;
}

abbrev is_reject_form : Field → Bool
is_reject_form absent = false
is_reject_form null = false
is_reject_form (text t) = t == "reject"

-- `WorkflowNodeHistory.objects.filter(workflow=..., id__lt=...)`, then `first()`
unfoldable pub prev_node_history : LifeCycle → Db → Option History
prev_node_history lc db =
    first_where (λ h. h.workflow == lc.workflow_obj.id && ltb h.id lc.node_obj.id) db.histories

abbrev index_after : List String → String → Result ℕ
index_after names node_name = do i ← or_raise value_error (index_of names node_name); ok (i + 1)

-- the `if` of `_get_next_node_name`: back to the node that rejected, or one further
unfoldable pub next_node_index : Option History → Workflow → Result ℕ
next_node_index none w = index_after (node_list w.template) w.node
next_node_index (some prev) w =
    if is_reject_form prev.form.handle_type
    then or_raise value_error (index_of (node_list w.template) prev.node)
    else index_after (node_list w.template) w.node

-- `_get_next_node_name`: the IndexError is caught and means that there is no next node
unfoldable pub get_next_node_name : LifeCycle → Db → Result (Option String)
unfolding next_node_index prev_node_history
get_next_node_name lc db = do
  i ← next_node_index (prev_node_history lc db) lc.workflow_obj
  ok (get_elem? (node_list lc.workflow_obj.template) i)

unfoldable pub complete : Workflow → Workflow
complete w = record w { status = Status.complete }

-- `node_list[0]` raises an IndexError on a template with no node
unfoldable pub reject : Workflow → Result Workflow
reject w = do
  first ← or_raise index_error (get_elem? (node_list w.template) 0)
  ok (record w { node = first; status = Status.reject })

-- `if not next_node_name`: no name, or an empty one
unfoldable pub enter : Option String → Workflow → Workflow
unfolding complete
enter none w = complete w
enter (some node_name) w = if node_name == "" then complete w else record w { node = node_name }

unfoldable pub next : LifeCycle → Db → Result Workflow
unfolding get_next_node_name enter
next lc db = do next_node_name ← get_next_node_name lc db; ok (enter next_node_name lc.workflow_obj)

-- the query of the countersign loop: it names the ticket and the operator, and no node
unfoldable pub has_passed : Db → ℕ → ℕ → Bool
has_passed db workflow user =
    any (λ h. h.workflow == workflow && (h.operator == user && is_passed h.handle_type))
      db.histories

-- `member_info.split('@')[1]`, and the user with that key
unfoldable pub member_user : Env → String → Result ℕ
unfolding split
member_user env member_info = do
  member_id ← or_raise index_error (get_elem? (split "@" member_info) 1)
  or_raise does_not_exist (env.find_user member_id)

-- the countersign loop over `members_conf`, from `member_handle_count`
unfoldable pub count_handled : Env → Db → ℕ → ℕ → List String → Result ℕ
unfolding member_user has_passed
count_handled env db workflow count [] = ok count
count_handled env db workflow count (member_info ∷ members) = elim (member_user env member_info) [
  | ok user ↦
      count_handled env db workflow (if has_passed db workflow user then suc count else count)
        members
  | err e ↦ err e
]

-- what `handle` leaves: the rows, and whether it registered the two calls on commit
pub record Handled : Type 0 where
  pub life : LifeCycle
  pub db : Db
  pub on_commit : Bool

-- `self.node_obj.save()`, `self.workflow_obj.save()`
abbrev pub save_both : LifeCycle → Workflow → History → Bool → Db → Handled
save_both lc w h on_commit db = record {
  life = record lc { workflow_obj = w; node_obj = h };
  db = save_workflow w (save_history h db);
  on_commit = on_commit;
}

abbrev pub mark : HandleType → History → History
mark t h = record h { handle_type = some t }

unfoldable pub handle_passed : Env → LifeCycle → Db → NodeConf → Result Handled
unfolding next count_handled
handle_passed env lc db node_conf =
    let node_obj = mark HandleType.passed lc.node_obj in
    let advance = (do w ← next lc db; ok (save_both lc w node_obj true db)) in
    if node_conf.pass_type == "countersigned"
    then (do
      member_handle_count ← count_handled env db lc.workflow_obj.id 0 node_conf.members
      if leb (length node_conf.members) member_handle_count
          then advance
          else ok (save_both lc lc.workflow_obj node_obj false db))
    else advance

unfoldable pub handle_reject : LifeCycle → Db → Result Handled
unfolding reject
handle_reject lc db = do
  w ← reject lc.workflow_obj
  ok (save_both lc w (mark HandleType.reject lc.node_obj) true db)

-- `self.form.get('handle_type', 'passed') == 'passed'`
unfoldable pub is_passed_form : Field → Bool
is_passed_form absent = true
is_passed_form null = false
is_passed_form (text t) = t == "passed"

unfoldable pub handle : Env → Bool → LifeCycle → Db → Result Handled
unfolding handle_passed handle_reject next is_passed_form
handle env false lc db = do
  w ← next lc db
  ok (save_both lc w (mark HandleType.passed lc.node_obj) true db)
handle env true lc db = do
  node_conf ← get_node_conf lc.workflow_obj.template lc.node_obj.node
  if is_passed_form lc.form.handle_type
      then handle_passed env lc db node_conf
      else handle_reject lc db
