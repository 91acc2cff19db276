-- ===== src/Workflow/Views.antt =====
-- revoke, close and complete of WorkflowViewSet in apps/workflow/views/workflow.py. Each is one
-- transaction: an exception leaves the tables as they were (`atomic`).
use devops_backend.Prelude.{
  ℕ, suc, String, ◌&&◌, some, ◌∷◌, ◌==◌, number_key, text_key, get_elem?, first_where,
}
use devops_backend.Outcome.{
  Result, ok, err, or_raise, index_error, attribute_error, does_not_exist, ◌>>=◌,
}
use devops_backend.Workflow.Model.{Status, HandleType, NodeConf, Workflow, History}
use devops_backend.Workflow.LifeCycle.{Db, save_workflow}

-- a `save()` of a row with no key inserts it under the next one
abbrev pub insert_history : History → Db → Db
insert_history h db = record db {
  histories = record h { id = db.next_history } ∷ db.histories;
  next_history = suc db.next_history;
}

-- `self.queryset.get(pk=...)`
abbrev pub find_workflow : ℕ → Db → Result Workflow
find_workflow pk db = or_raise does_not_exist (first_where (λ w. w.id == pk) db.workflows)

-- the newest history row of the ticket's first node, copied under the user and the action;
-- where there is none, `first()` is None and has no `pk` to clear
unfoldable pub copy_first_history : HandleType → ℕ → Workflow → String → Db → Result Db
copy_first_history t user w first_node db = do
  h ←
      or_raise attribute_error
        (first_where (λ h. h.workflow == w.id && h.node == first_node) db.histories)
  ok (insert_history (record h { handle_type = some t; operator = user }) db)

unfoldable pub first_node : Workflow → Result NodeConf
first_node w = or_raise index_error (get_elem? w.template.nodes 0)

unfoldable pub revoke : ℕ → ℕ → Db → Result Db
unfolding copy_first_history first_node
revoke pk user db = do
  w ← find_workflow pk db
  first ← first_node w
  let instance_obj = record w { node = first.name; status = Status.revoke }
  copy_first_history HandleType.revoke user instance_obj first.name (save_workflow instance_obj db)

unfoldable pub close : ℕ → ℕ → Db → Result Db
unfolding copy_first_history first_node
close pk user db = do
  w ← find_workflow pk db
  let instance_obj = record w { status = Status.close }
  first ← first_node w
  copy_first_history HandleType.close user instance_obj first.name (save_workflow instance_obj db)

-- the action `complete`: its history row carries the type CLOSE, as the one of `close`
unfoldable pub complete_order : ℕ → ℕ → Db → Result Db
unfolding copy_first_history first_node
complete_order pk user db = do
  w ← find_workflow pk db
  let instance_obj = record w { status = Status.complete }
  first ← first_node w
  copy_first_history HandleType.close user instance_obj first.name (save_workflow instance_obj db)

-- `@transaction.atomic`: an exception rolls the tables back
abbrev pub atomic : (Db → Result Db) → Db → Db
atomic request db = elim (request db) [ ok db' ↦ db' | err e ↦ db ]
