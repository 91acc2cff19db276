-- ===== src/Workflow/Callback.antt =====
-- class Callback of apps/workflow/lifecycle.py: the calls that a handled node makes after the commit.
use devops_backend.Prelude.{
  suc, String, Bool, false, ◌||◌, Option, none, some, List, [], ◌∷◌, ◌++◌, ◌==◌, text_key,
  if◌then◌else◌,
}
use devops_backend.Outcome.{Result, ok, or_raise, attribute_error, ◌>>=◌}
use devops_backend.Workflow.Model.{HandleType, handle_type_value, CallbackInfo, History}
use devops_backend.Workflow.LifeCycle.{LifeCycle, Db}

-- `call_func`: a row for the callback, and the call
abbrev pub call_func : History → String → String → Db → Db
call_func h t url db = record db {
  callbacks =
      record {
        id = db.next_callback;
        node_history = h.id;
        trigger = h.operator;
        callback_type = h.handle_type;
        callback_url = url;
      }
      ∷ db.callbacks;
  next_callback = suc db.next_callback;
  tasks =
      record { handle_type = t; node_history = h.id; callback = db.next_callback; url = url }
      ∷ db.tasks;
}

abbrev value_of : Option HandleType → Option String
value_of none = none
value_of (some t) = some (handle_type_value t)

-- `t == self.handle_type or t == 'all'`
unfoldable pub selects : Option HandleType → String → Bool
unfolding handle_type_value
selects handle_type t =
    (elim (value_of handle_type) [ none ↦ false | some v ↦ t == v ]) || t == "all"

-- the loop of `Callback.run`
unfoldable pub run_callbacks : History → List CallbackInfo → Db → Db
run_callbacks h [] db = db
run_callbacks h (info ∷ infos) db =
    run_callbacks h infos
      (if selects h.handle_type info.type then call_func h info.type info.url db else db)

-- `exec_callback`, run after the commit: a ticket whose node is in no template has no `.get`
unfoldable pub exec_callback : LifeCycle → Db → Result Db
unfolding run_callbacks selects
exec_callback lc db = do
  node_conf ← or_raise attribute_error lc.original_current_node_conf
  ok (run_callbacks lc.node_obj node_conf.callbacks db)

-- `group_by`: a dict from the type to the infos of that type, in order of appearance
unfoldable pub group_append :
    CallbackInfo → List (String × List CallbackInfo) → List (String × List CallbackInfo)
group_append info [] = (info.type, info ∷ []) ∷ []
group_append info ((t, infos) ∷ group) =
    if t == info.type then (t, infos ++ info ∷ []) ∷ group else (t, infos) ∷ group_append info group

unfoldable pub group_by :
    List (String × List CallbackInfo) → List CallbackInfo → List (String × List CallbackInfo)
unfolding group_append
group_by group [] = group
group_by group (info ∷ infos) = group_by (group_append info group) infos
