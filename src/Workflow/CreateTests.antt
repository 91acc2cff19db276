-- ===== src/Workflow/CreateTests.antt =====
-- A ticket of two nodes: anyone may start it, and the form names who handles the second node.
use devops_backend.Prelude.{
  ◌≡◌, ◌≢◌, refl, true, false, none, some, [], ◌∷◌, text_key, number_key, ◌==◌, if◌then◌else◌,
}
use devops_backend.Outcome.{ok}
use devops_backend.Text.{split}
use devops_backend.Shared.Dict.{lookup}
use devops_backend.Workflow.Model.{
  NodeConf, Workflow, absent, History, Status, HandleType, cur_node_conf,
}
use devops_backend.Workflow.LifeCycle.{
  Db, Handled, enter, complete, get_next_node_name, handle, next, next_node_index,
  prev_node_history,
}
use devops_backend.Workflow.Start.{
  Starter, may_start, get_member_user_ids, three_parts, has_text, ids_of,
}
use devops_backend.Workflow.Create.{
  CreateEnv, CreateRequest, CreateNode, one_user, turned_down, add_self, create_ticket,
  create_workflow, merge_members, merge_rest, without_first, begin_ticket, start_ticket,
  assign_fields, assign_nodes, extend_members, handle_created, mapped_member, mapped_members,
  new_history, new_workflow, selected_users,
}
use devops_backend.Workflow.Opened.{create_workflow-anyone}
use devops_backend.Workflow.Waiting.{IsBegun, create_ticket-second}

abbrev starter : Starter
starter = record { id_text = "7"; is_superuser = false }

abbrev apply_node : CreateNode
apply_node = record {
  id = "n1";
  conf = record {
    name = "apply";
    pass_type = "passed";
    members = "user@3@Bob" ∷ [];
    callbacks = [];
  };
  form_models = record { type = "nodeHandler"; name = "who"; node_handler_id = some "n2" } ∷ [];
}

abbrev approve_node : CreateNode
approve_node = record {
  id = "n2";
  conf = record { name = "approve"; pass_type = "normal"; members = []; callbacks = [] };
  form_models = [];
}

abbrev create_env : CreateEnv
create_env = record {
  env = record { find_user = λ id. none; user_text = λ n. ""; node_form_valid = λ name. true };
  listed = λ xs. xs;
  departments = [];
  user_member = λ username. if username == "bob" then some "user@3@Bob" else none;
  workflow_valid = true;
  new_id = 5;
  new_wid = "20230522151400123";
}

abbrev create_request : CreateRequest
create_request = record {
  user = 7;
  starter = starter;
  self_member = "user@7@Ann";
  extra = [] ∷ ("user@4@Eve" ∷ []) ∷ [];
  selected = ("who", one_user "bob@Bob") ∷ [];
  form = record { handle_type = absent; next_handle_user = [] };
}

abbrev no_tickets : Db
no_tickets = record {
  workflows = [];
  histories = [];
  next_history = 1;
  callbacks = [];
  next_callback = 1;
  tasks = [];
}

ann_parts : split "@" "user@7@Ann" ≡ "user" ∷ "7" ∷ "Ann" ∷ []
unfolding split
ann_parts = refl

create_workflow-anyone_example :
    create_workflow create_env create_request (apply_node ∷ approve_node ∷ []) ≢ ok turned_down
create_workflow-anyone_example =
    create_workflow-anyone create_env create_request apply_node (approve_node ∷ []) "Ann" refl
      ann_parts refl refl

abbrev first_conf : NodeConf
first_conf = record apply_node.conf { members = "user@3@Bob" ∷ "user@7@Ann" ∷ [] }

-- Bob alone is to handle the second node
abbrev approved : Workflow
approved = record {
  id = 5;
  wid = "20230522151400123";
  node = "approve";
  status = Status.wait;
  creator = 7;
  template = record {
    nodes = first_conf ∷ record approve_node.conf { members = "user@3@Bob" ∷ [] } ∷ [];
  };
}

abbrev applied : History
applied = record {
  id = 0;
  workflow = 5;
  node = "apply";
  handle_type = none;
  operator = 7;
  form = create_request.form;
}

abbrev begun : Handled
begun = record {
  life = record {
    workflow_obj = approved;
    node_obj = record applied { id = 1; handle_type = some HandleType.passed };
    original_current_node_conf = some first_conf;
    form = create_request.form;
  };
  db = record no_tickets {
    workflows = approved ∷ [];
    histories = record applied { id = 1; handle_type = some HandleType.passed } ∷ [];
    next_history = 2;
  };
  on_commit = true;
}

ticket_begun :
    create_ticket create_env create_request (apply_node ∷ approve_node ∷ []) no_tickets ≡ ok begun
unfolding create_ticket may_start add_self split lookup create_workflow merge_members merge_rest
    without_first begin_ticket start_ticket assign_fields assign_nodes extend_members handle_created
    mapped_member mapped_members new_history new_workflow selected_users enter complete
    get_next_node_name handle next next_node_index prev_node_history cur_node_conf
    get_member_user_ids three_parts has_text ids_of
ticket_begun = refl

create_ticket-second_example : IsBegun ("apply" ∷ "approve" ∷ []) approved
create_ticket-second_example =
    create_ticket-second create_env create_request (apply_node ∷ approve_node ∷ []) no_tickets begun
      refl ticket_begun
