-- ===== src/Workflow/Resubmit.antt =====
-- A rejected ticket and its way back, over two handled requests.
use devops_backend.Prelude.{
  ℕ, String, ◌≡◌, ◌≢◌, refl, true, some, List, [], ◌∷◌, arith, eq_iff, text_key, number_key,
  index_of, get_elem?, get_elem?-index_of, get_elem?-map_inv,
}
use devops_backend.Outcome.{ok, ◌>>=◌}
use devops_backend.Workflow.Model.{
  Status, HandleType, NodeConf, Template, Workflow, History, Form, text, node_list, get_node_conf,
}
use devops_backend.Workflow.LifeCycle.{
  Env, Db, LifeCycle, Handled, life_cycle, is_passed_form, next, prev_node_history, save_workflow,
  save_history, save_both, handle_passed,
}
use devops_backend.Workflow.Movement.{next-returns}
use devops_backend.Workflow.Views.{insert_history}
use devops_backend.Workflow.Upcoming.{UpdateRequest, submit}

-- the history row that a request with this form leaves
abbrev pub submitted_row : Workflow → UpdateRequest → Form → HandleType → Db → History
submitted_row w request form t db = record {
  id = db.next_history;
  workflow = w.id;
  node = w.node;
  handle_type = some t;
  operator = request.user;
  form = form;
}

pub get_node_conf-total :
    (t : Template) (name : String) (i : ℕ)
    → index_of (node_list t) name ≡ some i
    → (conf : NodeConf) × (get_node_conf t name ≡ ok conf)
      × (get_elem? t.nodes i ≡ some conf)
      × (conf.name ≡ name)
unfolding get_node_conf
get_node_conf-total t name i at =
    let found = get_elem?-index_of (node_list t) name i at in
    let conf = get_elem?-map_inv (λ n. n.name) t.nodes i name found in
    (conf.0, ground (arith, conf.1), conf.1, conf.2)

get_node_conf-first :
    (t : Template) (first : NodeConf) (rest : List NodeConf)
    → t.nodes ≡ first ∷ rest
    → get_node_conf t first.name ≡ ok first
unfolding get_node_conf
get_node_conf-first t first rest nodes = ground (arith, eq_iff first.name first.name)

-- a ticket row and a history row written, the ticket once before the row was handled
abbrev pub written : Workflow → Workflow → History → Db → Db
written before after row db =
    save_workflow after (save_history row (save_workflow before (insert_history row db)))

abbrev pub rejected : Workflow → NodeConf → Workflow
rejected w first = record w { node = first.name; status = Status.reject }

module _ (env : Env) (request : UpdateRequest) (w : Workflow) (form : Form) (db : Db) where
  -- A rejection puts the ticket back to the first node of its template with the status reject, leaves
  -- a row of type reject for the node that rejected, and registers the calls on commit.
  pub submit-reject :
      (i : ℕ) (first : NodeConf) (rest : List NodeConf)
      → form.handle_type ≡ text "reject"
      → env.node_form_valid w.node ≡ true
      → w.template.nodes ≡ first ∷ rest
      → index_of (node_list w.template) w.node ≡ some i
      → submit env request w form db
        ≡ ok (record {
          life =
              record (life_cycle
                (record w { status = Status.wait })
                (submitted_row w request form HandleType.reject db)
                form) {
                  workflow_obj = rejected w first;
                  node_obj = submitted_row w request form HandleType.reject db;
                };
          db =
              written
                (record w { status = Status.wait })
                (rejected w first)
                (submitted_row w request form HandleType.reject db)
                db;
          on_commit = true;
        })
  unfolding submit
  submit-reject i first rest rejects valid nodes at =
      ground (arith, get_node_conf-total w.template w.node i at)

-- the form of a plain pass: no other decision, and no members named for the next node
abbrev pub IsPlainPass : Form → Type 0
IsPlainPass form = (is_passed_form form.handle_type ≡ true) × (form.next_handle_user ≡ [])

-- the life cycle that a plain pass starts, and the tables that it reads
abbrev pub pass_row : UpdateRequest → Workflow → Form → Db → History
pass_row request v form db = submitted_row v request form HandleType.passed db

abbrev pub waiting : Workflow → Workflow
waiting v = record v { status = Status.wait }

abbrev pub pass_life : UpdateRequest → Workflow → Form → Db → LifeCycle
pass_life request v form db = life_cycle (waiting v) (pass_row request v form db) form

abbrev pub pass_db : UpdateRequest → Workflow → Form → Db → Db
pass_db request v form db =
    save_workflow (waiting v) (insert_history (pass_row request v form db) db)

module _ (env : Env) (request : UpdateRequest) (v : Workflow) (form : Form) (db : Db) where
  -- A plain pass at a node that is not countersigned is one `next`, whose result is saved.
  pub submit-pass :
      (conf : NodeConf)
      → IsPlainPass form
      → env.node_form_valid v.node ≡ true
      → get_node_conf v.template v.node ≡ ok conf
      → conf.pass_type ≢ "countersigned"
      → submit env request v form db ≡ (
          next (pass_life request v form db) (pass_db request v form db) >>= λ u. ok (
            save_both
              (pass_life request v form db)
              u
              (pass_row request v form db)
              true
              (pass_db request v form db)))
  unfolding submit handle_passed
  submit-pass conf plain valid found single = ground (arith, eq_iff conf.pass_type "countersigned")

-- the tables after a rejection
abbrev pub after_reject : UpdateRequest → Workflow → Form → Db → NodeConf → Db
after_reject request w form db first =
    written (waiting w) (rejected w first) (submitted_row w request form HandleType.reject db) db

module _ (env : Env) (request again : UpdateRequest) (w : Workflow) (form pass : Form) (db : Db)
    (first : NodeConf) where
  prev-reject :
      prev_node_history
        (pass_life again (rejected w first) pass (after_reject request w form db first))
        (pass_db again (rejected w first) pass (after_reject request w form db first))
      ≡ some (submitted_row w request form HandleType.reject db)
  unfolding prev_node_history
  prev-reject = ground arith

  -- A rejected ticket that is handed in again at its first node goes back to the node that rejected
  -- it, and waits there.
  pub submit-returns :
      (i : ℕ) (rest : List NodeConf)
      → form.handle_type ≡ text "reject"
      → IsPlainPass pass
      → env.node_form_valid first.name ≡ true
      → w.template.nodes ≡ first ∷ rest
      → first.pass_type ≢ "countersigned"
      → index_of (node_list w.template) w.node ≡ some i
      → w.node ≢ ""
      → (h : Handled) × (submit env again
            (rejected w first)
            pass
            (after_reject request w form db first)
          ≡ ok h)
        × (h.life.workflow_obj ≡ waiting w)
  submit-returns i rest rejects plain valid nodes single at named =
      let back = next-returns life tables w.node i (ground (arith, prev-reject)) at named in
      (
        save_both life (waiting w)
            (pass_row again (rejected w first) pass (after_reject request w form db first)) true
            tables,
        ground (
          arith,
          back,
          submit-pass env again (rejected w first) pass (after_reject request w form db first) first
              plain valid (get_node_conf-first w.template first rest nodes) single,
        ),
        refl,
      )
    where
      life : LifeCycle
      life = pass_life again (rejected w first) pass (after_reject request w form db first)

      tables : Db
      tables = pass_db again (rejected w first) pass (after_reject request w form db first)
