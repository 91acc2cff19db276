-- ===== src/Workflow/Tests.antt =====
-- A ticket in a template of three nodes, runs of the engine on it, and the theorems at it.
use devops_backend.Prelude.{
  ◌⊎◌, ℕ, String, ◌≡◌, ◌≢◌, refl, true, false, Option, none, some, List, [], ◌∷◌, arith, eq_iff,
  ◌==◌, text_key, number_key, if◌then◌else◌, All,
}
use devops_backend.Outcome.{ok, ◌>>=◌}
use devops_backend.Workflow.Model.{
  Status, HandleType, CallbackInfo, NodeConf, Template, Workflow, History, Form, absent, text,
}
use devops_backend.Workflow.LifeCycle.{
  Env, Db, Handled, life_cycle, next, handle_passed, count_handled, member_user, save_both, mark,
  is_passed_form,
}
use devops_backend.Workflow.Views.{close}
use devops_backend.Workflow.Upcoming.{UpdateRequest, submit}
use devops_backend.Workflow.Countersign.{HasSigned, countersign}
use devops_backend.Workflow.Resubmit.{
  submit-reject, submit-returns, waiting, rejected, after_reject, submitted_row,
}
use devops_backend.Workflow.Passing.{pass_all, pass_all-complete, IsPassable}
use devops_backend.Workflow.Tables.{IsSound}
use devops_backend.Workflow.Commits.{Kept}
use devops_backend.Workflow.Reach.{here, after, closed, Reach-Kept}
use devops_backend.Workflow.Reopen.{submit-any_status}

abbrev users : String → Option ℕ
users id = if id == "1" then some 1 else if id == "2" then some 2 else none

abbrev env : Env
env = record { find_user = users; user_text = λ u. "user@1@Ann"; node_form_valid = λ name. true }

abbrev plain_node : String → NodeConf
plain_node name = record { name = name; pass_type = "normal"; members = []; callbacks = [] }

abbrev signers : NodeConf
signers = record (plain_node "sign") {
  pass_type = "countersigned";
  members = "user@1@Ann" ∷ "user@2@Bob" ∷ [];
}

abbrev three : Template
three = record { nodes = plain_node "apply" ∷ plain_node "review" ∷ plain_node "ops" ∷ [] }

abbrev at_node : String → Workflow
at_node name = record {
  id = 7;
  wid = "w7";
  node = name;
  status = Status.wait;
  creator = 1;
  template = three;
}

abbrev plain_form : Form
plain_form = record { handle_type = absent; next_handle_user = [] }

abbrev reject_form : Form
reject_form = record { handle_type = text "reject"; next_handle_user = [] }

abbrev first_row : History
first_row = record {
  id = 1;
  workflow = 7;
  node = "apply";
  handle_type = some HandleType.passed;
  operator = 1;
  form = plain_form;
}

abbrev db_at : String → Db
db_at name = record {
  workflows = at_node name ∷ [];
  histories = first_row ∷ [];
  next_history = 2;
  callbacks = [];
  next_callback = 1;
  tasks = [];
}

abbrev request_with : Form → UpdateRequest
request_with form = record { wid = "w7"; user = 2; node = "review"; form = form }

abbrev row_at : String → History
row_at name = record first_row { id = 2; node = name }

countersign_example :
    (All (HasSigned env (db_at "review") 7) signers.members
      × (handle_passed env
            (life_cycle (at_node "review") (row_at "review") plain_form)
            (db_at "review")
            signers
          ≡ (next (life_cycle (at_node "review") (row_at "review") plain_form) (db_at "review")
              >>= λ w. ok (
                  save_both
                    (life_cycle (at_node "review") (row_at "review") plain_form)
                    w
                    (mark HandleType.passed (row_at "review"))
                    true
                    (db_at "review")))))
    ⊎ ((¬ All (HasSigned env (db_at "review") 7) signers.members)
        × (handle_passed env
              (life_cycle (at_node "review") (row_at "review") plain_form)
              (db_at "review")
              signers
            ≡ ok (
                save_both
                  (life_cycle (at_node "review") (row_at "review") plain_form)
                  (at_node "review")
                  (mark HandleType.passed (row_at "review"))
                  false
                  (db_at "review"))))
unfolding member_user
countersign_example =
    countersign env (life_cycle (at_node "review") (row_at "review") plain_form) (db_at "review")
      signers refl ((1, refl), ((2, refl), tt))

-- the first signer has passed the node `apply` only, and counts at the node `sign`
early_pass_counts : count_handled env (db_at "review") 7 0 ("user@1@Ann" ∷ []) ≡ ok 1
unfolding count_handled
early_pass_counts = refl

submit-reject_example :
    submit env (request_with reject_form) (at_node "review") reject_form (db_at "review")
    ≡ ok (record {
      life =
          record (life_cycle
            (waiting (at_node "review"))
            (submitted_row
              (at_node "review")
              (request_with reject_form)
              reject_form
              HandleType.reject
              (db_at "review"))
            reject_form) {
              workflow_obj = rejected (at_node "review") (plain_node "apply");
              node_obj =
                  submitted_row
                    (at_node "review")
                    (request_with reject_form)
                    reject_form
                    HandleType.reject
                    (db_at "review");
            };
      db =
          after_reject
            (request_with reject_form)
            (at_node "review")
            reject_form
            (db_at "review")
            (plain_node "apply");
      on_commit = true;
    })
submit-reject_example =
    submit-reject env (request_with reject_form) (at_node "review") reject_form (db_at "review") 1
      (plain_node "apply") (plain_node "review" ∷ plain_node "ops" ∷ []) refl refl refl refl

submit-returns_example :
    (h : Handled) × (submit env
        (request_with plain_form)
        (rejected (at_node "review") (plain_node "apply"))
        plain_form
        (after_reject
          (request_with reject_form)
          (at_node "review")
          reject_form
          (db_at "review")
          (plain_node "apply"))
      ≡ ok h)
    × (h.life.workflow_obj ≡ waiting (at_node "review"))
submit-returns_example =
    submit-returns env (request_with reject_form) (request_with plain_form) (at_node "review")
      reject_form plain_form (db_at "review") (plain_node "apply") 1
      (plain_node "review" ∷ plain_node "ops" ∷ []) refl (unfold is_passed_form in refl, refl) refl
      refl (ground (arith, eq_iff "normal" "countersigned")) refl
      (ground (arith, eq_iff "review" ""))

passable : (name : String) → name ≢ "" → IsPassable env (plain_node name)
passable name named = (ground (arith, eq_iff "normal" "countersigned"), refl, named)

pass_all-complete_example :
    (db' : Db) × (pass_all env
        (request_with plain_form ∷ request_with plain_form ∷ [])
        (at_node "review")
        (db_at "review")
      ≡ ok (record (at_node "review") { node = "ops"; status = Status.complete }, db'))
pass_all-complete_example =
    pass_all-complete env ("apply" ∷ []) "review" ("ops" ∷ [])
      (request_with plain_form ∷ request_with plain_form ∷ []) (at_node "review") (db_at "review")
      refl ((unfold is_passed_form in refl, refl), ((unfold is_passed_form in refl, refl), tt))
      (
        passable "apply" (ground (arith, eq_iff "apply" "")),
        (
          passable "review" (ground (arith, eq_iff "review" "")),
          (passable "ops" (ground (arith, eq_iff "ops" "")), tt),
        ),
      )
      (refl, (refl, (refl, tt))) refl refl refl (omega arith, tt)

abbrev infos : List CallbackInfo
infos =
    record { type = "all"; url = "/a" }
    ∷ record { type = "reject"; url = "/b" }
    ∷ record { type = "passed"; url = "/c" }
    ∷ []

submit-any_status_example :
    submit env
      (request_with plain_form)
      (record (at_node "review") { status = Status.close })
      plain_form
      (db_at "review")
    ≡ submit env (request_with plain_form) (at_node "review") plain_form (db_at "review")
submit-any_status_example =
    submit-any_status env (request_with plain_form) (at_node "review") Status.close plain_form
      (db_at "review")

IsSound-at : IsSound (db_at "review")
IsSound-at = record { placed = (refl, tt); descending = (omega arith, tt) }

abbrev closed_db : Db
closed_db = record (db_at "review") {
  workflows = record (at_node "review") { status = Status.close } ∷ [];
  histories =
      record first_row { id = 2; handle_type = some HandleType.close; operator = 2 }
      ∷ first_row
      ∷ [];
  next_history = 3;
}

close_review : close 7 2 (db_at "review") ≡ ok closed_db
unfolding close
close_review = refl

Reach-Kept_example : Kept (db_at "review") closed_db
Reach-Kept_example =
    Reach-Kept env (db_at "review") closed_db IsSound-at (after here (closed 7 2 close_review))
