-- ===== src/Workflow/Reopen.antt =====
-- What the handling of a node asks of the status of its ticket.
use devops_backend.Prelude.{◌≡◌, refl}
use devops_backend.Workflow.Model.{Status, Workflow, Form}
use devops_backend.Workflow.LifeCycle.{Env, Db}
use devops_backend.Workflow.Upcoming.{UpdateRequest, submit}

-- A request is handled in the same way, with the same outcome, whatever the status of the ticket: a
-- closed, revoked or completed ticket too is handled as a waiting one.
pub submit-any_status :
    (env : Env) (request : UpdateRequest) (w : Workflow) (s : Status) (form : Form) (db : Db)
    → submit env request (record w { status = s }) form db ≡ submit env request w form db
unfolding submit
submit-any_status env request w s form db = refl
