-- ===== src/Workflow/Reach.antt =====
-- Any sequence of requests on the tickets, each committed or rolled back as a whole.
use mathlib.Core.List.{append_assoc}
use devops_backend.Prelude.{ℕ, ◌≡◌, refl, ◌∙◌, ap, sym, subst, [], ◌++◌}
use devops_backend.Outcome.{ok}
use devops_backend.Workflow.LifeCycle.{Env, Db, LifeCycle, Handled}
use devops_backend.Workflow.Callback.{exec_callback}
use devops_backend.Workflow.Views.{revoke, close, complete_order}
use devops_backend.Workflow.Upcoming.{UpdateRequest, success, update}
use devops_backend.Workflow.Tables.{IsSound}
use devops_backend.Workflow.Commits.{
  Kept, Extends, revoke-Kept, close-Kept, complete_order-Kept, update-Kept, exec_callback-Kept,
}

-- one committed request, or the calls of a handled node after its commit
pub data Step (env : Env) (db db' : Db) : Type 0 where
  revoked : (pk user : ℕ) → revoke pk user db ≡ ok db' → Step env db db'
  closed : (pk user : ℕ) → close pk user db ≡ ok db' → Step env db db'
  completed : (pk user : ℕ) → complete_order pk user db ≡ ok db' → Step env db db'
  handled :
      (request : UpdateRequest) (h : Handled)
      → update env request db ≡ ok (success h)
      → db' ≡ h.db
      → Step env db db'
  called : (lc : LifeCycle) → exec_callback lc db ≡ ok db' → Step env db db'

pub data Reach (env : Env) (db : Db) : Db → Type 0 where
  here : Reach env db db
  after : {a b : Db} → Reach env db a → Step env a b → Reach env db b

Step-Kept : {env : Env} {db db' : Db} → Step env db db' → IsSound db → Kept db db'
Step-Kept {db = db} {db' = db'} (revoked pk user e) sound = revoke-Kept pk user db db' e sound
Step-Kept {db = db} {db' = db'} (closed pk user e) sound = close-Kept pk user db db' e sound
Step-Kept {db = db} {db' = db'} (completed pk user e) sound =
    complete_order-Kept pk user db db' e sound
Step-Kept {env} {db = db} (handled request h e same) sound =
    subst (Kept db) (sym same) (update-Kept env request db h e sound)
Step-Kept {db = db} {db' = db'} (called lc e) sound = exec_callback-Kept lc db db' e sound

Extends-trans : (a b c : Db) → Extends a b → Extends b c → Extends a c
Extends-trans a b c (rows, e) (more, f) =
    (more ++ rows, f ∙ ap (λ l. more ++ l) e ∙ sym (append_assoc more rows a.histories))

-- From sound tables, after any requests and their calls, every ticket stands at a node of its own
-- template, the keys of the history fall from the newest row to the oldest, and every row that was
-- there is there unchanged, below the new ones.
pub Reach-Kept : (env : Env) (db db' : Db) → IsSound db → Reach env db db' → Kept db db'
Reach-Kept env db db' sound here = (sound, ([], refl))
Reach-Kept env db db' sound (after {a} r st) =
    let before = Reach-Kept env db a sound r in
    let later = Step-Kept st before.0 in (later.0, Extends-trans db a db' before.1 later.1)
