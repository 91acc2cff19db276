-- ===== src/Workflow/Tables.antt =====
-- The tables of the ticket engine over any sequence of requests: where every ticket stands, and the
-- history as an audit trail that only grows.
use devops_backend.Prelude.{
  ℕ, suc, ◌<◌, ◌≤◌, ◌≡◌, refl, sym, subst, Bool, true, List, [], ◌∷◌, arith, ◌==◌, text_key,
  number_key, All, if-ind, inl, inr,
}
use devops_backend.Outcome.{ok, Result-cases}
use devops_backend.Workflow.Model.{Status, Workflow, History, Form}
use devops_backend.Workflow.LifeCycle.{
  Env, Db, LifeCycle, Handled, life_cycle, handle, replace_workflow, replace_history, save_workflow,
  save_history,
}
use devops_backend.Workflow.Views.{insert_history}
use devops_backend.Workflow.Upcoming.{UpdateRequest, submit, assign_next, node_form}
use devops_backend.Workflow.Placed.{IsPlaced, handle-IsPlaced, assign_next-SameTicket}

-- the rows below a key, newest first
abbrev pub IsDescending : ℕ → List History → Type 0
IsDescending n [] = Unit
IsDescending n (h ∷ hs) = (h.id < n) × IsDescending h.id hs

pub record IsSound (db : Db) : Type 0 where
  pub placed : All IsPlaced db.workflows
  pub descending : IsDescending db.next_history db.histories

pub replace_workflow-All :
    (w : Workflow) (ws : List Workflow)
    → IsPlaced w
    → All IsPlaced ws
    → All IsPlaced (replace_workflow w ws)
replace_workflow-All w [] p all = tt
replace_workflow-All w (v ∷ vs) p all =
    (if-ind IsPlaced (v.id == w.id) w v p all.0, replace_workflow-All w vs p all.1)

-- a row whose key is above those of the table is not in it
pub replace_history-above :
    (h : History) (n : ℕ) (hs : List History)
    → n ≤ h.id
    → IsDescending n hs
    → replace_history h hs ≡ hs
replace_history-above h n [] le d = refl
replace_history-above h n (g ∷ gs) le d = ground (arith, replace_history-above h g.id gs)

-- what a handled request leaves of the tables
handle-db :
    (env : Env) (check_form : Bool) (lc : LifeCycle) (db : Db) (h : Handled)
    → handle env check_form lc db ≡ ok h
    → (h.db ≡ save_workflow h.life.workflow_obj (save_history h.life.node_obj db))
      × (h.life.node_obj.id ≡ lc.node_obj.id)
unfolding handle
handle-db env c lc db h e = ground arith

-- a submitted request that succeeds has found a valid node, assigned the members and handled the row
submit-inv :
    (env : Env) (request : UpdateRequest) (w : Workflow) (form : Form) (db : Db) (h : Handled)
    → submit env request w form db ≡ ok h
    → (v : Workflow) × (assign_next env form (record w { status = Status.wait }) ≡ ok v)
      × (handle env true
            (life_cycle v (record (node_form w request form) { id = db.next_history }) form)
            (save_workflow v (insert_history (node_form w request form) db))
          ≡ ok h)
unfolding submit
submit-inv env request w form db h e =
    elim (Result-cases (assign_next env form (record w { status = Status.wait }))) [
      | inl q ↦ (q.0, q.1, ground (arith, q.1))
      | inr q ↦ absurd (ground (arith, q.1))
    ]

pub submit-row :
    (env : Env) (request : UpdateRequest) (w : Workflow) (form : Form) (db : Db) (h : Handled)
    → submit env request w form db ≡ ok h
    → IsSound db
    → (h.db.histories ≡ h.life.node_obj ∷ db.histories)
      × (h.life.node_obj.id ≡ db.next_history)
      × (h.db.next_history ≡ suc db.next_history)
submit-row env request w form db h e sound =
    let (v, assigned, handled) = submit-inv env request w form db h e in
    let (saved, same) = handle-db env true _ _ h handled in
    ground (arith, saved, same, replace_history-above h.life.node_obj db.next_history db.histories)

submit-IsPlaced :
    (env : Env) (request : UpdateRequest) (w : Workflow) (form : Form) (db : Db) (h : Handled)
    → submit env request w form db ≡ ok h
    → IsPlaced w
    → All IsPlaced db.workflows
    → All IsPlaced h.db.workflows
submit-IsPlaced env request w form db h e p all =
    let (v, assigned, handled) = submit-inv env request w form db h e in
    let (saved, same) = handle-db env true _ _ h handled in
    let (ticket, node, status) =
      assign_next-SameTicket env form (record w { status = Status.wait }) v assigned in
    let pv : IsPlaced v = ground (arith, ticket.same_nodes, node) in
    subst (λ (d : Db). All IsPlaced d.workflows) (sym saved)
      (replace_workflow-All h.life.workflow_obj _ (handle-IsPlaced env true _ _ h handled pv)
        (replace_workflow-All v db.workflows pv all))

pub submit-IsSound :
    (env : Env) (request : UpdateRequest) (w : Workflow) (form : Form) (db : Db) (h : Handled)
    → submit env request w form db ≡ ok h
    → IsPlaced w
    → IsSound db
    → IsSound h.db
submit-IsSound env request w form db h e p sound = record {
  placed = submit-IsPlaced env request w form db h e p sound.placed;
  descending = ground (arith, submit-row env request w form db h e sound, sound.descending);
}
