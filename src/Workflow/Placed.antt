-- ===== src/Workflow/Placed.antt =====
-- A ticket always stands at a node of its own template: every operation keeps this.
use devops_backend.Prelude.{
  ℕ, ◌+◌, String, ◌≡◌, refl, Bool, true, some, List, arith, text_key, contains, index_of, get_elem?,
  set, contains-get_elem?, map-set, Option-cases, inl, inr,
}
use devops_backend.Outcome.{ok, Result-cases}
use devops_backend.Workflow.Model.{NodeConf, Workflow, Form, node_list}
use devops_backend.Workflow.LifeCycle.{
  Env, Db, LifeCycle, Handled, prev_node_history, next_node_index, next, enter, reject, handle,
}
use devops_backend.Workflow.Upcoming.{assign_next, member_list}

abbrev pub IsPlaced : Workflow → Type 0
IsPlaced w = contains (node_list w.template) w.node ≡ true

-- what an operation on a ticket leaves alone
pub record SameTicket (w v : Workflow) : Type 0 where
  pub same_id : v.id ≡ w.id
  pub same_wid : v.wid ≡ w.wid
  pub same_creator : v.creator ≡ w.creator
  pub same_nodes : node_list v.template ≡ node_list w.template

enter-IsPlaced :
    (w : Workflow) (i : ℕ) → IsPlaced w → IsPlaced (enter (get_elem? (node_list w.template) i) w)
unfolding enter
enter-IsPlaced w i p = elim (Option-cases (get_elem? (node_list w.template) i)) [
  | inl q ↦ rw q p
  | inr q ↦ ground (arith, contains-get_elem? (node_list w.template) i q.0 q.1)
]

pub next-IsPlaced :
    (lc : LifeCycle) (db : Db) (v : Workflow)
    → next lc db ≡ ok v
    → IsPlaced lc.workflow_obj
    → IsPlaced v
unfolding next
next-IsPlaced lc db v h p =
    elim (Result-cases (next_node_index (prev_node_history lc db) lc.workflow_obj)) [
      | inl q ↦ ground (arith, enter-IsPlaced lc.workflow_obj q.0 p)
      | inr q ↦ ground arith
    ]

pub next-SameTicket :
    (lc : LifeCycle) (db : Db) (v : Workflow) → next lc db ≡ ok v → SameTicket lc.workflow_obj v
unfolding next
next-SameTicket lc db v h = ground arith

pub reject-IsPlaced : (w v : Workflow) → reject w ≡ ok v → IsPlaced v
unfolding reject
reject-IsPlaced w v h = ground (arith, contains-get_elem? (node_list w.template) 0 v.node)

pub reject-SameTicket : (w v : Workflow) → reject w ≡ ok v → SameTicket w v
unfolding reject
reject-SameTicket w v h = ground arith

pub handle-SameTicket :
    (env : Env) (check_form : Bool) (lc : LifeCycle) (db : Db) (h : Handled)
    → handle env check_form lc db ≡ ok h
    → SameTicket lc.workflow_obj h.life.workflow_obj
unfolding handle
handle-SameTicket env c lc db h e = ground (arith, next-SameTicket lc db)

pub handle-IsPlaced :
    (env : Env) (check_form : Bool) (lc : LifeCycle) (db : Db) (h : Handled)
    → handle env check_form lc db ≡ ok h
    → IsPlaced lc.workflow_obj
    → IsPlaced h.life.workflow_obj
unfolding handle
handle-IsPlaced env c lc db h e p = ground (
  arith,
  next-IsPlaced lc db h.life.workflow_obj,
  reject-IsPlaced lc.workflow_obj h.life.workflow_obj,
)

-- the nodes with the members of one of them replaced
set_members-node_list :
    (w : Workflow) (i : ℕ) (conf : NodeConf) (members : List String)
    → get_elem? w.template.nodes i ≡ some conf
    → node_list (record { nodes = set w.template.nodes i (record conf { members = members }) })
      ≡ node_list w.template
set_members-node_list w i conf members found =
    map-set (λ n. n.name) w.template.nodes i conf (record conf { members = members }) found refl

pub assign_next-SameTicket :
    (env : Env) (form : Form) (w v : Workflow)
    → assign_next env form w ≡ ok v
    → SameTicket w v × (v.node ≡ w.node) × (v.status ≡ w.status)
unfolding assign_next
assign_next-SameTicket env form w v e =
    elim (Option-cases (index_of (node_list w.template) w.node)) [
      | inl q ↦ ground arith
      | inr q ↦ elim (Option-cases (get_elem? w.template.nodes (q.0 + 1))) [
        | inl r ↦ ground arith
        | inr r ↦ ground (
          arith,
          set_members-node_list w (q.0 + 1) r.0 (member_list env form.next_handle_user) r.1,
        )
      ]
    ]
