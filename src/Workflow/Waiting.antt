-- ===== src/Workflow/Waiting.antt =====
-- The node at which a new ticket waits, in apps/workflow/views/workflow.py.
use devops_backend.Prelude.{
  ℕ, String, ◌≡◌, refl, sym, ap, ◌∙◌, subst, ◌⊎◌, inl, inr, false, ◌&&◌, none, some, List, [], ◌∷◌,
  map, arith, eq_iff, ltb, text_key, number_key, ◌==◌, Bool-cases, Option-cases, get_elem?, any,
  first_where, index_of,
}
use devops_backend.Outcome.{ok, Result-cases}
use devops_backend.Workflow.Model.{Status, Workflow, History, node_list}
use devops_backend.Workflow.LifeCycle.{
  Db, Handled, handle, next, enter, complete, get_next_node_name, next_node_index,
  prev_node_history,
}
use devops_backend.Workflow.Start.{may_start}
use devops_backend.Workflow.Create.{
  CreateEnv, CreateRequest, CreateNode, Created, created, turned_down, merge_members, assign_fields,
  new_workflow, new_history, start_ticket, begin_ticket, create_workflow, handle_created,
  create_ticket,
}
use devops_backend.Workflow.Second.{names_of, names_of-merge_members, names_of-assign_fields}

-- a new row of a ticket: waiting, at the first of the names
abbrev IsOpened : CreateEnv → List String → Workflow → Type 0
IsOpened env names w =
    (w.id ≡ env.new_id)
    × ((w.status ≡ Status.wait)
        × ((node_list w.template ≡ names) × (get_elem? names 0 ≡ some w.node)))

node_list-confs :
    (nodes : List CreateNode)
    → node_list (record { nodes = map (λ n. n.conf) nodes }) ≡ names_of nodes
node_list-confs [] = refl
node_list-confs (n ∷ nodes) = ap (λ t. n.conf.name ∷ t) (node_list-confs nodes)

start_ticket-IsOpened :
    (env : CreateEnv) (request : CreateRequest) (first : CreateNode) (rest : List CreateNode)
    (w : Workflow) (row : History)
    → start_ticket env request first (first ∷ rest) ≡ ok (created w row)
    → IsOpened env (names_of (first ∷ rest)) w × (row ≡ new_history request w)
unfolding start_ticket new_workflow
start_ticket-IsOpened env request first rest w row q = elim (Bool-cases env.workflow_valid) [
  | inr invalid ↦ absurd (ground (arith, q, invalid))
  | inl valid ↦ elim (Result-cases (assign_fields env request first.form_models (first ∷ rest))) [
    | inr error ↦ absurd (ground (arith, q, valid, error.1))
    | inl assigned ↦
        let made : Workflow = new_workflow env request first.conf.name assigned.0 in
        elim (Bool-cases (env.env.node_form_valid made.node)) [
          | inr refused ↦ absurd (ground (arith, q, valid, assigned.1, refused))
          | inl passed ↦
              let e : made ≡ w = ground (arith, q, valid, assigned.1, passed) in
              let r : new_history request made ≡ row =
                ground (arith, q, valid, assigned.1, passed) in
              let names =
                node_list-confs assigned.0
                ∙ names_of-assign_fields env request first.form_models (first ∷ rest) assigned.0
                    assigned.1 in
              subst (λ v. IsOpened env (names_of (first ∷ rest)) v × (row ≡ new_history request v))
                e ((refl, (refl, (names, refl))), sym r)
        ]
  ]
]

begin_ticket-IsOpened :
    (env : CreateEnv) (request : CreateRequest) (merged : List CreateNode) (w : Workflow)
    (row : History)
    → begin_ticket env request merged ≡ ok (created w row)
    → IsOpened env (names_of merged) w × (row ≡ new_history request w)
unfolding begin_ticket
begin_ticket-IsOpened env request [] w row q = absurd (ground (arith, q))
begin_ticket-IsOpened env request (first ∷ rest) w row q =
    elim (Result-cases (may_start env.departments first.conf.members request.starter)) [
      | inr error ↦ absurd (ground (arith, q, error.1))
      | inl allowed ↦ elim (Bool-cases allowed.0) [
        | inr denied ↦ absurd (ground (arith, q, allowed.1, denied))
        | inl let_in ↦
            start_ticket-IsOpened env request first rest w row
              (ground (arith, q, allowed.1, let_in))
      ]
    ]

create_workflow-IsOpened :
    (env : CreateEnv) (request : CreateRequest) (nodes : List CreateNode) (w : Workflow)
    (row : History)
    → create_workflow env request nodes ≡ ok (created w row)
    → IsOpened env (names_of nodes) w × (row ≡ new_history request w)
unfolding create_workflow
create_workflow-IsOpened env request nodes w row q =
    elim (Result-cases (merge_members env.listed request.self_member nodes request.extra)) [
      | inr error ↦ absurd (ground (arith, q, error.1))
      | inl merged ↦
          let names =
            names_of-merge_members env.listed request.self_member nodes request.extra merged.0
              merged.1 in
          let begun : begin_ticket env request merged.0 ≡ ok (created w row) =
            ground (arith, q, merged.1) in
          subst (λ ns. IsOpened env ns w × (row ≡ new_history request w)) names
            (begin_ticket-IsOpened env request merged.0 w row begun)
    ]

none_before :
    (id k : ℕ) (hs : List History)
    → any (λ h. h.workflow == id) hs ≡ false
    → first_where (λ h. h.workflow == id && ltb h.id k) hs ≡ none
none_before id k [] fresh = refl
none_before id k (h ∷ hs) fresh = ground (arith, none_before id k hs, fresh)

index_of-head :
    (names : List String) (name : String)
    → get_elem? names 0 ≡ some name
    → index_of names name ≡ some 0
index_of-head [] name at = absurd (ground (arith, at))
index_of-head (x ∷ names) name at = ground (arith, at, eq_iff x name)

-- the first handling of a ticket that has no earlier history row
handle_created-enter :
    (env : CreateEnv) (request : CreateRequest) (db : Db) (w : Workflow) (row : History)
    (handled : Handled)
    → any (λ h. h.workflow == w.id) db.histories ≡ false
    → get_elem? (node_list w.template) 0 ≡ some w.node
    → row ≡ new_history request w
    → handle_created env request db (created w row) ≡ ok handled
    → handled.life.workflow_obj ≡ enter (get_elem? (node_list w.template) 1) w
unfolding handle_created handle next get_next_node_name next_node_index prev_node_history
    new_history
handle_created-enter env request db w row handled fresh at r q =
    let before = none_before w.id db.next_history db.histories fresh in
    let index = index_of-head (node_list w.template) w.node at in
    ground (arith, q, before, index, r)

-- where a ticket stands behind its first node
abbrev pub IsBegun : List String → Workflow → Type 0
IsBegun names w =
    (node_list w.template ≡ names)
    × (((w.status ≡ Status.wait) × (get_elem? names 1 ≡ some w.node))
        ⊎ ((w.status ≡ Status.complete)
            × ((get_elem? names 0 ≡ some w.node)
                × ((get_elem? names 1 ≡ none) ⊎ (get_elem? names 1 ≡ some "")))))

enter-IsBegun :
    (env : CreateEnv) (names : List String) (w : Workflow)
    → IsOpened env names w
    → IsBegun names (enter (get_elem? names 1) w)
unfolding enter complete
enter-IsBegun env names w opened = elim (Option-cases (get_elem? names 1)) [
  | inl over ↦ rw over (opened.1.1.0, inr (refl, (opened.1.1.1, inl refl)))
  | inr n ↦ elim (Bool-cases (n.0 == "")) [
    | inl empty ↦
        let nameless : n.0 ≡ "" = (eq_iff n.0 "").0 empty in
        rw (n.1, empty) (opened.1.1.0, inr (refl, (opened.1.1.1, inr (ap some nameless))))
    | inr named ↦ rw (n.1, named) (opened.1.1.0, inl (opened.1.0, refl))
  ]
]

handle_created-IsBegun :
    (env : CreateEnv) (request : CreateRequest) (nodes : List CreateNode) (db : Db)
    (handled : Handled) (reply : Created)
    → any (λ h. h.workflow == env.new_id) db.histories ≡ false
    → create_workflow env request nodes ≡ ok reply
    → handle_created env request db reply ≡ ok handled
    → IsBegun (names_of nodes) handled.life.workflow_obj
unfolding handle_created
handle_created-IsBegun env request nodes db handled turned_down fresh r q =
    absurd (ground (arith, q))
handle_created-IsBegun env request nodes db handled (created w row) fresh r q =
    let opened = create_workflow-IsOpened env request nodes w row r in
    let names = opened.0.1.1.0 in
    let first : get_elem? (node_list w.template) 0 ≡ some w.node = rw names opened.0.1.1.1 in
    let new : any (λ h. h.workflow == w.id) db.histories ≡ false =
      subst (λ i. any (λ h. h.workflow == i) db.histories ≡ false) (sym opened.0.0) fresh in
    let entered = handle_created-enter env request db w row handled new first opened.1 q in
    let at : handled.life.workflow_obj ≡ enter (get_elem? (names_of nodes) 1) w =
      entered ∙ ap (λ ns. enter (get_elem? ns 1) w) names in
    subst (λ v. IsBegun (names_of nodes) v) (sym at) (enter-IsBegun env (names_of nodes) w opened.0)

-- A ticket that is created, with a key that no history row names, has the nodes of its template, and waits
-- at the second of them; with no second node, or one with an empty name, it is complete at its first node.
pub create_ticket-second :
    (env : CreateEnv) (request : CreateRequest) (nodes : List CreateNode) (db : Db)
    (handled : Handled)
    → any (λ h. h.workflow == env.new_id) db.histories ≡ false
    → create_ticket env request nodes db ≡ ok handled
    → IsBegun (names_of nodes) handled.life.workflow_obj
unfolding create_ticket
create_ticket-second env request nodes db handled fresh q =
    elim (Result-cases (create_workflow env request nodes)) [
      | inr error ↦ absurd (ground (arith, q, error.1))
      | inl reply ↦
          handle_created-IsBegun env request nodes db handled reply.0 fresh reply.1
            (ground (arith, q, reply.1))
    ]
