-- ===== src/Workflow/Commits.antt =====
-- What one committed request keeps of the tables, for each view of the ticket engine.
use devops_backend.Prelude.{
  map, ℕ, String, ◌≡◌, refl, subst, Bool, true, some, List, [], ◌∷◌, ◌++◌, arith, ◌==◌, ◌&&◌,
  eq_iff, text_key, number_key, Bool-cases, inl, inr, first_where, first_where-All, contains,
  Option-cases, get_elem?,
}
use devops_backend.Outcome.{Result, ok, ◌>>=◌, Result-cases}
use devops_backend.Workflow.Model.{Status, HandleType, NodeConf, CallbackInfo, Workflow, History}
use devops_backend.Workflow.LifeCycle.{Env, Db, LifeCycle, Handled, save_workflow}
use devops_backend.Workflow.Callback.{exec_callback, run_callbacks, call_func, selects}
use devops_backend.Workflow.Views.{
  find_workflow, insert_history, revoke, close, complete_order, first_node, copy_first_history,
}
use devops_backend.Workflow.Upcoming.{UpdateRequest, success, resolve_form, submit, update}
use devops_backend.Workflow.Placed.{IsPlaced}
use devops_backend.Workflow.Tables.{IsSound, replace_workflow-All, submit-IsSound, submit-row}

-- the rows of `old` stand unchanged at the end of those of `new`
abbrev pub Extends : Db → Db → Type 0
Extends old new = (rows : List History) × (new.histories ≡ rows ++ old.histories)

-- what a step keeps and shows
abbrev pub Kept : Db → Db → Type 0
Kept db db' = IsSound db' × Extends db db'

copy-Kept :
    (t : HandleType) (user : ℕ) (w : Workflow) (name : String) (db db' : Db)
    → copy_first_history t user w name (save_workflow w db) ≡ ok db'
    → IsPlaced w
    → IsSound db
    → Kept db db'
unfolding copy_first_history
copy-Kept t user w name db db' e p sound =
    elim (Option-cases (first_where (λ h. h.workflow == w.id && h.node == name) db.histories)) [
      | inl q ↦ absurd (ground arith)
      | inr q ↦
          (let same = new_db q.0 q.1 in
            subst (Kept db) same (
              record {
                placed = replace_workflow-All w db.workflows p sound.placed;
                descending = (omega arith, sound.descending);
              },
              (
                record q.0 { id = db.next_history; handle_type = some t; operator = user } ∷ [],
                refl,
              ),
            ))
    ]
  where
    new_db :
        (h : History)
        → first_where (λ h. h.workflow == w.id && h.node == name) db.histories ≡ some h
        → insert_history (record h { handle_type = some t; operator = user }) (save_workflow w db)
          ≡ db'
    new_db h q = ground arith

-- a found ticket stands at a node of its template
found-IsPlaced :
    (p : Workflow → Bool) (db : Db) (w : Workflow)
    → IsSound db
    → first_where p db.workflows ≡ some w
    → IsPlaced w
found-IsPlaced p db w sound found = first_where-All IsPlaced p db.workflows w sound.placed found

-- the first node of a template is one of its nodes
first_node-IsPlaced :
    (w : Workflow) (first : NodeConf) (s : Status)
    → first_node w ≡ ok first
    → IsPlaced (record w { node = first.name; status = s })
unfolding first_node
first_node-IsPlaced w first s e = starts w.template.nodes first (ground arith)
  where
    starts :
        (nodes : List NodeConf) (first : NodeConf)
        → get_elem? nodes 0 ≡ some first
        → contains (map (λ n. n.name) nodes) first.name ≡ true
    starts [] first h = cc
    starts (n ∷ ns) first h = ground (arith, eq_iff first.name first.name)

pub revoke-Kept :
    (pk user : ℕ) (db db' : Db) → revoke pk user db ≡ ok db' → IsSound db → Kept db db'
unfolding revoke
revoke-Kept pk user db db' e sound =
    elim (Option-cases (first_where (λ w. w.id == pk) db.workflows)) [
      | inl q ↦ absurd (ground arith)
      | inr q ↦ elim (Result-cases (first_node q.0)) [
        | inl r ↦
            copy-Kept HandleType.revoke user
              (record q.0 { node = r.0.name; status = Status.revoke }) r.0.name db db'
              (ground (arith, q.1, r.1)) (first_node-IsPlaced q.0 r.0 Status.revoke r.1) sound
        | inr r ↦ absurd (ground (arith, q.1, r.1))
      ]
    ]

-- `close` and `complete` change the status alone
abbrev retag : Status → ℕ → ℕ → Db → Result Db
retag s pk user db = do
  w ← find_workflow pk db
  first ← first_node w
  copy_first_history HandleType.close user (record w { status = s }) first.name
      (save_workflow (record w { status = s }) db)

retag-Kept :
    (s : Status) (pk user : ℕ) (db db' : Db)
    → retag s pk user db ≡ ok db'
    → IsSound db
    → Kept db db'
retag-Kept s pk user db db' e sound =
    elim (Option-cases (first_where (λ w. w.id == pk) db.workflows)) [
      | inl q ↦ absurd (ground arith)
      | inr q ↦ elim (Result-cases (first_node q.0)) [
        | inl r ↦
            copy-Kept HandleType.close user (record q.0 { status = s }) r.0.name db db'
              (ground (arith, q.1, r.1)) (found-IsPlaced _ db q.0 sound q.1) sound
        | inr r ↦ absurd (ground (arith, q.1, r.1))
      ]
    ]

pub close-Kept : (pk user : ℕ) (db db' : Db) → close pk user db ≡ ok db' → IsSound db → Kept db db'
unfolding close
close-Kept pk user db db' e =
    unfold copy_first_history first_node in retag-Kept Status.close pk user db db' e

pub complete_order-Kept :
    (pk user : ℕ) (db db' : Db) → complete_order pk user db ≡ ok db' → IsSound db → Kept db db'
unfolding complete_order
complete_order-Kept pk user db db' e = retag-Kept Status.complete pk user db db' e

pub update-Kept :
    (env : Env) (request : UpdateRequest) (db : Db) (h : Handled)
    → update env request db ≡ ok (success h)
    → IsSound db
    → Kept db h.db
unfolding update
update-Kept env request db h e sound =
    elim (Option-cases (first_where (λ w. w.wid == request.wid) db.workflows)) [
      | inl q ↦ absurd (ground arith)
      | inr q ↦
          (let p = found-IsPlaced _ db q.0 sound q.1 in
            elim (Result-cases (resolve_form q.0 request.form)) [
              | inl r ↦ elim (Option-cases r.0) [
                | inl t ↦ absurd (ground (arith, q.1, r.1, t))
                | inr t ↦
                    (let sub : submit env request q.0 t.0 db ≡ ok h =
                        ground (arith, q.1, r.1, t.1, request.node) in
                      (
                        submit-IsSound env request q.0 t.0 db h sub p sound,
                        (h.life.node_obj ∷ [], (submit-row env request q.0 t.0 db h sub sound).0),
                      ))
              ]
              | inr r ↦ absurd (ground (arith, q.1, r.1))
            ])
    ]

run_callbacks-Kept :
    (h : History) (infos : List CallbackInfo) (db : Db)
    → IsSound db
    → (run_callbacks h infos db).histories ≡ db.histories × (IsSound (run_callbacks h infos db))
unfolding run_callbacks
run_callbacks-Kept h [] db sound = (refl, sound)
run_callbacks-Kept h (info ∷ infos) db sound = elim (Bool-cases (selects h.handle_type info.type)) [
  | inl q ↦
      rw (q, run_callbacks)
        (run_callbacks-Kept h infos (call_func h info.type info.url db)
          (record { placed = sound.placed; descending = sound.descending }))
  | inr q ↦ rw (q, run_callbacks) (run_callbacks-Kept h infos db sound)
]

pub exec_callback-Kept :
    (lc : LifeCycle) (db db' : Db) → exec_callback lc db ≡ ok db' → IsSound db → Kept db db'
unfolding exec_callback
exec_callback-Kept lc db db' e sound = elim (Option-cases lc.original_current_node_conf) [
  | inl q ↦ absurd (ground arith)
  | inr q ↦
      (let kept = run_callbacks-Kept lc.node_obj q.0.callbacks db sound in
        let same : run_callbacks lc.node_obj q.0.callbacks db ≡ db' = ground arith in
        subst (Kept db) same (kept.1, ([], kept.0)))
]
