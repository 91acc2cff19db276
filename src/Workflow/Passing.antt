-- ===== src/Workflow/Passing.antt =====
-- A ticket that nobody rejects: pass after pass to the end of its template.
use mathlib.Core.List.{append_assoc}
use devops_backend.Prelude.{
  ℕ, suc, ◌+◌, ◌≤◌, String, ◌≡◌, ◌≢◌, refl, ◌∙◌, sym, subst, true, Option, none, some, List, [],
  ◌∷◌, ◌++◌, arith, ◌==◌, ◌&&◌, ltb, eq_iff, text_key, number_key, All, index_of, index_of-append,
  get_elem?, first_where, IsDistinct, IsDistinct-fresh, All-get_elem?, get_elem?-append_suc,
  get_elem?-map_inv, length,
}
use devops_backend.Outcome.{Result, ok, ◌>>=◌}
use devops_backend.Workflow.Model.{
  Status, NodeConf, Template, Workflow, History, Form, Field, absent, null, text, node_list,
}
use devops_backend.Workflow.LifeCycle.{Env, Db, prev_node_history, next, save_both, is_passed_form}
use devops_backend.Workflow.Movement.{returns_to, next-advance, next-complete}
use devops_backend.Workflow.Upcoming.{UpdateRequest, submit}
use devops_backend.Workflow.Tables.{IsDescending, replace_history-above}
use devops_backend.Workflow.Resubmit.{
  IsPlainPass, waiting, pass_row, pass_life, pass_db, submit-pass, get_node_conf-total,
}

-- the newest row of the ticket
abbrev pub latest : Workflow → Db → Option History
latest w db = first_where (λ h. h.workflow == w.id) db.histories

first_where-below :
    (id n m : ℕ) (hs : List History)
    → m ≤ n
    → IsDescending m hs
    → first_where (λ h. h.workflow == id && ltb h.id n) hs ≡ first_where (λ h. h.workflow == id) hs
first_where-below id n m [] le d = refl
first_where-below id n m (h ∷ hs) le d = ground (arith, first_where-below id n h.id hs)

-- the row before a new one is the newest of the ticket so far
prev-latest :
    (request : UpdateRequest) (w : Workflow) (form : Form) (db : Db)
    → IsDescending db.next_history db.histories
    → prev_node_history (pass_life request w form db) (pass_db request w form db) ≡ latest w db
unfolding prev_node_history
prev-latest request w form db d =
    ground (arith, first_where-below w.id db.next_history db.next_history db.histories)

plain_stays :
    (prev : History) (f : Field)
    → prev.form.handle_type ≡ f
    → is_passed_form f ≡ true
    → returns_to (some prev) ≡ none
unfolding is_passed_form
plain_stays prev absent same h = ground arith
plain_stays prev null same h = cc
plain_stays prev (text t) same h =
    ground (arith, eq_iff t "passed", eq_iff t "reject", eq_iff "passed" "reject")

-- every node can be passed by one plain pass
abbrev pub IsPassable : Env → NodeConf → Type 0
IsPassable env n =
    (n.pass_type ≢ "countersigned") × (env.node_form_valid n.name ≡ true) × (n.name ≢ "")

-- one plain pass, whose `next` is known
pass_once :
    (env : Env) (request : UpdateRequest) (w u : Workflow) (db : Db) (i : ℕ)
    → IsPlainPass request.form
    → All (IsPassable env) w.template.nodes
    → index_of (node_list w.template) w.node ≡ some i
    → next (pass_life request w request.form db) (pass_db request w request.form db) ≡ ok u
    → submit env request w request.form db
      ≡ ok (
          save_both
            (pass_life request w request.form db)
            u
            (pass_row request w request.form db)
            true
            (pass_db request w request.form db))
pass_once env request w u db i plain nodes at to =
    let (conf, found, there, named) = get_node_conf-total w.template w.node i at in
    let passable = All-get_elem? (IsPassable env) w.template.nodes i conf nodes there in
    submit-pass env request w request.form db conf plain (ground (arith, passable.1, named)) found
      passable.0
    ∙ rw to

-- the tables after one pass
abbrev pass_after : UpdateRequest → Workflow → Workflow → Db → Db
pass_after request w u db =
    (save_both (pass_life request w request.form db) u (pass_row request w request.form db) true
      (pass_db request w request.form db)).db

histories-pass_after :
    (request : UpdateRequest) (w u : Workflow) (db : Db)
    → IsDescending db.next_history db.histories
    → (pass_after request w u db).histories ≡ pass_row request w request.form db ∷ db.histories
histories-pass_after request w u db d =
    ground (
      arith,
      replace_history-above (pass_row request w request.form db) db.next_history db.histories,
    )

IsDescending-pass_after :
    (request : UpdateRequest) (w u : Workflow) (db : Db)
    → IsDescending db.next_history db.histories
    → IsDescending (suc db.next_history) (pass_after request w u db).histories
IsDescending-pass_after request w u db d =
    subst (IsDescending (suc db.next_history)) (sym (histories-pass_after request w u db d))
      (omega arith, d)

-- after a plain pass the ticket is on no way back
latest_plain :
    (request : UpdateRequest) (w u : Workflow) (db : Db)
    → IsPlainPass request.form
    → IsDescending db.next_history db.histories
    → u.id ≡ w.id
    → returns_to (latest u (pass_after request w u db)) ≡ none
latest_plain request w u db plain d same = ground (
  arith,
  histories-pass_after request w u db d,
  plain_stays (pass_row request w request.form db) request.form.handle_type refl plain.0,
)

next_named :
    (env : Env) (t : Template) (pre : List String) (cur nxt : String) (post : List String)
    → All (IsPassable env) t.nodes
    → node_list t ≡ pre ++ cur ∷ nxt ∷ post
    → nxt ≢ ""
next_named env t pre cur nxt post nodes names =
    let there : get_elem? (node_list t) (length pre + 1) ≡ some nxt =
      rw names (get_elem?-append_suc pre cur (nxt ∷ post)) in
    let (n, found, named) = get_elem?-map_inv (λ n. n.name) t.nodes (length pre + 1) nxt there in
    rw (← named) ((All-get_elem? (IsPassable env) t.nodes (length pre + 1) n nodes found).2)

-- a series of handled requests on one ticket, each on the row that the one before has left
unfoldable pub pass_all : Env → List UpdateRequest → Workflow → Db → Result (Workflow × Db)
pass_all env [] w db = ok (w, db)
pass_all env (request ∷ requests) w db =
    submit env request w request.form db >>= λ h. pass_all env requests h.life.workflow_obj h.db

abbrev pub last_of : String → List String → String
last_of cur [] = cur
last_of cur (nxt ∷ post) = last_of nxt post

module _ (env : Env) where
  -- A ticket that is not on its way back from a rejection, in a template of distinct, named nodes
  -- of which none is countersigned, is completed by as many plain passes as it has nodes from its
  -- own to the last, and then stands at the last.
  pub pass_all-complete :
      (pre : List String) (cur : String) (post : List String) (requests : List UpdateRequest)
      (w : Workflow) (db : Db)
      → length requests ≡ suc (length post)
      → All (λ r. IsPlainPass r.form) requests
      → All (IsPassable env) w.template.nodes
      → IsDistinct (pre ++ cur ∷ post)
      → node_list w.template ≡ pre ++ cur ∷ post
      → w.node ≡ cur
      → returns_to (latest w db) ≡ none
      → IsDescending db.next_history db.histories
      → (db' : Db) × (pass_all env requests w db
          ≡ ok (record w { node = last_of cur post; status = Status.complete }, db'))
  unfolding pass_all
  pass_all-complete pre cur post [] w db len plain nodes distinct names at fresh d =
      absurd (omega arith)
  pass_all-complete pre cur [] (r ∷ r' ∷ rs) w db len plain nodes distinct names at fresh d =
      absurd (omega arith)
  pass_all-complete pre cur [] (r ∷ []) w db len plain nodes distinct names at fresh d =
      let u = record (waiting w) { status = Status.complete } in
      let i = index_of-append pre cur [] (IsDistinct-fresh pre cur [] distinct) in
      let to =
        next-complete (pass_life r w r.form db) (pass_db r w r.form db) pre cur
          (rw (prev-latest r w r.form db d) fresh) names (IsDistinct-fresh pre cur [] distinct)
          at in
      (
        pass_after r w u db,
        rw (pass_once env r w u db (length pre) plain.0 nodes (rw (names, at) i) to) (ground arith),
      )
  pass_all-complete pre cur (nxt ∷ post) (r ∷ rs) w db len plain nodes distinct names at fresh d =
      let u = record (waiting w) { node = nxt } in
      let i =
        index_of-append pre cur (nxt ∷ post) (IsDistinct-fresh pre cur (nxt ∷ post) distinct) in
      let to =
        next-advance (pass_life r w r.form db) (pass_db r w r.form db) pre cur nxt post
          (rw (prev-latest r w r.form db d) fresh) names
          (IsDistinct-fresh pre cur (nxt ∷ post) distinct) at
          (next_named env w.template pre cur nxt post nodes names) in
      let regroup = append_assoc pre (cur ∷ []) (nxt ∷ post) in
      let rest =
        pass_all-complete (pre ++ cur ∷ []) nxt post rs u (pass_after r w u db) (omega arith)
          plain.1 nodes (subst IsDistinct (sym regroup) distinct) (names ∙ sym regroup) refl
          (latest_plain r w u db plain.0 d refl) (IsDescending-pass_after r w u db d) in
      (rest.0, rw (pass_once env r w u db (length pre) plain.0 nodes (rw (names, at) i) to) rest.1)
