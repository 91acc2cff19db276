-- ===== src/Workflow/Countersign.antt =====
-- The countersign rule of `LifeCycle.handle`.
use devops_backend.Prelude.{
  ◌⊎◌, ℕ, suc, ◌+◌, ◌≤◌, String, ◌≡◌, refl, true, false, List, [], ◌∷◌, arith, text_key, length,
  All, leb, Bool-cases, inl, inr, if◌then◌else◌, eq_iff, number_key,
}
use devops_backend.Outcome.{ok, err, ◌>>=◌}
use devops_backend.Workflow.Model.{HandleType, NodeConf, History}
use devops_backend.Workflow.LifeCycle.{
  Env, Db, LifeCycle, next, has_passed, member_user, count_handled, handle_passed, mark, save_both,
}

-- the member is a user, and the ticket has a row in which the user passed some node
abbrev pub HasSigned : Env → Db → ℕ → String → Type 0
HasSigned env db workflow member_info =
    (user : ℕ) × (member_user env member_info ≡ ok user) × (has_passed db workflow user ≡ true)

-- every member string names a user
abbrev pub IsMember : Env → String → Type 0
IsMember env member_info = (user : ℕ) × (member_user env member_info ≡ ok user)

abbrev pub signed_one : Env → Db → ℕ → String → ℕ
signed_one env db workflow m = elim (member_user env m) [
  | ok user ↦ (if has_passed db workflow user then 1 else 0)
  | err e ↦ 0
]

abbrev pub signed : Env → Db → ℕ → List String → ℕ
signed env db workflow [] = 0
signed env db workflow (m ∷ ms) = signed_one env db workflow m + signed env db workflow ms

count_handled-signed :
    (env : Env) (db : Db) (workflow count : ℕ) (members : List String)
    → All (IsMember env) members
    → count_handled env db workflow count members ≡ ok (count + signed env db workflow members)
unfolding count_handled
count_handled-signed env db workflow count [] known = ground arith
count_handled-signed env db workflow count (m ∷ ms) known = ground (
  arith,
  known.0.1,
  count_handled-signed env db workflow count ms known.1,
  count_handled-signed env db workflow (suc count) ms known.1,
)

signed-le-length :
    (env : Env) (db : Db) (workflow : ℕ) (members : List String)
    → signed env db workflow members ≤ length members
signed-le-length env db workflow [] = omega arith
signed-le-length env db workflow (m ∷ ms) = ground (arith, signed-le-length env db workflow ms)

signed-All :
    (env : Env) (db : Db) (workflow : ℕ) (members : List String)
    → All (HasSigned env db workflow) members
    → signed env db workflow members ≡ length members
signed-All env db workflow [] h = refl
signed-All env db workflow (m ∷ ms) h =
    ground (arith, h.0.1, h.0.2, signed-All env db workflow ms h.1)

All-signed :
    (env : Env) (db : Db) (workflow : ℕ) (members : List String)
    → All (IsMember env) members
    → length members ≤ signed env db workflow members
    → All (HasSigned env db workflow) members
All-signed env db workflow [] known h = tt
All-signed env db workflow (m ∷ ms) known h =
    let rest =
      All-signed env db workflow ms known.1
        (ground (arith, known.0.1, signed-le-length env db workflow ms)) in
    ((known.0.0, known.0.1, ground (arith, known.0.1, signed-le-length env db workflow ms)), rest)

module _ (env : Env) (lc : LifeCycle) (db : Db) (node_conf : NodeConf) where
  -- At a countersigned node whose members are all users, a pass moves the ticket on exactly if each
  -- member has passed a node of the ticket; otherwise the row is marked passed and saved, and the
  -- ticket stays.
  pub countersign :
      node_conf.pass_type ≡ "countersigned"
      → All (IsMember env) node_conf.members
      → (All (HasSigned env db lc.workflow_obj.id) node_conf.members
          × (handle_passed env lc db node_conf ≡ (
              next lc db >>= λ w.
              ok (save_both lc w (mark HandleType.passed lc.node_obj) true db))))
        ⊎ ((¬ All (HasSigned env db lc.workflow_obj.id) node_conf.members)
            × (handle_passed env lc db node_conf
                ≡ ok (save_both lc lc.workflow_obj (mark HandleType.passed lc.node_obj) false db)))
  unfolding handle_passed
  countersign is_counter known =
      let counted = count_handled-signed env db lc.workflow_obj.id 0 node_conf.members known in
      let is_type = eq_iff node_conf.pass_type "countersigned" in
      elim (Bool-cases
        (leb (length node_conf.members) (signed env db lc.workflow_obj.id node_conf.members))) [
          | inl enough ↦
              let all =
                All-signed env db lc.workflow_obj.id node_conf.members known (ground arith) in
              let every = signed-All env db lc.workflow_obj.id node_conf.members all in
              inl (all, ground (arith, is_type, counted, every))
          | inr few ↦ inr (
            λ all. ground (arith, signed-All env db lc.workflow_obj.id node_conf.members all),
            ground (arith, is_type, counted),
          )
        ]

-- the history with the node of every row renamed
abbrev pub rename_rows : (String → String) → List History → List History
rename_rows f [] = []
rename_rows f (h ∷ hs) = record h { node = f h.node } ∷ rename_rows f hs

abbrev pub rename_nodes : (String → String) → Db → Db
rename_nodes f db = record db { histories = rename_rows f db.histories }
