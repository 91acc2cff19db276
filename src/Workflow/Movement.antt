-- ===== src/Workflow/Movement.antt =====
-- How a ticket moves: `next`, `reject` and the way back to the node that rejected.
use devops_backend.Prelude.{
  ℕ, String, ◌≡◌, ◌≢◌, false, Option, none, some, List, [], ◌∷◌, ◌++◌, arith, eq_iff, ◌==◌,
  text_key, contains, index_of, index_of-append, get_elem?-append_suc, get_elem?-index_of,
  if◌then◌else◌,
}
use devops_backend.Outcome.{ok}
use devops_backend.Workflow.Model.{Status, History, node_list, absent, null, text}
use devops_backend.Workflow.LifeCycle.{Db, LifeCycle, prev_node_history, next}

-- the node to which a ticket returns: the one of the previous row, where its form rejected
abbrev pub returns_to : Option History → Option String
returns_to none = none
returns_to (some h) = elim h.form.handle_type [
  | absent ↦ none
  | null ↦ none
  | text t ↦ if t == "reject" then some h.node else none
]

module _ (lc : LifeCycle) (db : Db) where
  -- With no rejection to return from, a ticket whose template lists `cur` and then `nxt` moves to
  -- `nxt`, and nothing else of it changes.
  pub next-advance :
      (pre : List String) (cur nxt : String) (post : List String)
      → returns_to (prev_node_history lc db) ≡ none
      → node_list lc.workflow_obj.template ≡ pre ++ cur ∷ nxt ∷ post
      → contains pre cur ≡ false
      → lc.workflow_obj.node ≡ cur
      → nxt ≢ ""
      → next lc db ≡ ok (record lc.workflow_obj { node = nxt })
  unfolding next
  next-advance pre cur nxt post r names fresh at named = ground (
    arith,
    index_of-append pre cur (nxt ∷ post) fresh,
    get_elem?-append_suc pre cur (nxt ∷ post),
    eq_iff nxt "",
  )

  -- With no rejection to return from, a ticket at the last node of its template is completed and
  -- keeps its node.
  pub next-complete :
      (pre : List String) (cur : String)
      → returns_to (prev_node_history lc db) ≡ none
      → node_list lc.workflow_obj.template ≡ pre ++ cur ∷ []
      → contains pre cur ≡ false
      → lc.workflow_obj.node ≡ cur
      → next lc db ≡ ok (record lc.workflow_obj { status = Status.complete })
  unfolding next
  next-complete pre cur r names fresh at =
      ground (arith, index_of-append pre cur [] fresh, get_elem?-append_suc pre cur [])

  -- After a rejection at `back` the next step goes to `back`, wherever the ticket stands.
  pub next-returns :
      (back : String) (i : ℕ)
      → returns_to (prev_node_history lc db) ≡ some back
      → index_of (node_list lc.workflow_obj.template) back ≡ some i
      → back ≢ ""
      → next lc db ≡ ok (record lc.workflow_obj { node = back })
  unfolding next
  next-returns back i r found named =
      ground (arith, get_elem?-index_of (node_list lc.workflow_obj.template) back i, eq_iff back "")
