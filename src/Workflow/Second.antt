-- ===== src/Workflow/Second.antt =====
-- Where a ticket stands that has just been created, in apps/workflow/views/workflow.py.
use devops_backend.Prelude.{
  String, ◌≡◌, ◌∙◌, subst, inl, inr, List, [], ◌∷◌, map, arith, text_key, number_key, ◌==◌,
  Bool-cases,
}
use devops_backend.Outcome.{ok, or_raise, Result-cases, key_error}
use devops_backend.Shared.Dict.{lookup}
use devops_backend.Workflow.Create.{
  CreateEnv, CreateRequest, CreateNode, FormModel, add_self, extend_members, merge_rest,
  merge_members, without_first, mapped_members, selected_users, assign_nodes, assign_fields,
}

abbrev pub names_of : List CreateNode → List String
names_of nodes = map (λ n. n.conf.name) nodes

add_self-name : (me : String) (n : CreateNode) → (add_self me n).conf.name ≡ n.conf.name
unfolding add_self
add_self-name me n = ground arith

names_of-merge_rest :
    (listed : List String → List String) (me : String) (nodes : List CreateNode)
    (extra : List (List String)) (merged : List CreateNode)
    → merge_rest listed me nodes extra ≡ ok merged
    → names_of merged ≡ names_of nodes
unfolding merge_rest extend_members
names_of-merge_rest listed me [] extra merged q = ground (arith, q)
names_of-merge_rest listed me (n ∷ nodes) [] merged q = absurd (ground (arith, q))
names_of-merge_rest listed me (n ∷ nodes) (ms ∷ extra) merged q =
    elim (Result-cases (merge_rest listed me nodes extra)) [
      | inr error ↦ absurd (ground (arith, q, error.1))
      | inl rest ↦
          let ih = names_of-merge_rest listed me nodes extra rest.0 rest.1 in
          let same = add_self-name me (extend_members listed ms n) in
          let e : add_self me (extend_members listed ms n) ∷ rest.0 ≡ merged =
            ground (arith, q, rest.1) in
          subst (λ xs. names_of xs ≡ names_of (n ∷ nodes)) e (ground (arith, ih, same))
    ]

pub names_of-merge_members :
    (listed : List String → List String) (me : String) (nodes : List CreateNode)
    (extra : List (List String)) (merged : List CreateNode)
    → merge_members listed me nodes extra ≡ ok merged
    → names_of merged ≡ names_of nodes
unfolding merge_members
names_of-merge_members listed me [] extra merged q = ground (arith, q)
names_of-merge_members listed me (n ∷ nodes) extra merged q =
    elim (Result-cases (merge_rest listed me nodes (without_first extra))) [
      | inr error ↦ absurd (ground (arith, q, error.1))
      | inl rest ↦
          let ih = names_of-merge_rest listed me nodes (without_first extra) rest.0 rest.1 in
          let same = add_self-name me n in
          let e : add_self me n ∷ rest.0 ≡ merged = ground (arith, q, rest.1) in
          subst (λ xs. names_of xs ≡ names_of (n ∷ nodes)) e (ground (arith, ih, same))
    ]

names_of-assign_nodes :
    (env : CreateEnv) (request : CreateRequest) (name handler : String)
    (nodes assigned : List CreateNode)
    → assign_nodes env request name handler nodes ≡ ok assigned
    → names_of assigned ≡ names_of nodes
unfolding assign_nodes
names_of-assign_nodes env request name handler [] assigned q = ground (arith, q)
names_of-assign_nodes env request name handler (n ∷ nodes) assigned q =
    elim (Result-cases (assign_nodes env request name handler nodes)) [
      | inr error ↦ absurd (ground (arith, q, error.1))
      | inl rest ↦
          let ih = names_of-assign_nodes env request name handler nodes rest.0 rest.1 in
          elim (Bool-cases (n.id == handler)) [
            | inr other ↦
                let e : n ∷ rest.0 ≡ assigned = ground (arith, q, rest.1, other) in
                subst (λ xs. names_of xs ≡ names_of (n ∷ nodes)) e (ground (arith, ih))
            | inl chosen ↦ elim (Result-cases (or_raise key_error (lookup name request.selected))) [
              | inr error ↦ absurd (ground (arith, q, rest.1, chosen, error.1))
              | inl users ↦ elim (Result-cases (mapped_members env (selected_users users.0))) [
                | inr error ↦ absurd (ground (arith, q, rest.1, chosen, users.1, error.1))
                | inl members ↦
                    let m : CreateNode = record n {
                      conf = record n.conf { members = members.0 };
                    } in
                    let e : m ∷ rest.0 ≡ assigned =
                      ground (arith, q, rest.1, chosen, users.1, members.1) in
                    subst (λ xs. names_of xs ≡ names_of (n ∷ nodes)) e (ground (arith, ih))
              ]
            ]
          ]
    ]

pub names_of-assign_fields :
    (env : CreateEnv) (request : CreateRequest) (fields : List FormModel)
    (nodes assigned : List CreateNode)
    → assign_fields env request fields nodes ≡ ok assigned
    → names_of assigned ≡ names_of nodes
unfolding assign_fields
names_of-assign_fields env request [] nodes assigned q = ground (arith, q)
names_of-assign_fields env request (f ∷ fields) nodes assigned q =
    elim (Bool-cases (f.type == "nodeHandler")) [
      | inr other ↦
          names_of-assign_fields env request fields nodes assigned (ground (arith, q, other))
      | inl handler ↦ elim (Result-cases (or_raise key_error f.node_handler_id)) [
        | inr error ↦ absurd (ground (arith, q, handler, error.1))
        | inl id ↦ elim (Result-cases (assign_nodes env request f.name id.0 nodes)) [
          | inr error ↦ absurd (ground (arith, q, handler, id.1, error.1))
          | inl step ↦
              names_of-assign_fields env request fields step.0 assigned
                (ground (arith, q, handler, id.1, step.1))
              ∙ names_of-assign_nodes env request f.name id.0 nodes step.0 step.1
        ]
      ]
    ]
