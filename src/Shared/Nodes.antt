-- ===== src/Shared/Nodes.antt =====
-- node_filter of common/ext_fun.py: the search for a node in a forest of menus or directories.
use devops_backend.Prelude.{
  ℕ, ◌≡◌, refl, Bool, Option, none, some, List, [], ◌∷◌, ◌++◌, ◌==◌, number_key, arith,
  if◌then◌else◌, first_where, Bool-cases, inl, inr, sym, ◌∙◌,
}

mutual
  -- a node with its id and its children; a node without the key has none
  pub data Node : Type 0 where
    node : ℕ → Forest → Node

  pub data Forest : Type 0 where
    leaf : Forest
    tree : Node → Forest → Forest

abbrev pub node_id : Node → ℕ
node_id (node id children) = id

-- the loop: the node itself, else what is found among its children, else the later nodes
unfoldable pub node_filter : ℕ → Forest → Option Node
node_filter key leaf = none
node_filter key (tree (node id children) rest) =
    let below = node_filter key children in
    let later = node_filter key rest in
    if id == key then some (node id children) else elim below [ none ↦ later | some n ↦ some n ]

-- all nodes, each before its children
pub preorder : Forest → List Node
preorder leaf = []
preorder (tree (node id children) rest) = node id children ∷ (preorder children ++ preorder rest)

first_where-append {ℓ} :
    {A : Type ℓ} (p : A → Bool) (xs ys : List A)
    → first_where p (xs ++ ys)
      ≡ elim (first_where p xs) [ none ↦ first_where p ys | some a ↦ some a ]
first_where-append p [] ys = refl
first_where-append p (x ∷ xs) ys = elim (Bool-cases (p x)) [
  | inl q ↦ ground (arith, q)
  | inr q ↦ ground (arith, q, first_where-append p xs ys)
]

-- The search in a forest finds the first node with the id in the order in which each node stands before
-- its children, at any depth, and finds none only if there is none.
pub node_filter-preorder :
    (key : ℕ) (nodes : Forest)
    → node_filter key nodes ≡ first_where (λ n. node_id n == key) (preorder nodes)
unfolding node_filter preorder
node_filter-preorder key leaf = refl
node_filter-preorder key (tree (node id children) rest) =
    let below = node_filter-preorder key children in
    let later = node_filter-preorder key rest in
    let parts = first_where-append (λ n. node_id n == key) (preorder children) (preorder rest) in
    elim (Bool-cases (id == key)) [
      | inl q ↦ rw q refl
      | inr q ↦
          let joined : elim (node_filter key children) [
            | none ↦ node_filter key rest
            | some n ↦ some n
          ]
              ≡ elim (first_where (λ n. node_id n == key) (preorder children)) [
                | none ↦ first_where (λ n. node_id n == key) (preorder rest)
                | some n ↦ some n
              ] =
            λ i. elim (below i) [ none ↦ later i | some n ↦ some n ] in
          rw q (joined ∙ sym parts)
    ]
