-- ===== src/Users/Routers.antt =====
-- get_routers of apps/ucenter/serializers.py for a user who is no administrator: the menus of the roles
-- are put below their parents. The menus are objects that are shared: `children` holds ids.
use devops_backend.Prelude.{
  ℕ, ◌≡◌, refl, ap, ◌∙◌, subst, inl, inr, Bool, true, false, Option, none, some, List, [], ◌∷◌,
  ◌++◌, map, arith, text_key, number_key, ◌==◌, if◌then◌else◌, Bool-cases, Option-cases,
}
use mathlib.Core.List.{append_assoc, append-nil}
use devops_backend.Shared.Dict.{lookup, put, put_all, lookup-put}

-- the id of a menu with that of its parent
abbrev pub Item : Type 0
Item = ℕ × Option ℕ

-- `children` of each menu that has the key, and the menus at the top
pub record Placed : Type 0 where
  pub children : List (ℕ × List ℕ)
  pub tree_data : List ℕ

abbrev pub ids_in : Option (List ℕ) → List ℕ
ids_in none = []
ids_in (some ids) = ids

abbrev pub children_of : ℕ → List (ℕ × List ℕ) → List ℕ
children_of id children = ids_in (lookup id children)

-- `parent.setdefault('children', []).append(...)`
unfoldable pub append_child : ℕ → ℕ → List (ℕ × List ℕ) → List (ℕ × List ℕ)
append_child pid id children = put pid (children_of pid children ++ id ∷ []) children

-- the parent, where there is one
unfoldable pub parent_of : Option ℕ → Option ℕ
parent_of none = none
parent_of (some pid) = if pid == 0 then none else some pid

-- the loop over the dict; a parent that is not in it raises
unfoldable pub place_items : List Item → List Item → Placed → Option Placed
place_items tree_dict [] placed = some placed
place_items tree_dict ((id, parent) ∷ items) placed = elim (parent_of parent) [
  | none ↦ place_items tree_dict items (record placed { tree_data = placed.tree_data ++ id ∷ [] })
  | some pid ↦ elim (lookup pid tree_dict) [
    | none ↦ none
    | some found ↦
        place_items tree_dict items
          (record placed { children = append_child pid id placed.children })
  ]
]

-- the ids at the top, with the children: after an exception, all menus of the roles
unfoldable pub get_routers : List Item → List ℕ × Option (List (ℕ × List ℕ))
get_routers menus =
    let tree_dict = put_all menus [] in
    elim (place_items tree_dict tree_dict (record { children = []; tree_data = [] })) [
      | none ↦ (map (λ m. m.0) menus, none)
      | some placed ↦ (placed.tree_data, some placed.children)
    ]

abbrev pub same_parent : Option ℕ → Option ℕ → Bool
same_parent none none = true
same_parent (some a) (some b) = a == b
same_parent none (some b) = false
same_parent (some a) none = false

-- the ids of the menus with a given parent, or with none
unfoldable pub ids_below : Option ℕ → List Item → List ℕ
ids_below p [] = []
ids_below p ((id, parent) ∷ items) =
    let rest = ids_below p items in if same_parent p (parent_of parent) then id ∷ rest else rest

abbrev pub HasParent : List Item → Option ℕ → Type 0
HasParent tree_dict none = Unit
HasParent tree_dict (some pid) = (found : Option ℕ) × (lookup pid tree_dict ≡ some found)

-- every parent is in the dict
abbrev pub HasParents : List Item → List Item → Type 0
HasParents tree_dict [] = Unit
HasParents tree_dict ((id, parent) ∷ items) =
    HasParent tree_dict (parent_of parent) × HasParents tree_dict items

children_of-append_child :
    (pid id other : ℕ) (children : List (ℕ × List ℕ))
    → children_of other (append_child pid id children)
      ≡ (if pid == other then children_of other children ++ id ∷ [] else children_of other children)
unfolding append_child
children_of-append_child pid id other children =
    let law = lookup-put pid other (children_of pid children ++ id ∷ []) children in
    elim (Bool-cases (pid == other)) [
      | inl q ↦
          let e : pid ≡ other = ground (arith, q) in
          let met : lookup other (put pid (children_of pid children ++ id ∷ []) children)
              ≡ some (children_of pid children ++ id ∷ []) =
            ground (arith, law, q) in
          rw q (ap ids_in met ∙ ap (λ k. children_of k children ++ id ∷ []) e)
      | inr q ↦
          let met : lookup other (put pid (children_of pid children ++ id ∷ []) children)
              ≡ lookup other children =
            ground (arith, law, q) in
          rw q (ap ids_in met)
    ]

-- what the loop adds for one parent, and at the top
place_items-below :
    (tree_dict items : List Item) (placed done : Placed) (pid : ℕ)
    → place_items tree_dict items placed ≡ some done
    → (children_of pid done.children
        ≡ children_of pid placed.children ++ ids_below (some pid) items)
      × (done.tree_data ≡ placed.tree_data ++ ids_below none items)
unfolding place_items ids_below
place_items-below tree_dict [] placed done pid q =
    let e : placed ≡ done = ground (arith, q) in (rw (append-nil, e) refl, rw (append-nil, e) refl)
place_items-below tree_dict ((id, parent) ∷ items) placed done pid q =
    elim (Option-cases (parent_of parent)) [
      | inl top ↦
          let next : Placed = record placed { tree_data = placed.tree_data ++ id ∷ [] } in
          let ih = place_items-below tree_dict items next done pid (ground (arith, q, top)) in
          (
            rw top ih.0,
            rw top (ih.1 ∙ append_assoc placed.tree_data (id ∷ []) (ids_below none items)),
          )
      | inr p ↦ elim (Option-cases (lookup p.0 tree_dict)) [
        | inl lost ↦ absurd (ground (arith, q, p.1, lost))
        | inr found ↦
            let next : Placed = record placed { children = append_child p.0 id placed.children } in
            let ih =
              place_items-below tree_dict items next done pid (ground (arith, q, p.1, found.1)) in
            let law = children_of-append_child p.0 id pid placed.children in
            elim (Bool-cases (p.0 == pid)) [
              | inl same ↦
                  let same' : (pid == p.0) ≡ true = ground (arith, same) in
                  (
                    rw (p.1, same_parent, same')
                        (ih.0
                          ∙ (rw (law, same)
                              (append_assoc (children_of pid placed.children) (id ∷ [])
                                (ids_below (some pid) items)))),
                    rw (p.1, same_parent) ih.1,
                  )
              | inr other ↦
                  let other' : (pid == p.0) ≡ false = ground (arith, other) in
                  (
                    rw (p.1, same_parent, other') (ih.0 ∙ (rw (law, other) refl)),
                    rw (p.1, same_parent) ih.1,
                  )
            ]
      ]
    ]

place_items-total :
    (tree_dict items : List Item) (placed : Placed)
    → HasParents tree_dict items
    → (done : Placed) × (place_items tree_dict items placed ≡ some done)
unfolding place_items
place_items-total tree_dict [] placed h = (placed, refl)
place_items-total tree_dict ((id, parent) ∷ items) placed h =
    elim (Option-cases (parent_of parent)) [
      | inl top ↦
          let next : Placed = record placed { tree_data = placed.tree_data ++ id ∷ [] } in
          let r = place_items-total tree_dict items next h.1 in (r.0, rw (top, place_items) r.1)
      | inr p ↦
          let found = subst (λ o. HasParent tree_dict o) p.1 h.0 in
          let next : Placed = record placed { children = append_child p.0 id placed.children } in
          let r = place_items-total tree_dict items next h.1 in
          (r.0, rw (p.1, found.1, place_items) r.1)
    ]

-- If every parent is among the menus of the roles, the menus without a parent are at the top, and each
-- other menu is below its own parent, once, in the order in which the dict holds them.
pub get_routers-placed :
    (menus : List Item) (pid : ℕ)
    → HasParents (put_all menus []) (put_all menus [])
    → (children : List (ℕ × List ℕ)) × (get_routers menus
        ≡ (ids_below none (put_all menus []), some children))
      × (children_of pid children ≡ ids_below (some pid) (put_all menus []))
unfolding get_routers ids_below lookup
get_routers-placed menus pid h =
    let tree_dict = put_all menus [] in
    let start : Placed = record { children = []; tree_data = [] } in
    let r = place_items-total tree_dict tree_dict start h in
    let law = place_items-below tree_dict tree_dict start r.0 pid r.1 in
    (r.0.children, ground (arith, r.1, law.1), law.0)
