-- ===== src/Users/Menus.antt =====
-- menu_sort of apps/ucenter/views.py: the menus of a user, each with its children, by their `sort`.
use devops_backend.Prelude.{
  ℕ, ◌+◌, ◌≡◌, refl, ap, ◌∙◌, inl, inr, Bool, true, arith, leb, text_key, number_key, if◌then◌else◌,
  Bool-cases,
}

mutual
  -- a menu with its id, its sort value and its children; one without the key has none
  pub data Menu : Type 0 where
    menu : ℕ → ℕ → Menus → Menu

  pub data Menus : Type 0 where
    nothing : Menus
    before : Menu → Menus → Menus

-- `menus.sort(key=...)`, which is stable
unfoldable pub place_menu : Menu → Menus → Menus
place_menu m nothing = before m nothing
place_menu (menu i s c) (before (menu j t d) rest) =
    let later = place_menu (menu i s c) rest in
    if leb s t then before (menu i s c) (before (menu j t d) rest) else before (menu j t d) later

unfoldable pub sort_menus : Menus → Menus
sort_menus nothing = nothing
sort_menus (before m rest) = place_menu m (sort_menus rest)

-- the loop over the menus, which sorts the children of each
unfoldable pub sort_children : Menus → Menus
sort_children nothing = nothing
sort_children (before (menu i s c) rest) =
    before (menu i s (sort_menus (sort_children c))) (sort_children rest)

unfoldable pub menu_sort : Menus → Menus
menu_sort menus = sort_menus (sort_children menus)

-- whether the first menu, if any, may stand behind a sort value
abbrev pub may_follow : ℕ → Menus → Bool
may_follow s nothing = true
may_follow s (before (menu j t d) rest) = leb s t

-- no menu stands before one with a smaller sort value, at any depth
abbrev pub IsOrdered : Menus → Type 0
IsOrdered nothing = Unit
IsOrdered (before (menu i s c) rest) = (may_follow s rest ≡ true) × (IsOrdered c × IsOrdered rest)

-- how many menus, at any depth, pass a test of the id and the sort value
unfoldable pub count_menus : (ℕ → ℕ → Bool) → Menus → ℕ
count_menus p nothing = 0
count_menus p (before (menu i s c) rest) =
    (if p i s then 1 else 0) + (count_menus p c + count_menus p rest)

may_follow-place_menu :
    (r i s : ℕ) (c rest : Menus)
    → leb r s ≡ true
    → may_follow r rest ≡ true
    → may_follow r (place_menu (menu i s c) rest) ≡ true
unfolding place_menu
may_follow-place_menu r i s c nothing low front = low
may_follow-place_menu r i s c (before (menu j t d) rest) low front = ground (arith, low, front)

place_menu-IsOrdered :
    (i s : ℕ) (c rest : Menus)
    → IsOrdered c
    → IsOrdered rest
    → IsOrdered (place_menu (menu i s c) rest)
unfolding place_menu
place_menu-IsOrdered i s c nothing oc o = (refl, (oc, tt))
place_menu-IsOrdered i s c (before (menu j t d) rest) oc o = elim (Bool-cases (leb s t)) [
  | inl q ↦ rw q (q, (oc, o))
  | inr q ↦
      let ih = place_menu-IsOrdered i s c rest oc o.1.1 in
      let front = may_follow-place_menu t i s c rest (ground (arith, q)) o.0 in
      rw q (front, (o.1.0, ih))
]

-- the children of each menu are ordered
abbrev AreOrdered : Menus → Type 0
AreOrdered nothing = Unit
AreOrdered (before (menu i s c) rest) = IsOrdered c × AreOrdered rest

-- children that are ordered stay so
sort_menus-IsOrdered : (menus : Menus) → AreOrdered menus → IsOrdered (sort_menus menus)
unfolding sort_menus
sort_menus-IsOrdered nothing h = tt
sort_menus-IsOrdered (before (menu i s c) rest) h =
    place_menu-IsOrdered i s c (sort_menus rest) h.0 (sort_menus-IsOrdered rest h.1)

sort_children-AreOrdered : (menus : Menus) → AreOrdered (sort_children menus)
unfolding sort_children
sort_children-AreOrdered nothing = tt
sort_children-AreOrdered (before (menu i s c) rest) = (
  sort_menus-IsOrdered (sort_children c) (sort_children-AreOrdered c),
  sort_children-AreOrdered rest,
)

count_menus-place_menu :
    (p : ℕ → ℕ → Bool) (m : Menu) (rest : Menus)
    → count_menus p (place_menu m rest) ≡ count_menus p (before m rest)
unfolding place_menu count_menus
count_menus-place_menu p (menu i s c) nothing = refl
count_menus-place_menu p (menu i s c) (before (menu j t d) rest) =
    ground (arith, count_menus-place_menu p (menu i s c) rest)

count_menus-sort_menus :
    (p : ℕ → ℕ → Bool) (menus : Menus) → count_menus p (sort_menus menus) ≡ count_menus p menus
unfolding sort_menus count_menus
count_menus-sort_menus p nothing = refl
count_menus-sort_menus p (before (menu i s c) rest) =
    count_menus-place_menu p (menu i s c) (sort_menus rest)
    ∙ ap (λ n. (if p i s then 1 else 0) + (count_menus p c + n)) (count_menus-sort_menus p rest)

count_menus-sort_children :
    (p : ℕ → ℕ → Bool) (menus : Menus) → count_menus p (sort_children menus) ≡ count_menus p menus
unfolding sort_children count_menus
count_menus-sort_children p nothing = refl
count_menus-sort_children p (before (menu i s c) rest) =
    let below = count_menus-sort_menus p (sort_children c) ∙ count_menus-sort_children p c in
    let later = count_menus-sort_children p rest in ground (arith, below, later)

-- The menus of a user come with no menu before one of a smaller sort value, at any depth, and each menu of
-- the input is there as often as before.
pub menu_sort-IsOrdered :
    (menus : Menus) (p : ℕ → ℕ → Bool)
    → IsOrdered (menu_sort menus) × (count_menus p (menu_sort menus) ≡ count_menus p menus)
unfolding menu_sort
menu_sort-IsOrdered menus p = (
  sort_menus-IsOrdered (sort_children menus) (sort_children-AreOrdered menus),
  count_menus-sort_menus p (sort_children menus) ∙ count_menus-sort_children p menus,
)
