-- ===== src/Users/Tests.antt =====
-- Menus of two levels, and a log-in of a user of the directory.
use devops_backend.Prelude.{
  ℕ, String, ◌≡◌, refl, true, false, Option, none, some, List, [], ◌∷◌, text_key, number_key, ◌==◌,
  if◌then◌else◌, get_elem?, contains,
}
use devops_backend.Outcome.{err, type_error}
use devops_backend.Users.Menus.{
  Menus, nothing, before, menu, menu_sort, menu_sort-IsOrdered, IsOrdered, count_menus, sort_menus,
  sort_children, place_menu,
}
use devops_backend.Users.Routers.{
  Item, get_routers, get_routers-placed, ids_below, children_of, HasParents, parent_of, place_items,
}
use devops_backend.Users.Accounts.{
  Account, UserDb, auth_token_post, logged_in, login_failed, add_role, create_user, password_reset,
  destroy_user, destroy_role, is_listed, update_account,
}
use devops_backend.Users.Bound.{auth_token_post-bound}
use devops_backend.Shared.Dict.{put_all, put, lookup}
use devops_backend.Shared.Config.{get_one}

abbrev side_menus : Menus
side_menus =
    before (menu 1 5 (before (menu 3 2 nothing) (before (menu 4 1 nothing) nothing)))
      (before (menu 2 0 nothing) nothing)

menu_sorted :
    menu_sort side_menus
    ≡ before
        (menu 2 0 nothing)
        (before (menu 1 5 (before (menu 4 1 nothing) (before (menu 3 2 nothing) nothing))) nothing)
unfolding menu_sort sort_menus sort_children place_menu
menu_sorted = refl

menu_sort-IsOrdered_example :
    IsOrdered (menu_sort side_menus)
    × (count_menus (λ i s. i == 4) (menu_sort side_menus) ≡ count_menus (λ i s. i == 4) side_menus)
menu_sort-IsOrdered_example = menu_sort-IsOrdered side_menus (λ i s. i == 4)

abbrev role_menus : List Item
role_menus = (2, some 1) ∷ (1, none) ∷ (3, some 1) ∷ (2, some 1) ∷ []

role_parents : HasParents (put_all role_menus []) (put_all role_menus [])
unfolding put_all put parent_of lookup
role_parents = ((none, refl), (tt, ((none, refl), tt)))

get_routers-placed_example :
    (children : List (ℕ × List ℕ)) × (get_routers role_menus
      ≡ (ids_below none (put_all role_menus []), some children))
    × (children_of 1 children ≡ ids_below (some 1) (put_all role_menus []))
get_routers-placed_example = get_routers-placed role_menus 1 role_parents

routers_lost : get_routers ((2, some 1) ∷ []) ≡ (2 ∷ [], none)
unfolding get_routers place_items put_all put parent_of lookup
routers_lost = refl

abbrev ann : Account
ann = record { id = 4; username = "ann"; is_active = true; roles = []; last_login = none }

abbrev left : Account
left = record { id = 5; username = "left"; is_active = false; roles = []; last_login = none }

abbrev user_db : UserDb
user_db = record {
  next_id = 6;
  accounts = left ∷ ann ∷ [];
  roles = record { id = 2; name = "默认角色" } ∷ [];
  audits = [];
}

abbrev check_password : String → String → Option String
check_password username password = if password == "ok" then some "token" else none

abbrev after_login : UserDb
after_login = (auth_token_post check_password 77 "ann" "ok" user_db).0

auth_token_post-bound_example :
    ((auth_token_post check_password 77 "ann" "ok" user_db).1 ≡ logged_in "token")
    × (get_elem? after_login.accounts 1 ≡ some (record (add_role 2 ann) { last_login = some 77 }))
    × (contains (add_role 2 ann).roles 2 ≡ true)
    × (after_login.audits ≡ record { action = "登录成功"; username = "ann" } ∷ [])
unfolding get_one
auth_token_post-bound_example =
    auth_token_post-bound check_password 77 "ann" "ok" "token" user_db ann
      (record { id = 2; name = "默认角色" }) 1 ann refl refl refl refl

login_wrong : (auth_token_post check_password 77 "ann" "no" user_db).1 ≡ login_failed
unfolding auth_token_post
login_wrong = refl

-- the name of a user who has left is taken all the same
created_left : (create_user true "pw" "left" user_db).0 ≡ user_db
unfolding create_user is_listed
created_left = refl

reset_fails : password_reset 4 user_db ≡ err type_error
unfolding password_reset get_one is_listed
reset_fails = refl

role_stays : destroy_role (record { id = 2; name = "默认角色" }) user_db ≡ user_db
unfolding destroy_role
role_stays = refl

user_leaves : (destroy_user 4 user_db).accounts ≡ left ∷ record ann { is_active = false } ∷ []
unfolding destroy_user update_account
user_leaves = refl
