-- ===== src/Access/Grant.antt =====
-- Which requests the permissions of common/extends/permissions.py grant.
use devops_backend.Prelude.{
  any-Some, Some-any, ℕ, String, ◌≡◌, ◌↔◌, ◌⊎◌, inl, inr, refl, true, false, Option, some, List, [],
  ◌∷◌, ◌&&◌, not, text_key, arith, eq_iff, any, contains, get_elem?,
}
use devops_backend.Outcome.{ok}
use devops_backend.Text.{is_part}
use devops_backend.Access.Rbac.{
  Request, Entry, View, PlatformConfig, check_is_admin, get_permission_from_role, has_method,
  url_whitelist, custom_method, entry_grants, user_is_superuser, is_empty, map_grants, decide,
}
use devops_backend.Access.Methods.{HoldsMethod, HoldsMethod-iff}

-- the methods by which an entry of perms_map covers a request
abbrev pub Covers : Request → View → Entry → Type 0
Covers request view e =
    (e.method ≡ "*")
    ⊎ ((e.method ≡ custom_method request.lower view.action)
        ⊎ ((e.method ≡ custom_method "*" view.action) ⊎ (e.method ≡ request.lower)))

-- an entry of perms_map
abbrev pub Listed : View → Entry → Type 0
Listed view e =
    (i : ℕ) × (j : ℕ) × (item : List Entry) × (get_elem? view.perms_map i ≡ some item)
    × (get_elem? item j ≡ some e)

-- the reasons for which a request is let through
pub data Granted (urls : List String) (request : Request) (view : View) : Type 0 where
  whitelisted :
      (i : ℕ) (url : String)
      → get_elem? urls i ≡ some url
      → is_part url request.path_info ≡ true
      → Granted urls request view
  from_workflow :
      request.lower ≡ "get"
      → contains request.query_keys "from_workflow" ≡ true
      → Granted urls request view
  superuser : user_is_superuser request.user ≡ true → Granted urls request view
  admin :
      check_is_admin request.user ≡ true
      → (e : Entry) → Listed view e
      → e.method ≡ "*"
      → e.code ≡ "admin"
      → Granted urls request view
  permitted :
      (e : Entry)
      → Listed view e
      → Covers request view e
      → HoldsMethod request.user e.code
      → Granted urls request view

entry_grants-cases :
    (request : Request) (view : View) (perms : List (Option String)) (e : Entry)
    → entry_grants (check_is_admin request.user) perms request.lower view.action e ≡ true
    → ((check_is_admin request.user ≡ true) × (e.method ≡ "*") × (e.code ≡ "admin"))
      ⊎ (Covers request view e × (has_method perms e.code ≡ true))
unfolding entry_grants
entry_grants-cases request view perms e q =
    let star = eq_iff e.method "*" in
    let code = eq_iff e.code "admin" in
    let custom = eq_iff e.method (custom_method request.lower view.action) in
    let star_action = eq_iff e.method (custom_method "*" view.action) in
    let plain = eq_iff e.method request.lower in
    ground (arith, q, star, code, custom, star_action, plain)

entry_grants-admin :
    (request : Request) (view : View) (perms : List (Option String)) (e : Entry)
    → check_is_admin request.user ≡ true
    → e.method ≡ "*"
    → e.code ≡ "admin"
    → entry_grants (check_is_admin request.user) perms request.lower view.action e ≡ true
unfolding entry_grants
entry_grants-admin request view perms e is_admin star code =
    ground (arith, is_admin, star, code, eq_iff e.method "*", eq_iff e.code "admin")

entry_grants-Covers :
    (request : Request) (view : View) (perms : List (Option String)) (e : Entry)
    → Covers request view e
    → has_method perms e.code ≡ true
    → entry_grants (check_is_admin request.user) perms request.lower view.action e ≡ true
unfolding entry_grants
entry_grants-Covers request view perms e covers held =
    let star = eq_iff e.method "*" in
    let custom = eq_iff e.method (custom_method request.lower view.action) in
    let star_action = eq_iff e.method (custom_method "*" view.action) in
    let plain = eq_iff e.method request.lower in
    elim covers [
      | inl a ↦ ground (arith, a, star, held)
      | inr (inl a) ↦ ground (arith, a, custom, held)
      | inr (inr (inl a)) ↦ ground (arith, a, star_action, held)
      | inr (inr (inr a)) ↦ ground (arith, a, plain, held)
    ]

has_method-nonempty :
    (perms : List (Option String)) (code : String)
    → has_method perms code ≡ true
    → is_empty perms ≡ false
unfolding has_method is_empty
has_method-nonempty [] code q = absurd (ground (arith, q))
has_method-nonempty (p ∷ perms) code q = refl

map_grants-Granted :
    (urls : List String) (request : Request) (view : View)
    → map_grants request view ≡ true
    → Granted urls request view
unfolding map_grants
map_grants-Granted urls request view q =
    let perms = get_permission_from_role request.user in
    let test = entry_grants (check_is_admin request.user) perms request.lower view.action in
    let item = any-Some (any test) view.perms_map (ground (arith, q)) in
    let e = any-Some test item.1 item.3 in
    let listed : Listed view e.1 = (item.0, e.0, item.1, item.2, e.2) in
    elim (entry_grants-cases request view perms e.1 e.3) [
      | inl a ↦ admin a.0 e.1 listed a.1 a.2
      | inr c ↦ permitted e.1 listed c.0 ((HoldsMethod-iff request.user e.1.code).0 c.1)
    ]

map_grants-Listed :
    (request : Request) (view : View) (e : Entry)
    → Listed view e
    → entry_grants
        (check_is_admin request.user)
        (get_permission_from_role request.user)
        request.lower
        view.action
        e
      ≡ true
    → not (not (check_is_admin request.user) && is_empty (get_permission_from_role request.user))
      ≡ true
    → map_grants request view ≡ true
unfolding map_grants
map_grants-Listed request view e listed grants some_right =
    let perms = get_permission_from_role request.user in
    let test = entry_grants (check_is_admin request.user) perms request.lower view.action in
    let in_item = Some-any test listed.2 listed.1 e listed.4 grants in
    let in_map = Some-any (any test) view.perms_map listed.0 listed.2 listed.3 in_item in
    ground (arith, some_right, in_map)

-- the four reasons as Boolean tests
abbrev Reason : List String → Request → View → Type 0
Reason urls request view =
    (any (λ url. is_part url request.path_info) urls ≡ true)
    ⊎ (((request.lower ≡ "get") × (contains request.query_keys "from_workflow" ≡ true))
        ⊎ ((user_is_superuser request.user ≡ true) ⊎ (map_grants request view ≡ true)))

decide-Reason :
    (platform : Option PlatformConfig) (request : Request) (view : View) (urls : List String)
    → url_whitelist platform ≡ ok urls
    → (decide platform request view ≡ ok true) ↔ Reason urls request view
unfolding decide
decide-Reason platform request view urls configured =
    let get = eq_iff request.lower "get" in
    (
      λ q. ground (arith, configured, q, get),
      λ r. elim r [
        | inl a ↦ ground (arith, configured, a)
        | inr (inl a) ↦ ground (arith, configured, a.0, a.1, get)
        | inr (inr (inl a)) ↦ ground (arith, configured, a)
        | inr (inr (inr a)) ↦ ground (arith, configured, a)
      ],
    )

Granted-Reason :
    (urls : List String) (request : Request) (view : View)
    → Granted urls request view
    → Reason urls request view
Granted-Reason urls request view (whitelisted i url at part) =
    inl (Some-any (λ u. is_part u request.path_info) urls i url at part)
Granted-Reason urls request view (from_workflow get key) = inr (inl (get, key))
Granted-Reason urls request view (superuser is_super) = inr (inr (inl is_super))
Granted-Reason urls request view (admin is_admin e listed star code) =
    let perms = get_permission_from_role request.user in
    let grants = entry_grants-admin request view perms e is_admin star code in
    inr (inr (inr (map_grants-Listed request view e listed grants (ground (arith, is_admin)))))
Granted-Reason urls request view (permitted e listed covers held) =
    let perms = get_permission_from_role request.user in
    let has = (HoldsMethod-iff request.user e.code).1 held in
    let grants = entry_grants-Covers request view perms e covers has in
    let some_right = has_method-nonempty perms e.code has in
    inr (inr (inr (map_grants-Listed request view e listed grants (ground (arith, some_right)))))

Reason-Granted :
    (urls : List String) (request : Request) (view : View)
    → Reason urls request view
    → Granted urls request view
Reason-Granted urls request view (inl a) =
    let url = any-Some (λ u. is_part u request.path_info) urls a in
    whitelisted url.0 url.1 url.2 url.3
Reason-Granted urls request view (inr (inl a)) = from_workflow a.0 a.1
Reason-Granted urls request view (inr (inr (inl a))) = superuser a
Reason-Granted urls request view (inr (inr (inr a))) = map_grants-Granted urls request view a

-- A request is let through exactly if its path has a part that is a url of the whitelist, or it is a
-- get from a workflow, or its user is a superuser, or an administrator with an entry of the view for
-- all administrators, or has a role with a permission for an entry of the view that covers the
-- request.
pub decide-Granted :
    (platform : Option PlatformConfig) (request : Request) (view : View) (urls : List String)
    → url_whitelist platform ≡ ok urls
    → (decide platform request view ≡ ok true) ↔ Granted urls request view
decide-Granted platform request view urls configured =
    let reason = decide-Reason platform request view urls configured in
    (
      λ q. Reason-Granted urls request view (reason.0 q),
      λ g. reason.1 (Granted-Reason urls request view g),
    )
