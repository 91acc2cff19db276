-- ===== src/Workflow/Start.antt =====
-- Who may start a ticket: get_member_user_ids of apps/workflow/notice.py, and the test of the first
-- node's members in create_workflow of apps/workflow/ext_func.py.
use devops_backend.Prelude.{
  ℕ, String, ◌≡◌, ◌↔◌, ◌⊎◌, inl, inr, refl, sym, ap, subst, ◌∙◌, Bool, true, false, none, some,
  List, [], ◌∷◌, ◌++◌, map, ◌||◌, ◌==◌, text_key, arith, if◌then◌else◌, any, Some, any-Some,
  Some-any, Bool-cases, ◌&&◌, Option-cases, first_where, number_key,
}
use devops_backend.Outcome.{Result, ok, err, ◌>>=◌, Result-cases, value_error}
use devops_backend.Text.{split}

-- an element of `user_ids`: a text from a member, or the number of a user of a department
pub data UserId : Type 0 where
  text_id : String → UserId
  number_id : ℕ → UserId

-- an Organization with the numbers of its users
pub record Department : Type 0 where
  pub id : String
  pub users : List ℕ

-- a member, split into three by `@`
pub record Member : Type 0 where
  pub kind : String
  pub id : String

unfoldable pub three_parts : List String → Result Member
three_parts (kind ∷ id ∷ name ∷ []) = ok (record { kind = kind; id = id })
three_parts _ = err value_error

unfoldable pub department_ids : List Department → String → List UserId
department_ids departments id = elim (first_where (λ d. d.id == id) departments) [
  | none ↦ []
  | some d ↦ map (λ u. number_id u) d.users
]

unfoldable pub ids_of : List Department → Member → List UserId
ids_of departments m =
    if m.kind == "user"
    then text_id m.id ∷ []
    else if m.kind == "organization"
    then department_ids departments m.id
    else []

unfoldable pub get_member_user_ids : List Department → List String → Result (List UserId)
get_member_user_ids departments [] = ok []
get_member_user_ids departments (member_str ∷ members) = three_parts (split "@" member_str) >>= λ m.
    get_member_user_ids departments members >>= λ rest. ok (ids_of departments m ++ rest)

-- `str(user.id) in user_ids`
unfoldable pub has_text : List UserId → String → Bool
has_text [] id = false
has_text (x ∷ xs) id =
    let rest = has_text xs id in elim x [ text_id t ↦ t == id || rest | number_id n ↦ rest ]

-- the user who starts a ticket, with the text of the number
pub record Starter : Type 0 where
  pub id_text : String
  pub is_superuser : Bool

-- no members at all let everyone start
unfoldable pub may_start : List Department → List String → Starter → Result Bool
may_start departments [] user = ok true
may_start departments (m ∷ members) user =
    get_member_user_ids departments (m ∷ members) >>= λ user_ids.
    ok (user.is_superuser || has_text user_ids user.id_text)

has_text-append :
    (xs ys : List UserId) (id : String) → has_text (xs ++ ys) id ≡ has_text xs id || has_text ys id
unfolding has_text
has_text-append [] ys id = refl
has_text-append (x ∷ xs) ys id = let ih = has_text-append xs ys id in ground (arith, ih)

has_text-numbers : (us : List ℕ) (id : String) → has_text (map (λ u. number_id u) us) id ≡ false
unfolding has_text
has_text-numbers [] id = refl
has_text-numbers (u ∷ us) id = has_text-numbers us id

has_text-department_ids :
    (departments : List Department) (key id : String)
    → has_text (department_ids departments key) id ≡ false
unfolding department_ids has_text
has_text-department_ids departments key id =
    elim (Option-cases (first_where (λ d. d.id == key) departments)) [
      | inl lost ↦ ground (arith, lost)
      | inr d ↦ ground (arith, d.1, has_text-numbers d.0.users id)
    ]

-- a member that names the user by the text of the number
abbrev pub names_user : String → String → Bool
names_user id member_str = elim (three_parts (split "@" member_str)) [
  | ok m ↦ m.kind == "user" && m.id == id
  | err e ↦ false
]

pub names_user-parts :
    (id member_str : String) (m : Member)
    → three_parts (split "@" member_str) ≡ ok m
    → names_user id member_str ≡ (m.kind == "user" && m.id == id)
names_user-parts id member_str m parts = rw (parts, names_user) refl

has_text-ids_of :
    (departments : List Department) (m : Member) (id : String)
    → has_text (ids_of departments m) id ≡ (m.kind == "user" && m.id == id)
unfolding ids_of has_text
has_text-ids_of departments m id =
    let none_of = has_text-department_ids departments m.id id in ground (arith, none_of)

get_member_user_ids-any :
    (departments : List Department) (members : List String) (ids : List UserId) (id : String)
    → get_member_user_ids departments members ≡ ok ids
    → has_text ids id ≡ any (names_user id) members
unfolding get_member_user_ids has_text
get_member_user_ids-any departments [] ids id q = ground (arith, q)
get_member_user_ids-any departments (member_str ∷ members) ids id q =
    elim (Result-cases (three_parts (split "@" member_str))) [
      | inr error ↦ absurd (ground (arith, q, error.1))
      | inl m ↦ elim (Result-cases (get_member_user_ids departments members)) [
        | inr error ↦ absurd (ground (arith, q, m.1, error.1))
        | inl rest ↦
            let later = get_member_user_ids-any departments members rest.0 id rest.1 in
            let front = has_text-ids_of departments m.0 id in
            let both = has_text-append (ids_of departments m.0) rest.0 id in
            let whole : ids_of departments m.0 ++ rest.0 ≡ ids = ground (arith, q, m.1, rest.1) in
            let named = names_user-parts id member_str m.0 m.1 in
            subst (λ xs. has_text xs id ≡ names_user id member_str || any (names_user id) members)
              whole
              (both
                ∙ ap (λ x. x || has_text rest.0 id) (front ∙ sym named)
                ∙ ap (λ x. names_user id member_str || x) later)
      ]
    ]

-- A user who may start a ticket whose first node has members is a superuser or one of the members by
-- number: a member that is a department lets none of its users start.
pub may_start-Some :
    (departments : List Department) (m : String) (members : List String) (user : Starter) (b : Bool)
    → may_start departments (m ∷ members) user ≡ ok b
    → (b ≡ true) ↔ ((user.is_superuser ≡ true) ⊎ Some (names_user user.id_text) (m ∷ members))
unfolding may_start
may_start-Some departments m members user b q =
    elim (Result-cases (get_member_user_ids departments (m ∷ members))) [
      | inr error ↦ absurd (ground (arith, q, error.1))
      | inl ids ↦
          let found = get_member_user_ids-any departments (m ∷ members) ids.0 user.id_text ids.1 in
          let verdict : user.is_superuser || has_text ids.0 user.id_text ≡ b =
            ground (arith, q, ids.1) in
          (
            λ started. elim (Bool-cases user.is_superuser) [
              | inl super ↦ inl super
              | inr plain ↦ inr (
                  any-Some (names_user user.id_text) (m ∷ members)
                    (ground (arith, verdict, started, plain, found)))
            ],
            λ reason. elim reason [
              | inl super ↦ ground (arith, verdict, super)
              | inr s ↦
                  let named = Some-any (names_user user.id_text) (m ∷ members) s.0 s.1 s.2 s.3 in
                  let listed : has_text ids.0 user.id_text ≡ true = found ∙ named in
                  ground (arith, verdict, listed)
            ],
          )
    ]
