-- ===== src/Access/Methods.antt =====
-- The methods that the roles of a user give.
use devops_backend.Prelude.{
  Some, any-Some, Some-any, String, ◌≡◌, ◌↔◌, refl, true, Option, some, List, [], ◌∷◌, ◌++◌, ◌||◌,
  text_key, arith, any, contains, map,
}
use devops_backend.Access.Rbac.{
  Role, User, anonymous, account, joined, methods_of, get_permission_from_role, has_method,
}

-- a role of the user whose permissions name the method `code`
abbrev pub HoldsMethod : User → String → Type 0
HoldsMethod anonymous code = ⊥
HoldsMethod (account a) code = Some (λ r. contains r.methods code) a.roles

has_method-role :
    (methods : List String) (rest : List (Option String)) (code : String)
    → has_method (map (λ m. some m) methods ++ rest) code
      ≡ contains methods code || has_method rest code
unfolding has_method
has_method-role [] rest code = refl
has_method-role (m ∷ methods) rest code =
    let ih = has_method-role methods rest code in ground (arith, ih)

has_method-joined :
    (methods : List String) (rest : List (Option String)) (code : String)
    → has_method (joined methods ++ rest) code ≡ contains methods code || has_method rest code
unfolding joined has_method
has_method-joined [] rest code = refl
has_method-joined (m ∷ methods) rest code = has_method-role (m ∷ methods) rest code

has_method-roles :
    (roles : List Role) (code : String)
    → has_method (methods_of roles) code ≡ any (λ r. contains r.methods code) roles
unfolding methods_of has_method
has_method-roles [] code = refl
has_method-roles (r ∷ roles) code =
    let ih = has_method-roles roles code in
    ground (arith, has_method-joined r.methods (methods_of roles) code, ih)

pub HoldsMethod-iff :
    (user : User) (code : String)
    → (has_method (get_permission_from_role user) code ≡ true) ↔ HoldsMethod user code
unfolding get_permission_from_role has_method
HoldsMethod-iff anonymous code = (λ q. absurd (ground (arith, q)), λ h. absurd h)
HoldsMethod-iff (account a) code =
    let roles = has_method-roles a.roles code in
    (
      λ q. any-Some (λ r. contains r.methods code) a.roles (ground (arith, q, roles)),
      λ h. ground (arith, roles, Some-any (λ r. contains r.methods code) a.roles h.0 h.1 h.2 h.3),
    )
