-- ===== src/Manifest/Owned.antt =====
-- The variables of the platform, which a template cannot replace.
use devops_backend.Prelude.{
  ℕ, zero, suc, ◌≡◌, refl, Option, some, List, [], ◌∷◌, ◌++◌, map, text_key, arith, get_elem?,
  IsDistinct, ◌∙◌, ap, subst,
}
use devops_backend.Shared.Dict.{
  lookup, keys, lookup_last, lookup-put_all, lookup_last-append, put_all-IsDistinct,
}
use devops_backend.Manifest.Env.{EnvVar, AppNames, plain_var, platform_vars, by_name, env_dict}

map-append : (xs ys : List EnvVar) → map by_name (xs ++ ys) ≡ map by_name xs ++ map by_name ys
map-append [] ys = refl
map-append (x ∷ xs) ys = ap (λ t. by_name x ∷ t) (map-append xs ys)

at_name :
    {v var : EnvVar} (n : AppNames) (before : Option EnvVar)
    → some v ≡ some var
    → lookup_last v.name (map by_name (platform_vars n)) before ≡ some v
    → lookup_last var.name (map by_name (platform_vars n)) before ≡ some var
at_name {v} {var} n before same found =
    let e : v ≡ var = ground (arith, same) in
    subst (λ x. lookup_last x.name (map by_name (platform_vars n)) before ≡ some x) e found

-- the names of the platform differ, so that each is found whatever stands before
lookup_last-platform :
    (n : AppNames) (i : ℕ) (var : EnvVar) (before : Option EnvVar)
    → get_elem? (platform_vars n) i ≡ some var
    → lookup_last var.name (map by_name (platform_vars n)) before ≡ some var
unfolding lookup_last
lookup_last-platform n zero var before at = at_name n before at refl
lookup_last-platform n (suc zero) var before at = at_name n before at refl
lookup_last-platform n (suc (suc zero)) var before at = at_name n before at refl
lookup_last-platform n (suc (suc (suc zero))) var before at = at_name n before at refl
lookup_last-platform n (suc (suc (suc (suc zero)))) var before at = at_name n before at refl
lookup_last-platform n (suc (suc (suc (suc (suc zero))))) var before at = at_name n before at refl
lookup_last-platform n (suc (suc (suc (suc (suc (suc zero)))))) var before at =
    at_name n before at refl
lookup_last-platform n (suc (suc (suc (suc (suc (suc (suc i))))))) var before at =
    absurd (ground (arith, at))

-- In the variables of a container no name stands twice before the quotes around names are taken off, and
-- each of the platform's own names has the platform's value, whatever the template sets it to.
pub env_dict-platform :
    (n : AppNames) (template : List EnvVar) (i : ℕ) (var : EnvVar)
    → get_elem? (platform_vars n) i ≡ some var
    → (lookup var.name (env_dict n template) ≡ some var) × IsDistinct (keys (env_dict n template))
unfolding env_dict
env_dict-platform n template i var at =
    let all = plain_var "TZ" n.timezone ∷ (template ++ platform_vars n) in
    let whole : map by_name all
        ≡ map by_name (plain_var "TZ" n.timezone ∷ template) ++ map by_name (platform_vars n) =
      map-append (plain_var "TZ" n.timezone ∷ template) (platform_vars n) in
    (
      lookup-put_all var.name (map by_name all) []
          ∙ (ap (λ t. lookup_last var.name t (lookup var.name [])) whole
              ∙ (lookup_last-append var.name (map by_name (plain_var "TZ" n.timezone ∷ template))
                    (map by_name (platform_vars n)) (lookup var.name [])
                  ∙ lookup_last-platform n i var _ at)),
      put_all-IsDistinct (map by_name all) [] tt,
    )
