-- ===== src/Manifest/Precedence.antt =====
-- Which template a section is taken from.
use devops_backend.Prelude.{
  String, ◌≡◌, refl, Bool, true, false, Option, none, some, [], ◌∷◌, ◌&&◌, ◌==◌, text_key, arith,
  if◌then◌else◌, any, contains, Bool-cases, Option-cases, inl, inr, IsDistinct, eq_iff, subst, ap,
  ◌∙◌,
}
use devops_backend.Text.{is_part}
use devops_backend.Shared.Dict.{lookup, keys, lookup-put}
use devops_backend.Manifest.Merge.{
  TemplateEntry, is_true, strip_on, AppTemplate, truthy_at, put_if, project_pick, project_loop,
  app_loop, custom_section, module_loop, merged,
}

module _ {S : Type 0} where
  abbrev pub or_else :
      Option (TemplateEntry S) → Option (TemplateEntry S) → Option (TemplateEntry S)
  or_else none other = other
  or_else (some v) other = some v

  abbrev pub then_pick :
      Option (TemplateEntry S)
      → (TemplateEntry S → Option (TemplateEntry S))
      → Option (TemplateEntry S)
  then_pick none pick = none
  then_pick (some v) pick = pick v

  lookup-put_if :
      (key k : String) (o : Option (TemplateEntry S)) (t : AppTemplate S)
      → lookup k (put_if key o t) ≡ (if key == k then or_else o (lookup k t) else lookup k t)
  lookup-put_if key k none t = ground arith
  lookup-put_if key k (some v) t = ground (arith, lookup-put key k v t)

  lookup-absent : (k : String) (d : AppTemplate S) → contains (keys d) k ≡ false → lookup k d ≡ none
  unfolding lookup
  lookup-absent k [] h = refl
  lookup-absent k ((j, v) ∷ d) h = ground (arith, lookup-absent k d)

  lookup-module_loop :
      (k : String) (own t : AppTemplate S)
      → IsDistinct (keys own)
      → lookup k (module_loop own t)
        ≡ or_else (then_pick (lookup k own) custom_section) (lookup k t)
  unfolding module_loop lookup
  lookup-module_loop k [] t d = refl
  lookup-module_loop k ((j, v) ∷ rest) t d =
      let ih = lookup-module_loop k rest (put_if j (custom_section v) t) d.1 in
      let here = lookup-put_if j k (custom_section v) t in
      let absent = lookup-absent j rest d.0 in
      elim (Bool-cases (j == k)) [
        | inl q ↦
            let same : j ≡ k = (eq_iff j k).0 q in
            let absent' : lookup k rest ≡ none = subst (λ x. lookup x rest ≡ none) same absent in
            ground (arith, q, ih, here, absent')
        | inr q ↦ ground (arith, q, ih, here)
      ]

  or_else-none : (o : Option (TemplateEntry S)) → or_else o none ≡ o
  or_else-none none = refl
  or_else-none (some v) = refl

  -- a flag of the module for the section
  abbrev pub turns_on : AppTemplate S → String → String × TemplateEntry S → Bool
  turns_on app k p =
      strip_on p.0 == k && (is_part "_on" p.0 && (is_true p.1 && holds (truthy_at k app)))
    where
      holds : Option (TemplateEntry S) → Bool
      holds none = false
      holds (some v) = true

  lookup-app_loop :
      (k : String) (app pairs t : AppTemplate S)
      → lookup k (app_loop app pairs t)
        ≡ (if any (turns_on app k) pairs then truthy_at k app else lookup k t)
  unfolding app_loop
  lookup-app_loop k app [] t = refl
  lookup-app_loop k app ((j, v) ∷ rest) t =
      let key = strip_on j in
      let same = eq_iff key k in
      elim (Bool-cases (is_part "_on" j && is_true v)) [
        | inr off ↦ let ih = lookup-app_loop k app rest t in ground (arith, off, ih)
        | inl on ↦
            let ih = lookup-app_loop k app rest (put_if key (truthy_at key app) t) in
            let here = lookup-put_if key k (truthy_at key app) t in
            elim (Bool-cases (key == k)) [
              | inr other ↦ ground (arith, on, other, ih, here)
              | inl q ↦
                  let e : truthy_at key app ≡ truthy_at k app =
                    ap (λ x. truthy_at x app) (same.0 q) in
                  elim (Option-cases (truthy_at k app)) [
                    | inl nothing ↦ ground (arith, on, q, ih, here, e, nothing)
                    | inr some_value ↦ ground (arith, on, q, ih, here, e, some_value.1)
                  ]
            ]
      ]

  lookup-project_loop :
      (k : String) (environment project t : AppTemplate S)
      → IsDistinct (keys project)
      → lookup k (project_loop environment project t)
        ≡ or_else (then_pick (lookup k project) (project_pick environment k)) (lookup k t)
  unfolding project_loop lookup
  lookup-project_loop k environment [] t d = refl
  lookup-project_loop k environment ((j, v) ∷ rest) t d =
      let ih =
        lookup-project_loop k environment rest (put_if j (project_pick environment j v) t) d.1 in
      let here = lookup-put_if j k (project_pick environment j v) t in
      let absent = lookup-absent j rest d.0 in
      elim (Bool-cases (j == k)) [
        | inl q ↦
            let same : j ≡ k = (eq_iff j k).0 q in
            let absent' : lookup k rest ≡ none = subst (λ x. lookup x rest ≡ none) same absent in
            let pick : project_pick environment j v ≡ project_pick environment k v =
              ap (λ x. project_pick environment x v) same in
            ground (arith, q, ih, here, absent', pick)
        | inr q ↦ ground (arith, q, ih, here)
      ]

  -- The section that is rendered under a key: the application's own, if it is marked as custom; else that
  -- of the module, if a flag of the module turns it on and it is not empty; else, with a configuration of
  -- the project that has the section, the project's if it is marked as custom, and otherwise that of the
  -- environment, if it is not empty; else none.
  pub lookup-merged :
      (k : String) (own app environment project : AppTemplate S)
      → IsDistinct (keys own)
      → IsDistinct (keys project)
      → lookup k (merged own app (some project) environment)
        ≡ or_else (then_pick (lookup k own) custom_section) (
            if any (turns_on app k) app
            then truthy_at k app
            else then_pick (lookup k project) (project_pick environment k))
  unfolding merged lookup
  lookup-merged k own app environment project d d' =
      let base = project_loop environment project [] in
      let first = lookup-module_loop k own (app_loop app app base) d in
      let second = lookup-app_loop k app app base in
      let third = lookup-project_loop k environment project [] d' in
      first
      ∙ ap (or_else (then_pick (lookup k own) custom_section)) (
          second
          ∙ ap (λ o. if any (turns_on app k) app then truthy_at k app else o)
              (third ∙ or_else-none (then_pick (lookup k project) (project_pick environment k))))
