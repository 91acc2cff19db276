-- ===== src/Manifest/Merge.antt =====
-- The four templates of an application and how template_generate merges them: its own, that of the
-- module it belongs to, that of the project in the environment, and that of the environment.
use Prim.Native.Char.{code}
use devops_backend.Prelude.{
  String, Bool, true, false, Option, none, some, List, [], ◌∷◌, ◌&&◌, ◌||◌, ◌==◌, text_key,
  number_key, if◌then◌else◌,
}
use devops_backend.Text.{is_part}
use devops_backend.Shared.Dict.{lookup, put}

-- a value of a template: a flag, a section with its mark `custom`, or what counts as false
pub data TemplateEntry (S : Type 0) : Type 0 where
  flag : Bool → TemplateEntry S
  section : Bool → S → TemplateEntry S
  blank : TemplateEntry S

abbrev pub is_true : {S : Type 0} → TemplateEntry S → Bool
is_true (flag b) = b
is_true (section custom s) = true
is_true blank = false

-- `k.rstrip('_on')`: all characters `_`, `o` and `n` at the end
unfoldable pub strip_on : String → String
strip_on String.[] = ""
strip_on (String.◌∷◌ c text) =
    let rest = strip_on text in
    if rest == "" && (code c == 95 || (code c == 111 || code c == 110))
    then ""
    else String.◌∷◌ c rest

abbrev pub AppTemplate : Type 0 → Type 0
AppTemplate S = List (String × TemplateEntry S)

module _ {S : Type 0} where
  abbrev pub truthy_at : String → AppTemplate S → Option (TemplateEntry S)
  truthy_at k t = elim (lookup k t) [ none ↦ none | some v ↦ if is_true v then some v else none ]

  abbrev pub put_if : String → Option (TemplateEntry S) → AppTemplate S → AppTemplate S
  put_if k none t = t
  put_if k (some v) t = put k v t

  -- what a section of the project's template gives: its own, or that of the environment
  unfoldable pub project_pick : AppTemplate S → String → TemplateEntry S → Option (TemplateEntry S)
  project_pick environment k (section false s) = truthy_at k environment
  project_pick environment k (section true s) = some (section true s)
  project_pick environment k v = none

  unfoldable pub project_loop : AppTemplate S → AppTemplate S → AppTemplate S → AppTemplate S
  project_loop environment [] t = t
  project_loop environment ((k, v) ∷ rest) t =
      project_loop environment rest (put_if k (project_pick environment k v) t)

  -- a flag such as `env_on` of the module turns its section `env` on
  unfoldable pub app_loop : AppTemplate S → AppTemplate S → AppTemplate S → AppTemplate S
  app_loop app [] t = t
  app_loop app ((k, v) ∷ rest) t =
      let key = strip_on k in
      app_loop app rest
        (if is_part "_on" k && is_true v then put_if key (truthy_at key app) t else t)

  abbrev pub custom_section : TemplateEntry S → Option (TemplateEntry S)
  custom_section (section true s) = some (section true s)
  custom_section v = none

  unfoldable pub module_loop : AppTemplate S → AppTemplate S → AppTemplate S
  module_loop [] t = t
  module_loop ((k, v) ∷ rest) t = module_loop rest (put_if k (custom_section v) t)

  -- the template that is rendered; without a configuration of the project nothing of it is used
  unfoldable pub merged :
      AppTemplate S → AppTemplate S → Option (AppTemplate S) → AppTemplate S → AppTemplate S
  merged own app none environment = module_loop own (app_loop app app [])
  merged own app (some project) environment =
      module_loop own (app_loop app app (project_loop environment project []))
