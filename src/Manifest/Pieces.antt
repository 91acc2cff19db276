-- ===== src/Manifest/Pieces.antt =====
-- The parts that template_generate makes of the sections of a template: the strategy, the resources,
-- the labels, the annotations and the command.
use Prim.Native.String.{◌++◌ as append}
use devops_backend.Prelude.{
  String, ◌≡◌, ◌≢◌, Option, none, some, List, [], ◌∷◌, ◌++◌, ◌||◌, ◌==◌, text_key, arith,
  if◌then◌else◌, get_elem?, eq_iff, ◌∙◌,
}
use devops_backend.Outcome.{Result, ok, ◌>>=◌, or_raise, index_error}
use devops_backend.Text.{split, has_prefix}
use devops_backend.Shared.Dict.{
  lookup, put, put_all, lookup_last, lookup-put, lookup-put_all, lookup_last-append,
}

abbrev pub Pairs : Type 0
Pairs = List (String × String)

-- `spec.strategy.rollingUpdate`, missing where it is empty, and the other keys of `spec`
pub record Strategy : Type 0 where
  pub rolling : Pairs
  pub plain : Pairs

unfoldable pub add_strategy : Pairs → Strategy → Strategy
add_strategy [] s = s
add_strategy ((key, value) ∷ rest) s = add_strategy rest (
    if key == "maxSurge" || key == "maxUnavailable"
    then record s { rolling = put key (append value "%") s.rolling }
    else record s { plain = put key value s.plain })

-- one item of the resources: `requests_cpu` with a value and a unit
pub record Resource : Type 0 where
  pub key : String
  pub value : String
  pub slot : String

abbrev pub inner : Option Pairs → Pairs
inner none = []
inner (some d) = d

unfoldable pub add_resources :
    List Resource → List (String × Pairs) → Result (List (String × Pairs))
add_resources [] d = ok d
add_resources (i ∷ rest) d =
    let pieces = split "_" i.key in
    or_raise index_error (get_elem? pieces 0) >>= λ kind.
    or_raise index_error (get_elem? pieces 1) >>= λ name.
    add_resources rest (put kind (put name (append i.value i.slot) (inner (lookup kind d))) d)

abbrev pub platform_label : String
platform_label = "status-app-name-for-ops-platform"

-- the labels of the pods, and those that the Deployment selects them by
unfoldable pub match_labels : Pairs → String → Pairs
match_labels labels app = put_all (labels ++ ("app", app) ∷ []) []

unfoldable pub pod_labels : Pairs → String → Pairs
pod_labels labels app = put platform_label app (match_labels labels app)

-- the annotations for Prometheus; with a path they name the application's place
unfoldable pub annotate : Pairs → Pairs → Pairs
annotate [] d = d
annotate ((name, value) ∷ rest) d = annotate rest (put (append "prometheus.io/" name) value d)

unfoldable pub annotations : Pairs → String → String → String → Pairs
annotations items product environment project =
    let d = annotate items [] in
    elim (lookup "prometheus.io/path" d) [
      | none ↦ d
      | some path ↦
          put "prometheus.io/app_project" project
            (put "prometheus.io/app_env" environment (put "prometheus.io/app_product" product d))
    ]

-- the command of the container: none for an empty text
unfoldable pub command_of : Option String → List String
command_of none = []
command_of (some command) =
    if command == ""
    then []
    else if has_prefix command "./"
    then command ∷ []
    else "sh" ∷ "-c" ∷ command ∷ []

-- The Deployment selects its own pods: each label that it selects by is a label of its pods, with the
-- same value, except for the platform's own label where the template sets that one too; and the label
-- `app` is the application's name whatever the template says.
pub match_labels-pod_labels :
    (labels : Pairs) (app k : String)
    → (k ≢ platform_label)
    → (lookup k (pod_labels labels app) ≡ lookup k (match_labels labels app))
      × (lookup "app" (match_labels labels app) ≡ some app)
unfolding pod_labels match_labels lookup_last
match_labels-pod_labels labels app k other = (
  ground (
    arith,
    lookup-put platform_label k app (match_labels labels app),
    eq_iff platform_label k,
    other,
  ),
  lookup-put_all "app" (labels ++ ("app", app) ∷ []) []
      ∙ lookup_last-append "app" labels (("app", app) ∷ []) (lookup "app" []),
)
