-- ===== src/Manifest/Generate.antt =====
-- template_generate of common/ext_fun.py, but for the volumes.
use Prim.Native.String.{◌++◌ as append}
use devops_backend.Prelude.{
  String, Bool, true, false, Option, none, some, List, [], ◌==◌, text_key, if◌then◌else◌, ◌≡◌, ◌&&◌,
  ◌≢◌, number_key, Option-cases, arith, inl, inr,
}
use devops_backend.Outcome.{
  Result, ok, err, ◌>>=◌, or_raise, does_not_exist, type_error, key_error, attribute_error,
  index_error, Result-cases,
}
use devops_backend.Shared.Dict.{lookup, put_all}
use devops_backend.Manifest.Merge.{TemplateEntry, section, is_true, AppTemplate, merged}
use devops_backend.Manifest.Pieces.{
  Pairs, Strategy, Resource, add_strategy, add_resources, match_labels, pod_labels, annotations,
  command_of, platform_label, match_labels-pod_labels,
}
use devops_backend.Manifest.Env.{EnvVar, AppNames, ContainerVar, env_list}
use devops_backend.Manifest.Health.{
  Probe, ProbeField, Extra, health_lifecycle_generate, container_generate,
}
use Prim.Native.Char.{code}

-- the `data` of a section
pub data Body : Type 0 where
  pairs : Pairs → Body
  resources : List Resource → Body
  variables : List EnvVar → Body
  probes : List Probe → Body

-- the application and what the function reads about it; `C` is a container of the data dictionary
pub record Source (C : Type 0) : Type 0 where
  pub names : AppNames
  pub own : AppTemplate Body
  pub app : AppTemplate Body
  pub project : Option (AppTemplate Body)
  pub environment : AppTemplate Body
  pub language_command : Option (Option String)
  pub app_command : Option String
  pub registry_url : Option String
  pub host_network : Bool
  pub containers_custom : Bool
  pub own_containers : List (Extra C)
  pub project_containers : List (Extra C)
  pub dictionary : String → Option C

-- the parts of the Deployment that depend on the templates
pub record PodDeployment (C : Type 0) : Type 0 where
  pub name : String
  pub namespace : String
  pub image : String
  pub strategy : Strategy
  pub limits : List (String × Pairs)
  pub command : List String
  pub labels : Pairs
  pub selector : Pairs
  pub node_selector : Pairs
  pub notes : Pairs
  pub env : List ContainerVar
  pub health : List (String × List (String × ProbeField))
  pub lifecycle : List (String × List (String × ProbeField))
  pub host_network : Bool
  pub containers : List C

-- `{'ecode': 500, ...}`, or `{'ecode': 200, ...}` with the yaml
pub data Generated (C : Type 0) : Type 0 where
  failed : Generated C
  made : PodDeployment C → Generated C

-- `template[k]['data']` as the code reads it there
unfoldable pub body_at : AppTemplate Body → String → Result Body
body_at t k = or_raise key_error (lookup k t) >>= λ v. body v
  where
    body : TemplateEntry Body → Result Body
    body (section custom b) = ok b
    body v = err type_error

unfoldable pub pairs_at : AppTemplate Body → String → Result Pairs
pairs_at t k = body_at t k >>= λ b. elim b [ pairs p ↦ ok p | _ ↦ err type_error ]

unfoldable pub resources_at : AppTemplate Body → String → Result (List Resource)
resources_at t k = body_at t k >>= λ b. elim b [ resources p ↦ ok p | _ ↦ err type_error ]

unfoldable pub variables_at : AppTemplate Body → String → Result (List EnvVar)
variables_at t k = body_at t k >>= λ b. elim b [ variables p ↦ ok p | _ ↦ err type_error ]

unfoldable pub probes_at : AppTemplate Body → String → Result (List Probe)
probes_at t k = body_at t k >>= λ b. elim b [ probes p ↦ ok p | _ ↦ err type_error ]

-- `template.get(k)` before a section that may be left out
abbrev pub has : AppTemplate Body → String → Bool
has t k = elim (lookup k t) [ none ↦ false | some v ↦ is_true v ]

abbrev pub first_text : Option String → Option String → Option String
first_text none other = other
first_text (some t) other = if t == "" then other else some t

unfoldable pub when_has : {A : Type 0} → AppTemplate Body → String → A → Result A → Result A
when_has t k absent present = if has t k then present else ok absent

abbrev pub no_pairs : Pairs
no_pairs = []

abbrev pub no_probes : List (String × List (String × ProbeField))
no_probes = []

-- what stands in the `try`
unfoldable pub render :
    {C : Type 0} → Source C → Option String → String → AppTemplate Body → Result (PodDeployment C)
render s language image t = do
  strategy ← when_has t "strategy" no_pairs (pairs_at t "strategy")
  items ← resources_at t "resources"
  limits ← add_resources items []
  labels ← pairs_at t "label"
  selectors ← pairs_at t "selector"
  prometheus ← pairs_at t "prometheus"
  given ← variables_at t "env"
  health ←
      when_has t "health" no_probes
        (probes_at t "health" >>= λ p. health_lifecycle_generate true p [])
  lifecycle ←
      when_has t "lifecycle" no_probes
        (probes_at t "lifecycle" >>= λ p. health_lifecycle_generate false p [])
  ok (record {
    name = s.names.app;
    namespace = s.names.namespace;
    image = image;
    strategy = add_strategy strategy (record { rolling = []; plain = [] });
    limits = limits;
    command = command_of (first_text s.app_command language);
    labels = pod_labels labels s.names.app;
    selector = match_labels labels s.names.app;
    node_selector = put_all selectors [];
    notes = annotations prometheus s.names.product s.names.environment s.names.project;
    env = env_list s.names given;
    health = health;
    lifecycle = lifecycle;
    host_network = s.host_network;
    containers = [];
  })

-- `url.split('://')[1]`: the text before a further `://`, and the text behind the first one
unfoldable pub before_scheme : String → String
before_scheme String.[] = ""
before_scheme (String.◌∷◌ c String.[]) = String.◌∷◌ c ""
before_scheme (String.◌∷◌ c (String.◌∷◌ d String.[])) = String.◌∷◌ c (String.◌∷◌ d "")
before_scheme (String.◌∷◌ c (String.◌∷◌ d (String.◌∷◌ e s))) =
    let rest = before_scheme (String.◌∷◌ d (String.◌∷◌ e s)) in
    if code c == 58 && (code d == 47 && code e == 47) then "" else String.◌∷◌ c rest

unfoldable pub after_scheme : String → Option String
unfolding before_scheme
after_scheme String.[] = none
after_scheme (String.◌∷◌ c String.[]) = none
after_scheme (String.◌∷◌ c (String.◌∷◌ d String.[])) = none
after_scheme (String.◌∷◌ c (String.◌∷◌ d (String.◌∷◌ e s))) =
    let rest = after_scheme (String.◌∷◌ d (String.◌∷◌ e s)) in
    if code c == 58 && (code d == 47 && code e == 47) then some (before_scheme s) else rest

-- the further containers: the application's, or those of the project, which must then be configured
unfoldable pub extra_containers : {C : Type 0} → Source C → Result (List C)
extra_containers s =
    if s.containers_custom
    then ok (container_generate s.dictionary s.own_containers)
    else (or_raise attribute_error s.project >>= λ p.
        ok (container_generate s.dictionary s.project_containers))

unfoldable pub template_generate : {C : Type 0} → Source C → String → Result (Generated C)
template_generate s image = do
  language ← or_raise does_not_exist s.language_command
  url ← or_raise type_error s.registry_url
  host ← or_raise index_error (after_scheme url)
  let rendered =
      render s language (append host (append "/" image))
        (merged s.own s.app s.project s.environment)
  elim rendered [
    | err e ↦ ok failed
    | ok d ↦ extra_containers s >>= λ cs. ok (made (record d { containers = cs }))
  ]

render-labels :
    {C : Type 0} (s : Source C) (language : Option String) (image : String) (t : AppTemplate Body)
    (d : PodDeployment C)
    → render s language image t ≡ ok d
    → (labels : Pairs) × (d.labels ≡ pod_labels labels s.names.app)
      × (d.selector ≡ match_labels labels s.names.app)
unfolding render
render-labels s language image t d q =
    elim (Result-cases (when_has t "strategy" no_pairs (pairs_at t "strategy"))) [
      | inr bad ↦ absurd (ground (arith, q, bad.1))
      | inl strategy ↦ elim (Result-cases (resources_at t "resources")) [
        | inr bad ↦ absurd (ground (arith, q, strategy.1, bad.1))
        | inl items ↦ elim (Result-cases (add_resources items.0 [])) [
          | inr bad ↦ absurd (ground (arith, q, strategy.1, items.1, bad.1))
          | inl limits ↦ elim (Result-cases (pairs_at t "label")) [
            | inr bad ↦ absurd (ground (arith, q, strategy.1, items.1, limits.1, bad.1))
            | inl labels ↦ elim (Result-cases (pairs_at t "selector")) [
              | inr bad ↦ absurd (ground (arith, q, strategy.1, items.1, limits.1, labels.1, bad.1))
              | inl selectors ↦ elim (Result-cases (pairs_at t "prometheus")) [
                | inr bad ↦
                    absurd (
                      ground
                        (arith, q, strategy.1, items.1, limits.1, labels.1, selectors.1, bad.1))
                | inl prometheus ↦ elim (Result-cases (variables_at t "env")) [
                  | inr bad ↦ absurd (
                      ground (
                        arith, q, strategy.1, items.1, limits.1, labels.1, selectors.1,
                        prometheus.1, bad.1,
                      ))
                  | inl given ↦
                      elim (Result-cases (
                        when_has t "health" no_probes
                          (probes_at t "health" >>= λ p. health_lifecycle_generate true p []))) [
                            | inr bad ↦ absurd (
                                ground (
                                  arith, q, strategy.1, items.1, limits.1, labels.1, selectors.1,
                                  prometheus.1, given.1, bad.1,
                                ))
                            | inl health ↦
                                elim (Result-cases (
                                  when_has t "lifecycle" no_probes (
                                    probes_at t "lifecycle" >>= λ p.
                                    health_lifecycle_generate false p []))) [
                                      | inr bad ↦ absurd (
                                          ground (
                                            arith, q, strategy.1, items.1, limits.1, labels.1,
                                            selectors.1, prometheus.1, given.1, health.1, bad.1,
                                          ))
                                      | inl lifecycle ↦ (
                                        labels.0,
                                        ground (
                                          arith, q, strategy.1, items.1, limits.1, labels.1,
                                          selectors.1, prometheus.1, given.1, health.1, lifecycle.1,
                                        ),
                                        ground (
                                          arith, q, strategy.1, items.1, limits.1, labels.1,
                                          selectors.1, prometheus.1, given.1, health.1, lifecycle.1,
                                        ),
                                      )
                                    ]
                          ]
                ]
              ]
            ]
          ]
        ]
      ]
    ]

-- A Deployment that is made selects its own pods: each label that it selects by is a label of its pods
-- with the same value, but for the platform's own label where the template sets that one too; and the
-- label `app` is the name of the application, whatever the template says.
pub template_generate-selects :
    {C : Type 0} (s : Source C) (image : String) (d : PodDeployment C) (k : String)
    → template_generate s image ≡ ok (made d)
    → k ≢ platform_label
    → (lookup k d.labels ≡ lookup k d.selector) × (lookup "app" d.selector ≡ some s.names.app)
unfolding template_generate
template_generate-selects s image d k q other = elim (Option-cases s.language_command) [
  | inl unknown ↦ absurd (ground (arith, q, unknown))
  | inr language ↦ elim (Option-cases s.registry_url) [
    | inl unset ↦ absurd (ground (arith, q, language.1, unset))
    | inr url ↦ elim (Option-cases (after_scheme url.0)) [
      | inl bare ↦ absurd (ground (arith, q, language.1, url.1, bare))
      | inr host ↦
          let t = merged s.own s.app s.project s.environment in
          let whole_image = append host.0 (append "/" image) in
          let whole = render s language.0 whole_image t in
          elim (Result-cases whole) [
            | inr fault ↦ absurd (ground (arith, q, language.1, url.1, host.1, fault.1))
            | inl e ↦ elim (Result-cases (extra_containers s)) [
              | inr fault ↦ absurd (ground (arith, q, language.1, url.1, host.1, e.1, fault.1))
              | inl cs ↦
                  let l = render-labels s language.0 whole_image t e.0 e.1 in
                  let own = match_labels-pod_labels l.0 s.names.app k other in
                  let labels : d.labels ≡ pod_labels l.0 s.names.app =
                    ground (arith, q, language.1, url.1, host.1, e.1, cs.1, l.1) in
                  let selector : d.selector ≡ match_labels l.0 s.names.app =
                    ground (arith, q, language.1, url.1, host.1, e.1, cs.1, l.2) in
                  rw (labels, selector) own
            ]
          ]
    ]
  ]
]
