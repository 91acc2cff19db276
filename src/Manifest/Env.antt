-- ===== src/Manifest/Env.antt =====
-- The environment variables that template_generate gives to the container.
use Prim.Native.Char.{code}
use devops_backend.Prelude.{
  ℕ, String, Bool, false, Option, none, some, List, [], ◌∷◌, ◌++◌, map, ◌&&◌, ◌==◌, text_key,
  number_key, if◌then◌else◌,
}
use devops_backend.Shared.Dict.{put_all}

-- a value of a variable: a text, or a number that JSON gives
pub data EnvValue : Type 0 where
  text : String → EnvValue
  number : ℕ → EnvValue

-- an item of the section `env`
pub record EnvVar : Type 0 where
  pub name : String
  pub value : Option EnvValue
  pub cmname : Option String
  pub cmkey : Option String
  pub value_from : Option String

-- the names of an application that the platform passes to it
pub record AppNames : Type 0 where
  pub timezone : String
  pub stamp : String
  pub product : String
  pub project : String
  pub app : String
  pub appid : String
  pub environment : String
  pub namespace : String

abbrev pub plain_var : String → String → EnvVar
plain_var name value = record {
  name = name;
  value = some (text value);
  cmname = none;
  cmkey = none;
  value_from = none;
}

abbrev pub platform_vars : AppNames → List EnvVar
platform_vars n =
    plain_var "_RESTART" n.stamp
    ∷ plain_var "PRODUCT_NAME" n.product
    ∷ plain_var "PROJECT_NAME" n.project
    ∷ plain_var "APPNAME" n.app
    ∷ plain_var "APPID" n.appid
    ∷ plain_var "ENV" n.environment
    ∷ plain_var "POD_NAMESPACE" n.namespace
    ∷ []

abbrev pub by_name : EnvVar → String × EnvVar
by_name i = (i.name, i)

-- `{i['name']: i for i in envs}`: of variables with one name the last is left, at the first's place
unfoldable pub env_dict : AppNames → List EnvVar → List (String × EnvVar)
env_dict n template =
    put_all (map by_name (plain_var "TZ" n.timezone ∷ (template ++ platform_vars n))) []

-- `lstrip` and `rstrip` of one character
unfoldable pub lstrip : ℕ → String → String
lstrip quote String.[] = ""
lstrip quote (String.◌∷◌ c s) =
    let rest = lstrip quote s in if code c == quote then rest else String.◌∷◌ c s

unfoldable pub rstrip : ℕ → String → String
rstrip quote String.[] = ""
rstrip quote (String.◌∷◌ c s) =
    let rest = rstrip quote s in if rest == "" && code c == quote then "" else String.◌∷◌ c rest

-- the quotes around a text: first the double ones, then the single ones
unfoldable pub unquote : String → String
unquote s = rstrip 39 (lstrip 39 (rstrip 34 (lstrip 34 s)))

-- a variable of the container: with a value, from a config map, or as it was left by an exception
pub data ContainerVar : Type 0 where
  with_value : String → Option EnvValue → ContainerVar
  from_config_map : String → Option String → Option String → ContainerVar
  as_given : String → EnvValue → Option String → ContainerVar

unfoldable pub from_or_value : EnvVar → Option EnvValue → ContainerVar
from_or_value i value =
    if is_ref i.value_from
    then from_config_map (unquote i.name) i.cmname i.cmkey
    else with_value (unquote i.name) value
  where
    is_ref : Option String → Bool
    is_ref none = false
    is_ref (some kind) = kind == "configMapKeyRef"

-- the body of the loop; a number that is not 0 has no `lstrip`, and the exception is swallowed
unfoldable pub clean_var : EnvVar → ContainerVar
clean_var i = elim i.value [
  | none ↦ from_or_value i none
  | some (text t) ↦ from_or_value i (some (text (unquote t)))
  | some (number n) ↦
      if n == 0 then from_or_value i (some (number n)) else as_given i.name (number n) i.value_from
]

unfoldable pub env_list : AppNames → List EnvVar → List ContainerVar
env_list n template = map (λ p. clean_var p.1) (env_dict n template)
