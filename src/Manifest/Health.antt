-- ===== src/Manifest/Health.antt =====
-- The probes and the hooks of the container, by the inner function health_lifecycle_generate, and the
-- further containers, by container_generate.
use Prim.Native.Char.{code}
use devops_backend.Prelude.{
  String, ◌≡◌, refl, Bool, true, false, Option, none, some, List, [], ◌∷◌, ◌&&◌, ◌==◌, text_key,
  number_key, if◌then◌else◌, get_elem?,
}
use devops_backend.Outcome.{Result, ok, err, ◌>>=◌, or_raise, index_error, type_error}
use devops_backend.Text.{extend, is_part}
use devops_backend.Shared.Dict.{lookup, put}

-- a value: a text, a shell command, or a dict of such
pub data ProbeValue : Type 0 where
  plain : String → ProbeValue
  shell : String → ProbeValue

pub data ProbeField : Type 0 where
  value : ProbeValue → ProbeField
  group : List (String × ProbeValue) → ProbeField

pub record Probe : Type 0 where
  pub name : String
  pub enable : Option Bool
  pub items : List (String × String)

-- `text.split('__')`, `taken` being true for the second underscore of a pair
unfoldable split_pairs : Bool → String → List String
split_pairs taken String.[] = "" ∷ []
split_pairs true (String.◌∷◌ c s) = split_pairs false s
split_pairs false (String.◌∷◌ c String.[]) = String.◌∷◌ c "" ∷ []
split_pairs false (String.◌∷◌ c (String.◌∷◌ d s)) =
    let passed = split_pairs false (String.◌∷◌ d s) in
    let cut = split_pairs true (String.◌∷◌ d s) in
    if code c == 95 && code d == 95 then "" ∷ cut else extend c passed

unfoldable pub split_double : String → List String
unfolding split_pairs
split_double s = split_pairs false s

-- `_x[a][b] = value`, a new dict where `_x` has none under `a`; a text there cannot be written to,
-- unless it is empty
unfoldable pub put_group :
    String → String → ProbeValue → List (String × ProbeField) → Result (List (String × ProbeField))
put_group a b v x = elim (lookup a x) [
  | none ↦ ok (put a (group (put b v [])) x)
  | some (group d) ↦ ok (put a (group (put b v d)) x)
  | some (value (plain t)) ↦ if t == "" then ok (put a (group (put b v [])) x) else err type_error
  | some (value (shell t)) ↦ err type_error
]

unfoldable pub probe_item :
    String → String → List (String × ProbeField) → Result (List (String × ProbeField))
probe_item name v x =
    let pieces = split_double name in
    let written = if name == "exec__command" then shell v else plain v in
    if is_part "__" name
    then (or_raise index_error (get_elem? pieces 0) >>= λ a.
        or_raise index_error (get_elem? pieces 1) >>= λ b. put_group a b written x)
    else ok (put name (value (plain v)) x)

unfoldable pub probe_items :
    List (String × String) → List (String × ProbeField) → Result (List (String × ProbeField))
probe_items [] x = ok x
probe_items ((name, v) ∷ rest) x = probe_item name v x >>= λ x'. probe_items rest x'

abbrev pub is_enabled : Bool → Option Bool → Bool
is_enabled enable none = enable
is_enabled enable (some b) = b

-- the loop over the probes, of which those without a mark count as `enable` says
unfoldable pub health_lifecycle_generate :
    Bool
    → List Probe
    → List (String × List (String × ProbeField))
    → Result (List (String × List (String × ProbeField)))
health_lifecycle_generate enable [] c = ok c
health_lifecycle_generate enable (i ∷ rest) c =
    if is_enabled enable i.enable
    then (probe_items i.items [] >>= λ x. health_lifecycle_generate enable rest (put i.name x c))
    else health_lifecycle_generate enable rest c

-- an entry for a further container: its key in the data dictionary, and what stands in for it
pub record Extra (C : Type 0) : Type 0 where
  pub enable : Bool
  pub key : String
  pub extra : C

unfoldable pub container_generate : {C : Type 0} → (String → Option C) → List (Extra C) → List C
container_generate dictionary [] = []
container_generate dictionary (i ∷ rest) =
    let others = container_generate dictionary rest in
    if i.enable then (elim (dictionary i.key) [ none ↦ i.extra | some c ↦ c ]) ∷ others else others

split_double_probe : split_double "httpGet__path" ≡ "httpGet" ∷ "path" ∷ []
unfolding split_double split_pairs
split_double_probe = refl
