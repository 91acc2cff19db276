-- ===== src/Shared/Tests.antt =====
-- Runs of the shared functions at concrete values, and the theorems at them.
use devops_backend.Prelude.{
  ℕ, ◌+◌, ◌*◌, String, ◌≡◌, refl, inl, Bool, Option, none, some, List, [], ◌∷◌, ◌++◌, length, ◌==◌,
  ◌≤◌, ◌-◌, ◌⊎◌, number_key, text_key,
}
use devops_backend.Outcome.{ok}
use devops_backend.Shared.Json.{Json, Fields, text, arr, obj, nil, cons, end, field}
use devops_backend.Shared.Mask.{
  mask_sensitive_data, filtered, SameKeys, all_calls, mask_sensitive_data-filtered,
}
use devops_backend.Shared.Period.{dynamic_period, Calendar, IsScale, dynamic_period-IsScale}
use devops_backend.Shared.Nodes.{Forest, node_filter, node, tree, leaf}
use devops_backend.Shared.Config.{SystemConfig, Cache}

abbrev login : Fields
login = field "user" (text "ann") (
    field "password" (text "s3cret") (
      field "more" (obj (field "token" (text "t") end))
        (field "list" (arr (cons (obj (field "token" (text "t") end)) nil)) end)))

abbrev secrets : List String
secrets = "password" ∷ []

abbrev excluded : List String
excluded = "token" ∷ []

abbrev no_json : String → Option Json
no_json t = none

-- a dict in a list is not entered
masked_login :
    filtered (secrets ++ excluded) login
    ≡ field "user" (text "ann") (
        field "password" (text "***FILTERED***") (
          field "more"
            (obj (field "token" (text "***FILTERED***") end))
            (field "list" (arr (cons (obj (field "token" (text "t") end)) nil)) end)))
unfolding filtered
masked_login = refl

mask_sensitive_data-filtered_example :
    (keys : List String) × (mask_sensitive_data no_json excluded secrets (obj login)
      ≡ ok (obj (filtered (secrets ++ excluded) login), keys))
    × SameKeys keys (secrets ++ excluded)
    × (length keys ≡ length secrets + all_calls (secrets ++ excluded) login * length excluded)
mask_sensitive_data-filtered_example =
    mask_sensitive_data-filtered no_json excluded secrets (obj login) login (inl refl)

abbrev menu : Forest
menu =
    tree (node 1 (tree (node 2 leaf) (tree (node 3 leaf) leaf)))
      (tree (node 3 (tree (node 4 leaf) leaf)) leaf)

found_first : node_filter 3 menu ≡ some (node 3 leaf)
unfolding node_filter
found_first = refl

abbrev new_values : List (String × ℕ)
new_values = ("online", 1) ∷ ("update_time", 9) ∷ []

abbrev old_values : List (String × ℕ)
old_values = ("online", 0) ∷ ("update_time", 8) ∷ []

abbrev online_key : String
online_key = "online"

abbrev time_key : String
time_key = "update_time"

dynamic_period-IsScale_example :
    (((dynamic_period 9000 1000).start_time ≡ 9000)
      × ((dynamic_period 9000 1000).end_time ≡ 1000)
      × (9000 ≤ 1000)
      × IsScale (dynamic_period 9000 1000).name (1000 - 9000))
    ⊎ (((dynamic_period 9000 1000).start_time ≡ 1000)
        × ((dynamic_period 9000 1000).end_time ≡ 9000)
        × (1000 ≤ 9000)
        × IsScale (dynamic_period 9000 1000).name (9000 - 1000))
dynamic_period-IsScale_example = dynamic_period-IsScale 9000 1000

abbrev dummy_calendar : Calendar
dummy_calendar = record {
  back = λ now unit n. ok 0;
  rrule = λ name s e. [];
  strftime = λ name t. "";
}

abbrev no_name : String → Bool
no_name s = s == ""

abbrev platform_config : List (SystemConfig String)
platform_config = record { type = "platform"; name = "platform"; config = some "v" } ∷ []

abbrev empty_table : List (SystemConfig String)
empty_table = []

abbrev empty_cache : Cache no_name
empty_cache = []
