-- ===== src/Shared/Compare.antt =====
-- compare_dict of common/ext_fun.py, and get_members, the members of all teams of an object.
use devops_backend.Prelude.{
  ℕ, String, ◌≡◌, refl, Bool, true, false, Option, none, some, List, [], ◌∷◌, ◌++◌, ◌==◌, ◌||◌, Key,
  text_key, number_key, arith, if◌then◌else◌, distinct, eq_iff,
}
use devops_backend.Shared.Dict.{lookup}

-- what the audit log says of a key; the library's None for a missing key is none
pub record Difference (V : Type 0) : Type 0 where
  pub key : String
  pub new_value : Option V
  pub old_value : Option V

module _ {V : Type 0} ⦃e : Key V⦄ where
  abbrev pub same_value : Option V → Option V → Bool
  same_value none none = true
  same_value none (some w) = false
  same_value (some v) none = false
  same_value (some v) (some w) = v == w

  -- the loop over the keys of the new dict
  unfoldable pub compare_from :
      List (String × V) → List (String × V) → List (String × V) → List (Difference V)
  compare_from whole old [] = []
  compare_from whole old ((k, v) ∷ rest) =
      let later = compare_from whole old rest in
      let new_value = lookup k whole in
      let old_value = lookup k old in
      if k == "update_time"
      then later
      else if same_value new_value old_value
      then later
      else record { key = k; new_value = new_value; old_value = old_value } ∷ later

  unfoldable pub compare_dict : List (String × V) → List (String × V) → List (Difference V)
  compare_dict whole old = compare_from whole old whole

  -- the difference of a key, if one is listed
  pub difference_at : String → List (Difference V) → Option (Difference V)
  difference_at k [] = none
  difference_at k (d ∷ ds) = let rest = difference_at k ds in if d.key == k then some d else rest

  pub has_key : String → List (String × V) → Bool
  has_key k [] = false
  has_key k ((j, v) ∷ d) = let rest = has_key k d in j == k || rest

  -- what is listed for a key: nothing, if it is not a key of the new dict, is the time of the update or
  -- has the same value; else both values
  pub expected : List (String × V) → List (String × V) → String → Option (Difference V)
  expected whole old k =
      if k == "update_time"
      then none
      else if same_value (lookup k whole) (lookup k old)
      then none
      else some (record { key = k; new_value = lookup k whole; old_value = lookup k old })

  difference_at-compare_from :
      (whole old rest : List (String × V)) (k : String)
      → difference_at k (compare_from whole old rest)
        ≡ (if has_key k rest then expected whole old k else none)
  unfolding compare_from difference_at has_key expected
  difference_at-compare_from whole old [] k = refl
  difference_at-compare_from whole old ((j, v) ∷ rest) k =
      let ih = difference_at-compare_from whole old rest k in
      ground (arith, ih, eq_iff j k, eq_iff j "update_time", eq_iff k "update_time")

-- `team_members`: the members of each team; get_members lists each once
unfoldable pub get_members : List (String × List ℕ) → List ℕ
get_members teams = distinct (joined teams)
  where
    joined : List (String × List ℕ) → List ℕ
    joined [] = []
    joined ((team, members) ∷ rest) = members ++ joined rest
