-- ===== src/Shared/Config.antt =====
-- The configuration that is read through the cache: set_redis_data, get_redis_data and get_datadict of
-- common/ext_fun.py. The values are those that json.loads gives.
use devops_backend.Prelude.{
  ℕ, String, ◌≡◌, Bool, false, Option, none, some, List, [], ◌∷◌, ◌==◌, text_key, number_key, arith,
  if◌then◌else◌, first_where, select, Option-cases, inl, inr, beq_refl,
}
use devops_backend.Outcome.{Result, ok, err, value_error}
use devops_backend.Shared.Dict.{lookup, put, lookup-put}

-- a row of SystemConfig; no value where the text of its config is no JSON
pub record SystemConfig (V : Type 0) : Type 0 where
  pub type : String
  pub name : String
  pub config : Option V

pub record DataDict (V : Type 0) : Type 0 where
  pub id : ℕ
  pub key : String
  pub value : String
  pub desc : String
  pub extra : Option V

-- `objects.get(...)`: exactly one row, or an exception
unfoldable pub get_one {ℓ} : {A : Type ℓ} → (A → Bool) → List A → Option A
get_one {A = A} p rows = single (select p rows)
  where
    single : List A → Option A
    single [] = none
    single (a ∷ []) = some a
    single (a ∷ b ∷ rest) = none

module _ {V : Type 0} (is_empty : V → Bool) where
  -- the entries `system:{name}` of the cache
  abbrev pub Cache : Type 0
  Cache = List (String × V)

  unfoldable pub set_redis_data : String → V → Cache → Cache
  set_redis_data name config cache = put name config cache

  unfoldable pub find_config : String → List (SystemConfig V) → Option (SystemConfig V)
  find_config name configs =
      if name == "cicd-harbor"
      then first_where (λ c. c.type == name) configs
      else get_one (λ c. c.name == name) configs

  unfoldable pub load_system_config :
      String → List (SystemConfig V) → Cache → Cache × Result (Option V)
  load_system_config name configs cache = elim (find_config name configs) [
    | none ↦ (cache, ok none)
    | some c ↦ elim c.config [
      | none ↦ (cache, err value_error)
      | some v ↦ (set_redis_data name v cache, ok (some v))
    ]
  ]

  -- an empty value counts as missing
  unfoldable pub get_redis_data : String → List (SystemConfig V) → Cache → Cache × Result (Option V)
  get_redis_data name configs cache = elim (lookup name cache) [
    | none ↦ load_system_config name configs cache
    | some v ↦ if is_empty v then load_system_config name configs cache else (cache, ok (some v))
  ]

  load_system_config-lookup :
      (name : String) (configs : List (SystemConfig V)) (cache : Cache) (v : V)
      → (load_system_config name configs cache).1 ≡ ok (some v)
      → lookup name (load_system_config name configs cache).0 ≡ some v
  unfolding load_system_config set_redis_data
  load_system_config-lookup name configs cache v q =
      elim (Option-cases (find_config name configs)) [
        | inl lost ↦ absurd (ground (arith, q, lost))
        | inr c ↦ elim (Option-cases c.0.config) [
          | inl bad ↦ absurd (ground (arith, q, c.1, bad))
          | inr w ↦ ground (arith, q, c.1, w.1, lookup-put name name w.0 cache, beq_refl name)
        ]
      ]

  get_redis_data-lookup :
      (name : String) (configs : List (SystemConfig V)) (cache : Cache) (v : V)
      → (get_redis_data name configs cache).1 ≡ ok (some v)
      → lookup name (get_redis_data name configs cache).0 ≡ some v
  unfolding get_redis_data
  get_redis_data-lookup name configs cache v q =
      let loaded = load_system_config-lookup name configs cache v in
      elim (Option-cases (lookup name cache)) [
        | inl missing ↦ ground (arith, missing, q, loaded)
        | inr w ↦ ground (arith, w.1, q, loaded)
      ]

  get_redis_data-held :
      (name : String) (configs : List (SystemConfig V)) (cache : Cache) (v : V)
      → lookup name cache ≡ some v
      → is_empty v ≡ false
      → get_redis_data name configs cache ≡ (cache, ok (some v))
  unfolding get_redis_data
  get_redis_data-held name configs cache v held full = ground (arith, held, full)

  -- A value that was read and is not empty is read again from the cache, whatever has become of the
  -- table since.
  pub get_redis_data-cached :
      (name : String) (configs later : List (SystemConfig V)) (cache : Cache) (v : V)
      → (get_redis_data name configs cache).1 ≡ ok (some v)
      → is_empty v ≡ false
      → get_redis_data name later (get_redis_data name configs cache).0
        ≡ ((get_redis_data name configs cache).0, ok (some v))
  get_redis_data-cached name configs later cache v q full =
      let after = (get_redis_data name configs cache).0 in
      get_redis_data-held name later after v (get_redis_data-lookup name configs cache v q) full

-- `get_datadict(name, config=0)`, and with config=1 the value of `extra`
unfoldable pub get_datadict : {V : Type 0} → String → List (DataDict V) → Option (DataDict V)
get_datadict name rows = get_one (λ r. r.key == name) rows
