-- ===== src/Shared/Mask.antt =====
-- mask_sensitive_data of common/ext_fun.py. The list SENSITIVE_KEYS is a global of the program, which
-- each call extends by the excluded keys of the settings: it is passed along as a state.
use devops_backend.Prelude.{
  ℕ, suc, ◌+◌, ◌*◌, String, ◌≡◌, ◌⊎◌, inl, inr, refl, true, false, Option, none, some, List, [],
  ◌∷◌, ◌++◌, ◌||◌, text_key, arith, if◌then◌else◌, contains, length, Bool-cases,
}
use devops_backend.Outcome.{Result, ok, err, attribute_error}
use devops_backend.Shared.Json.{Json, Fields, null, bool, num, text, arr, obj, end, field}

abbrev pub filtered_mark : Json
filtered_mark = text "***FILTERED***"

-- the loop over a dict from a list of keys: the new dict, and the list that the calls below leave. The
-- mark is no JSON text, so that the call for a dict under a sensitive key returns the mark.
unfoldable mutual
  pub mask_fields : List String → List String → Fields → Fields × List String
  mask_fields excluded keys end = (end, keys)
  mask_fields excluded keys (field k v rest) =
      let here = mask_value excluded keys k v in
      let later = mask_fields excluded here.1 rest in (field k here.0 later.0, later.1)

  pub mask_value : List String → List String → String → Json → Json × List String
  mask_value excluded keys k (obj fields) =
      let inner = mask_fields excluded (keys ++ excluded) fields in
      if contains keys k then (filtered_mark, keys ++ excluded) else (obj inner.0, inner.1)
  mask_value excluded keys k v = (if contains keys k then filtered_mark else v, keys)

unfoldable pub mask_dict : List String → List String → Fields → Json × List String
mask_dict excluded keys fields =
    let done = mask_fields excluded (keys ++ excluded) fields in (obj done.0, done.1)

-- `loads` is json.loads, with none for its exception
unfoldable pub mask_sensitive_data :
    (String → Option Json) → List String → List String → Json → Result (Json × List String)
mask_sensitive_data loads excluded keys (obj fields) = ok (mask_dict excluded keys fields)
mask_sensitive_data loads excluded keys (text t) = elim (loads t) [
  | none ↦ ok (text t, keys ++ excluded)
  | some (obj fields) ↦ ok (mask_dict excluded keys fields)
  | some other ↦ err attribute_error
]
mask_sensitive_data loads excluded keys v = ok (v, keys ++ excluded)

-- what the masking is meant to give: the value of a sensitive key is the mark, dicts are entered
unfoldable mutual
  pub filtered : List String → Fields → Fields
  filtered keys end = end
  filtered keys (field k v rest) =
      field k (if contains keys k then filtered_mark else filtered_value keys v)
        (filtered keys rest)

  pub filtered_value : List String → Json → Json
  filtered_value keys (obj fields) = obj (filtered keys fields)
  filtered_value keys v = v

-- the same keys, in any order and as often as they like
abbrev pub SameKeys : List String → List String → Type 0
SameKeys ks js = (a : String) → contains ks a ≡ contains js a

contains-append :
    (xs ys : List String) (a : String) → contains (xs ++ ys) a ≡ (contains xs a || contains ys a)
contains-append [] ys a = refl
contains-append (x ∷ xs) ys a = ground (arith, contains-append xs ys a)

SameKeys-append :
    (base excluded keys : List String)
    → SameKeys keys (base ++ excluded)
    → SameKeys (keys ++ excluded) (base ++ excluded)
SameKeys-append base excluded keys same a =
    ground (arith, same a, contains-append keys excluded a, contains-append base excluded a)

abbrev Refines : List String → List String → Fields → Fields × List String → Type 0
Refines base excluded fields done =
    (done.0 ≡ filtered (base ++ excluded) fields) × SameKeys done.1 (base ++ excluded)

mutual
  unfolding mask_fields mask_value filtered filtered_value

  mask_fields-Refines :
      (base excluded keys : List String) (fields : Fields)
      → SameKeys keys (base ++ excluded)
      → Refines base excluded fields (mask_fields excluded keys fields)
  mask_fields-Refines base excluded keys end same = (refl, same)
  mask_fields-Refines base excluded keys (field k v rest) same =
      let here = mask_value-Refines base excluded keys k v same in
      let later = mask_fields-Refines base excluded (mask_value excluded keys k v).1 rest here.1 in
      (ground (arith, here.0, later.0), later.1)

  mask_value-Refines :
      (base excluded keys : List String) (k : String) (v : Json)
      → SameKeys keys (base ++ excluded)
      → ((mask_value excluded keys k v).0 ≡ (
          if contains (base ++ excluded) k
          then filtered_mark
          else filtered_value (base ++ excluded) v))
        × SameKeys (mask_value excluded keys k v).1 (base ++ excluded)
  mask_value-Refines base excluded keys k (obj fields) same =
      let grown = SameKeys-append base excluded keys same in
      let inner = mask_fields-Refines base excluded (keys ++ excluded) fields grown in
      elim (Bool-cases (contains keys k)) [
        | inl sensitive ↦ (ground (arith, sensitive, same k), rw sensitive grown)
        | inr plain ↦ (ground (arith, plain, same k, inner.0), rw plain (inner.1))
      ]
  mask_value-Refines base excluded keys k null same = (ground (arith, same k), same)
  mask_value-Refines base excluded keys k (bool b) same = (ground (arith, same k), same)
  mask_value-Refines base excluded keys k (num n) same = (ground (arith, same k), same)
  mask_value-Refines base excluded keys k (text t) same = (ground (arith, same k), same)
  mask_value-Refines base excluded keys k (arr xs) same = (ground (arith, same k), same)

-- how often the call is made below a dict: for each dict that is entered or stands under a sensitive key
mutual
  pub calls : List String → Fields → ℕ
  calls keys end = 0
  calls keys (field k v rest) = calls_value keys k v + calls keys rest

  pub calls_value : List String → String → Json → ℕ
  calls_value keys k (obj fields) = if contains keys k then 1 else suc (calls keys fields)
  calls_value keys k v = 0

length-append : (xs ys : List String) → length (xs ++ ys) ≡ length xs + length ys
length-append [] ys = omega arith
length-append (x ∷ xs) ys = omega (arith, length-append xs ys)

mutual
  unfolding mask_fields mask_value calls calls_value

  mask_fields-length :
      (base excluded keys : List String) (fields : Fields)
      → SameKeys keys (base ++ excluded)
      → length (mask_fields excluded keys fields).1
        ≡ length keys + calls (base ++ excluded) fields * length excluded
  mask_fields-length base excluded keys end same = omega arith
  mask_fields-length base excluded keys (field k v rest) same =
      let here = mask_value-length base excluded keys k v same in
      let grown = (mask_value-Refines base excluded keys k v same).1 in
      let later = mask_fields-length base excluded (mask_value excluded keys k v).1 rest grown in
      grind (arith, here, later)

  mask_value-length :
      (base excluded keys : List String) (k : String) (v : Json)
      → SameKeys keys (base ++ excluded)
      → length (mask_value excluded keys k v).1
        ≡ length keys + calls_value (base ++ excluded) k v * length excluded
  mask_value-length base excluded keys k (obj fields) same =
      let grown = SameKeys-append base excluded keys same in
      let inner = mask_fields-length base excluded (keys ++ excluded) fields grown in
      let one = length-append keys excluded in
      elim (Bool-cases (contains keys k)) [
        | inl sensitive ↦
            let s : contains (base ++ excluded) k ≡ true = ground (arith, sensitive, same k) in
            rw (sensitive, s) (omega (arith, one))
        | inr plain ↦
            let s : contains (base ++ excluded) k ≡ false = ground (arith, plain, same k) in
            rw (plain, s) (grind (arith, one, inner))
      ]
  mask_value-length base excluded keys k null same = omega arith
  mask_value-length base excluded keys k (bool b) same = omega arith
  mask_value-length base excluded keys k (num n) same = omega arith
  mask_value-length base excluded keys k (text t) same = omega arith
  mask_value-length base excluded keys k (arr xs) same = omega arith

-- the data that is masked: a dict, or a text that parses to one
abbrev pub IsDict : (String → Option Json) → Json → Fields → Type 0
IsDict loads input fields =
    (input ≡ obj fields) ⊎ ((t : String) × (input ≡ text t) × (loads t ≡ some (obj fields)))

abbrev pub all_calls : List String → Fields → ℕ
all_calls keys fields = suc (calls keys fields)

-- A dict, or a text that parses to one, is returned with the mark as the value of every sensitive key,
-- however deep it lies in dicts, and with all other values and the order of the keys as they were. The
-- list of the sensitive keys holds the same keys afterwards, the excluded ones included, but it has
-- grown by the number of the excluded keys for each call, the nested ones included.
pub mask_sensitive_data-filtered :
    (loads : String → Option Json) (excluded keys : List String) (input : Json) (fields : Fields)
    → IsDict loads input fields
    → (keys' : List String) × (mask_sensitive_data loads excluded keys input
        ≡ ok (obj (filtered (keys ++ excluded) fields), keys'))
      × SameKeys keys' (keys ++ excluded)
      × (length keys' ≡ length keys + all_calls (keys ++ excluded) fields * length excluded)
unfolding mask_sensitive_data mask_dict
mask_sensitive_data-filtered loads excluded keys input fields is_dict =
    let done = mask_fields-Refines keys excluded (keys ++ excluded) fields (λ a. refl) in
    let grown = mask_fields-length keys excluded (keys ++ excluded) fields (λ a. refl) in
    let one = length-append keys excluded in
    (
      (mask_fields excluded (keys ++ excluded) fields).1,
      elim is_dict [
        | inl whole ↦ ground (arith, whole, done.0)
        | inr parsed ↦ ground (arith, parsed.1, parsed.2, done.0)
      ],
      done.1,
      grind (arith, grown, one),
    )
