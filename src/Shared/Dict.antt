-- ===== src/Shared/Dict.antt =====
-- Python's dict as a list of pairs in the order of insertion.
use devops_backend.Prelude.{
  ◌≡◌, refl, false, Option, none, some, List, [], ◌∷◌, ◌++◌, map, ◌==◌, Key, text_key, arith,
  if◌then◌else◌, contains, Bool-cases, inl, inr, IsDistinct, ◌||◌,
}

module _ {ℓ} {K V : Type ℓ} ⦃e : Key K⦄ where
  -- `d.get(key)`
  unfoldable pub lookup : K → List (K × V) → Option V
  lookup key [] = none
  lookup key ((k, v) ∷ d) = let rest = lookup key d in if k == key then some v else rest

  -- `d[key] = value`: a key that is there keeps its place
  unfoldable pub put : K → V → List (K × V) → List (K × V)
  put key value [] = (key, value) ∷ []
  put key value ((k, v) ∷ d) =
      let rest = put key value d in if k == key then (k, value) ∷ d else (k, v) ∷ rest

  -- `{k: v for ...}`: a later pair replaces an earlier one
  unfoldable pub put_all : List (K × V) → List (K × V) → List (K × V)
  put_all [] d = d
  put_all ((k, v) ∷ pairs) d = put_all pairs (put k v d)

  abbrev pub keys : List (K × V) → List K
  keys d = map (λ p. p.0) d

  pub lookup-put :
      (key k : K) (v : V) (d : List (K × V))
      → lookup k (put key v d) ≡ (if key == k then some v else lookup k d)
  unfolding lookup put
  lookup-put key k v [] = refl
  lookup-put key k v ((j, w) ∷ d) =
      ground (arith, lookup-put key k v d, e.same_iff j key, e.same_iff key k, e.same_iff j k)

  -- the last pair with a key decides
  unfoldable pub lookup_last : K → List (K × V) → Option V → Option V
  lookup_last k [] before = before
  lookup_last k ((j, v) ∷ pairs) before = lookup_last k pairs (if j == k then some v else before)

  pub lookup-put_all :
      (k : K) (pairs d : List (K × V))
      → lookup k (put_all pairs d) ≡ lookup_last k pairs (lookup k d)
  unfolding put_all lookup_last
  lookup-put_all k [] d = refl
  lookup-put_all k ((j, v) ∷ pairs) d =
      let ih = lookup-put_all k pairs (put j v d) in rw (← lookup-put j k v d) ih

  pub lookup_last-append :
      (k : K) (xs ys : List (K × V)) (before : Option V)
      → lookup_last k (xs ++ ys) before ≡ lookup_last k ys (lookup_last k xs before)
  unfolding lookup_last
  lookup_last-append k [] ys before = refl
  lookup_last-append k ((j, v) ∷ xs) ys before =
      lookup_last-append k xs ys (if j == k then some v else before)

  contains-put :
      (key k : K) (v : V) (d : List (K × V))
      → contains (keys (put key v d)) k ≡ (key == k || contains (keys d) k)
  unfolding put
  contains-put key k v [] = refl
  contains-put key k v ((j, w) ∷ d) =
      ground (arith, contains-put key k v d, e.same_iff j key, e.same_iff key k, e.same_iff j k)

  put-IsDistinct :
      (key : K) (v : V) (d : List (K × V)) → IsDistinct (keys d) → IsDistinct (keys (put key v d))
  unfolding put
  put-IsDistinct key v [] d = ground arith
  put-IsDistinct key v ((j, w) ∷ rest) d = elim (Bool-cases (j == key)) [
    | inl q ↦ rw q (d.0, d.1)
    | inr q ↦
        let fresh : contains (keys (put key v rest)) j ≡ false =
          ground (arith, contains-put key j v rest, d.0, q, e.same_iff key j, e.same_iff j key) in
        rw q (fresh, put-IsDistinct key v rest d.1)
  ]

  pub put_all-IsDistinct :
      (pairs d : List (K × V)) → IsDistinct (keys d) → IsDistinct (keys (put_all pairs d))
  unfolding put_all
  put_all-IsDistinct [] d distinct = distinct
  put_all-IsDistinct ((k, v) ∷ pairs) d distinct =
      put_all-IsDistinct pairs (put k v d) (put-IsDistinct k v d distinct)
