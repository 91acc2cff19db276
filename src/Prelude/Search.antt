-- ===== src/Prelude/Search.antt =====
-- Laws of the searches in a list: `index`, `in`, `any`, and the comprehensions.
use Prim.Native.Nat.{ℕ, zero, suc, ◌+◌}
use mathlib.Core.Path.{◌≡◌, refl, ap, sym, subst}
use mathlib.Core.Bool.{Bool, true, false}
use mathlib.Core.List.{List, [], ◌∷◌, ◌++◌, map}
use mathlib.Core.Logic.{inl, inr}
use mathlib.Core.Option.{some}
use native.Mathlib.Omega.{arith}
use devops_backend.Prelude.Tests.{Key, ◌==◌, Bool-cases}
use devops_backend.Prelude.Lists.{any, length, get_elem?, contains, index_of, set, first_where, All}

module _ {ℓ} {A : Type ℓ} ⦃e : Key A⦄ where
  pub beq_refl : (a : A) → (a == a) ≡ true
  beq_refl a = (e.same_iff a a).1 refl

  pub index_of-append :
      (pre : List A) (a : A) (post : List A)
      → contains pre a ≡ false
      → index_of (pre ++ a ∷ post) a ≡ some (length pre)
  index_of-append [] a post h = rw beq_refl
  index_of-append (x ∷ pre) a post h = ground (arith, index_of-append pre a post)

  -- an index that was found is in range, and holds the value
  pub get_elem?-index_of :
      (xs : List A) (a : A) (i : ℕ) → index_of xs a ≡ some i → get_elem? xs i ≡ some a
  get_elem?-index_of [] a i h = cc
  get_elem?-index_of (x ∷ xs) a zero h = elim (Bool-cases (x == a)) [
    | inl p ↦ ap some ((e.same_iff x a).0 p)
    | inr q ↦ ground (arith, q, index_of xs a)
  ]
  get_elem?-index_of (x ∷ xs) a (suc i) h = get_elem?-index_of xs a i (ground arith)

  pub index_of-total :
      (xs : List A) (a : A) → contains xs a ≡ true → (i : ℕ) × (index_of xs a ≡ some i)
  index_of-total [] a h = cc
  index_of-total (x ∷ xs) a h = elim (Bool-cases (x == a)) [
    | inl p ↦ (0, rw p)
    | inr q ↦ (let r = index_of-total xs a (ground (arith, q)) in (suc r.0, rw (q, r.1)))
  ]

module _ {ℓ} {A : Type ℓ} where
  pub get_elem?-append :
      (pre : List A) (post : List A) → get_elem? (pre ++ post) (length pre) ≡ get_elem? post 0
  get_elem?-append [] post = refl
  get_elem?-append (x ∷ pre) post = get_elem?-append pre post

  pub get_elem?-append_suc :
      (pre : List A) (a : A) (post : List A)
      → get_elem? (pre ++ a ∷ post) (length pre + 1) ≡ get_elem? post 0
  get_elem?-append_suc [] a post = refl
  get_elem?-append_suc (x ∷ pre) a post = ground (arith, get_elem?-append_suc pre a post)

module _ {ℓ} {A : Type ℓ} ⦃e : Key A⦄ where
  pub contains-get_elem? :
      (xs : List A) (i : ℕ) (a : A) → get_elem? xs i ≡ some a → contains xs a ≡ true
  contains-get_elem? [] i a h = cc
  contains-get_elem? (x ∷ xs) zero a h = ground (arith, beq_refl a)
  contains-get_elem? (x ∷ xs) (suc i) a h = ground (arith, contains-get_elem? xs i a h)

module _ {ℓ κ} {A : Type ℓ} {B : Type κ} where
  -- a write that keeps what `f` shows of the element keeps what it shows of the list
  pub map-set :
      (f : A → B) (xs : List A) (i : ℕ) (a v : A)
      → get_elem? xs i ≡ some a
      → f v ≡ f a
      → map f (set xs i v) ≡ map f xs
  map-set f [] i a v h q = refl
  map-set f (x ∷ xs) zero a v h q = ground arith
  map-set f (x ∷ xs) (suc i) a v h q = ap (λ t. f x ∷ t) (map-set f xs i a v h q)

module _ {ℓ} {A : Type ℓ} where
  pub first_where-holds :
      (p : A → Bool) (xs : List A) (a : A) → first_where p xs ≡ some a → p a ≡ true
  first_where-holds p [] a h = cc
  first_where-holds p (x ∷ xs) a h = ground (arith, first_where-holds p xs a)

  pub first_where-All {κ} :
      (P : A → Type κ) (p : A → Bool) (xs : List A) (a : A)
      → All P xs
      → first_where p xs ≡ some a
      → P a
  first_where-All P p [] a all h = cc
  first_where-All P p (x ∷ xs) a all h = elim (Bool-cases (p x)) [
    | inl q ↦ (let e : x ≡ a = ground arith in subst P e all.0)
    | inr q ↦ first_where-All P p xs a all.1 (ground arith)
  ]

module _ {ℓ κ} {A : Type ℓ} {B : Type κ} where
  -- an element of a mapped list comes from one of the list, at the same index
  pub get_elem?-map_inv :
      (f : A → B) (xs : List A) (i : ℕ) (b : B)
      → get_elem? (map f xs) i ≡ some b
      → (a : A) × (get_elem? xs i ≡ some a) × (f a ≡ b)
  get_elem?-map_inv f [] i b h = cc
  get_elem?-map_inv f (x ∷ xs) zero b h = (x, refl, ground arith)
  get_elem?-map_inv f (x ∷ xs) (suc i) b h = get_elem?-map_inv f xs i b h

module _ {ℓ κ} {A : Type ℓ} {B : Type κ} where
  pub get_elem?-map :
      (f : A → B) (xs : List A) (i : ℕ) (a : A)
      → get_elem? xs i ≡ some a
      → get_elem? (map f xs) i ≡ some (f a)
  get_elem?-map f [] i a h = cc
  get_elem?-map f (x ∷ xs) zero a h = ground (arith, h)
  get_elem?-map f (x ∷ xs) (suc i) a h = get_elem?-map f xs i a h

module _ {ℓ κ} {A : Type ℓ} where
  pub All-get_elem? :
      (P : A → Type κ) (xs : List A) (i : ℕ) (a : A) → All P xs → get_elem? xs i ≡ some a → P a
  All-get_elem? P [] i a all h = cc
  All-get_elem? P (x ∷ xs) zero a all h = let e : x ≡ a = ground arith in subst P e all.0
  All-get_elem? P (x ∷ xs) (suc i) a all h = All-get_elem? P xs i a all.1 h

module _ {ℓ} {A : Type ℓ} ⦃e : Key A⦄ where
  -- no value stands twice
  abbrev pub IsDistinct : List A → Type 0
  IsDistinct [] = Unit
  IsDistinct (x ∷ xs) = (contains xs x ≡ false) × IsDistinct xs

  contains-middle : (pre : List A) (a : A) (post : List A) → contains (pre ++ a ∷ post) a ≡ true
  contains-middle [] a post = ground (arith, beq_refl a)
  contains-middle (x ∷ pre) a post = ground (arith, contains-middle pre a post)

  pub IsDistinct-fresh :
      (pre : List A) (a : A) (post : List A) → IsDistinct (pre ++ a ∷ post) → contains pre a ≡ false
  IsDistinct-fresh [] a post d = refl
  IsDistinct-fresh (x ∷ pre) a post d =
      ground
        (arith, IsDistinct-fresh pre a post d.1, e.same_iff x a, contains-middle pre a post, d.0)

-- an element at which a test holds
abbrev pub Some {ℓ} : {A : Type ℓ} → (A → Bool) → List A → Type ℓ
Some {A = A} p xs = (i : ℕ) × (a : A) × (get_elem? xs i ≡ some a) × (p a ≡ true)

pub any-Some {ℓ} : {A : Type ℓ} (p : A → Bool) (xs : List A) → any p xs ≡ true → Some p xs
any-Some p [] q = absurd (ground (arith, q))
any-Some p (x ∷ xs) q = elim (Bool-cases (p x)) [
  | inl holds ↦ (0, x, refl, holds)
  | inr fails ↦
      let later = any-Some p xs (ground (arith, q, fails)) in
      (suc later.0, later.1, later.2, later.3)
]

pub Some-any {ℓ} :
    {A : Type ℓ} (p : A → Bool) (xs : List A) (i : ℕ) (a : A)
    → get_elem? xs i ≡ some a
    → p a ≡ true
    → any p xs ≡ true
Some-any p [] i a at holds = ground (arith, at)
Some-any p (x ∷ xs) zero a at holds = ground (arith, at, holds)
Some-any p (x ∷ xs) (suc i) a at holds = let ih = Some-any p xs i a at holds in ground (arith, ih)

pub contains-any {ℓ} :
    {A : Type ℓ} ⦃e : Key A⦄ (p : A → Bool) (xs : List A) (a : A)
    → p a ≡ true
    → contains xs a ≡ true
    → any p xs ≡ true
contains-any p [] a holds q = absurd (ground (arith, q))
contains-any ⦃e⦄ p (x ∷ xs) a holds q = elim (Bool-cases (x == a)) [
  | inl same ↦
      let at : p x ≡ true = subst (λ y. p y ≡ true) (sym ((e.same_iff x a).0 same)) holds in
      ground (arith, at)
  | inr other ↦ let ih = contains-any p xs a holds (ground (arith, q, other)) in ground (arith, ih)
]
