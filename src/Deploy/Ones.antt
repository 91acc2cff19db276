-- ===== src/Deploy/Ones.antt =====
-- The test that every status is 1, which the program writes with the size of a set.
use devops_backend.Prelude.{
  ℕ, ◌≡◌, ◌↔◌, ◌≢◌, refl, true, List, [], ◌∷◌, number_key, arith, length, sym, subst, inl, inr,
  distinct, contains, All, Bool-cases,
}
use devops_backend.Deploy.Model.{all_ones}

contains-distinct : (xs : List ℕ) (a : ℕ) → contains (distinct xs) a ≡ true → contains xs a ≡ true
contains-distinct [] a q = q
contains-distinct (x ∷ xs) a q = let ih = contains-distinct xs a in ground arith

contains-All : (xs : List ℕ) (h a : ℕ) → All (λ x. x ≡ h) xs → contains xs a ≡ true → a ≡ h
contains-All (x ∷ xs) h a all_h q = let ih = contains-All xs h a all_h.1 in ground (arith, all_h.0)
contains-All [] h a all_h q = ground arith

length-distinct : (x : ℕ) (xs : List ℕ) → length (distinct (x ∷ xs)) ≢ 0
length-distinct x [] = ground arith
length-distinct x (y ∷ ys) = let ih = length-distinct y ys in ground arith

distinct-All : (x : ℕ) (xs : List ℕ) → length (distinct (x ∷ xs)) ≡ 1 → All (λ y. y ≡ x) (x ∷ xs)
distinct-All x [] one = (refl, tt)
distinct-All x (y ∷ ys) one = elim (Bool-cases (contains (distinct (y ∷ ys)) x)) [
  | inl q ↦
      let same = distinct-All y ys (ground (arith, q)) in
      let at = contains-All (y ∷ ys) y x same (contains-distinct (y ∷ ys) x q) in
      (refl, subst (λ z. All (λ w. w ≡ z) (y ∷ ys)) (sym at) same)
  | inr q ↦ absurd (ground (arith, q, length-distinct y ys))
]

All-distinct : (x : ℕ) (xs : List ℕ) → All (λ y. y ≡ 1) (x ∷ xs) → distinct (x ∷ xs) ≡ 1 ∷ []
All-distinct x [] ones = ground (arith, ones.0)
All-distinct x (y ∷ ys) ones = let ih = All-distinct y ys ones.1 in ground (arith, ones.0)

-- `all_ones` holds exactly of the lists that are not empty and have no element but 1.
pub all_ones-All : (x : ℕ) (xs : List ℕ) → (all_ones (x ∷ xs) ≡ true) ↔ All (λ y. y ≡ 1) (x ∷ xs)
unfolding all_ones
all_ones-All x xs = (
  λ q.
      let same = distinct-All x xs (ground (arith, q)) in
      let at : x ≡ 1 = ground (arith, q) in subst (λ z. All (λ w. w ≡ z) (x ∷ xs)) at same,
  λ ones. ground (arith, All-distinct x xs ones, ones.0),
)
