-- ===== src/Guards/Expiry.antt =====
-- The orders that run out of time when they are listed: PublishOrderViewSet.extend_filter of
-- apps/deploy/views.py.
use devops_backend.Prelude.{
  ◌+◌, ◌≤◌, ◌↔◌, ℕ, zero, suc, ◌≡◌, ◌⊎◌, inl, inr, subst, Bool, true, false, Option, none, some,
  List, [], ◌∷◌, ◌&&◌, ◌||◌, not, ◌==◌, number_key, text_key, arith, if◌then◌else◌, get_elem?,
  Bool-cases, Option-cases, select, contains,
}
use devops_backend.Outcome.{Result, ok, err, ◌>>=◌, or_raise, Result-cases, type_error}
use devops_backend.Guards.Release.{Order, time_comp}

-- an order with the users who may deploy it
pub record OrderRow : Type 0 where
  pub order : Order
  pub team_members : List ℕ
  pub extra_deploy_members : List ℕ

-- `item.status in [0, 3]`
unfoldable pub is_open : Order → Bool
is_open o = o.status == 0 || o.status == 3

-- one order of the loop; the time of an order that is not open is not looked at
unfoldable pub expire : ℕ → Option ℕ → Order → Result Order
expire ctime window o =
    if is_open o
    then (or_raise type_error o.expect_time >>= λ t.
        ok (if time_comp ctime t window then o else record o { status = 4 }))
    else ok o

-- the loop; what an exception leaves of it is not shown
unfoldable pub expire_all : ℕ → Option ℕ → List Order → Result (List Order)
expire_all ctime window [] = ok []
expire_all ctime window (o ∷ os) = do
  first ← expire ctime window o
  rest ← expire_all ctime window os
  ok (first ∷ rest)

-- the orders of the queryset: those still to do for the action `upcoming`, and those of the user's
-- teams unless an administrator asks
unfoldable pub visible : Bool → Bool → ℕ → List OrderRow → List OrderRow
visible upcoming is_admin user rows =
    select (λ r. is_shown r.order && (is_admin || is_member r)) rows
  where
    is_shown : Order → Bool
    is_shown o = not upcoming || contains (0 ∷ 2 ∷ 3 ∷ 11 ∷ 12 ∷ 13 ∷ []) o.status

    is_member : OrderRow → Bool
    is_member r = contains r.team_members user || contains r.extra_deploy_members user

-- an order that waits: to be deployed, or under way
abbrev pub Waits : Order → Type 0
Waits o = (o.status ≡ 0) ⊎ (o.status ≡ 3)

is_open-Waits : (o : Order) → is_open o ≡ true → Waits o
unfolding is_open
is_open-Waits o q = elim (Bool-cases (o.status == 0)) [
  | inl undone ↦ inl (ground (arith, undone))
  | inr started ↦ inr (ground (arith, q, started))
]

closed_lem : (o : Order) → is_open o ≡ false → ¬ (Waits o)
unfolding is_open
closed_lem o q (inl undone) = ground (arith, q, undone)
closed_lem o q (inr started) = ground (arith, q, started)

-- a time within the window of another, on either side; the very time where no window is given
abbrev pub IsNear : ℕ → ℕ → Option ℕ → Type 0
IsNear ctime target none = ctime ≡ target
IsNear ctime target (some window) = (target ≤ ctime + window) × (ctime ≤ target + window)

time_comp-IsNear :
    (ctime target : ℕ) (window : Option ℕ)
    → (time_comp ctime target window ≡ true) ↔ IsNear ctime target window
unfolding time_comp
time_comp-IsNear ctime target none = (λ q. ground (arith, q), λ same. ground (arith, same))
time_comp-IsNear ctime target (some window) =
    (λ q. (ground (arith, q), ground (arith, q)), λ near. ground (arith, near.0, near.1))

-- what becomes of one order: closed ones stay, and so do those that wait and are near their time; the
-- others become void
abbrev pub Expires : ℕ → Option ℕ → Order → Order → Type 0
Expires ctime window o o' =
    ((¬ (Waits o)) × (o' ≡ o))
    ⊎ (Waits o
        × ((t : ℕ) × (o.expect_time ≡ some t)
            × ((IsNear ctime t window × (o' ≡ o))
                ⊎ ((¬ (IsNear ctime t window)) × (o' ≡ record o { status = 4 })))))

expire-Expires :
    (ctime : ℕ) (window : Option ℕ) (o o' : Order)
    → expire ctime window o ≡ ok o'
    → Expires ctime window o o'
unfolding expire
expire-Expires ctime window o o' q = elim (Bool-cases (is_open o)) [
  | inr closed ↦ inl (closed_lem o closed, ground (arith, q, closed))
  | inl waits ↦ elim (Option-cases o.expect_time) [
    | inl untimed ↦ absurd (ground (arith, q, waits, untimed))
    | inr t ↦
        let near = time_comp-IsNear ctime t.0 window in
        elim (Bool-cases (time_comp ctime t.0 window)) [
          | inl timely ↦ inr (
            is_open-Waits o waits,
            (t.0, t.1, inl (near.0 timely, ground (arith, q, waits, t.1, timely))),
          )
          | inr late ↦ inr (
            is_open-Waits o waits,
            (
              t.0,
              t.1,
              inr (λ n. ground (arith, near.1 n, late), ground (arith, q, waits, t.1, late)),
            ),
          )
        ]
  ]
]

-- each order with the one it has become
abbrev pub Paired {ℓ} : {A : Type ℓ} → (A → A → Type 0) → List A → List A → Type 0
Paired R [] [] = Unit
Paired R [] (y ∷ ys) = ⊥
Paired R (x ∷ xs) [] = ⊥
Paired R (x ∷ xs) (y ∷ ys) = R x y × Paired R xs ys

-- Reading the list of orders loses none and keeps their order. One that does not wait stays as it is; one
-- that waits has an expected time, and stays as it is if the present time is within the window of it, on
-- either side, or the very time where there is no window; otherwise it becomes void.
pub expire_all-Paired :
    (ctime : ℕ) (window : Option ℕ) (os os' : List Order)
    → expire_all ctime window os ≡ ok os'
    → Paired (Expires ctime window) os os'
unfolding expire_all
expire_all-Paired ctime window [] [] q = tt
expire_all-Paired ctime window [] (y ∷ ys) q = absurd (ground (arith, q))
expire_all-Paired ctime window (o ∷ os) os' q = elim (Result-cases (expire ctime window o)) [
  | inr error ↦ absurd (ground (arith, q, error.1))
  | inl first ↦ elim (Result-cases (expire_all ctime window os)) [
    | inr error ↦ absurd (ground (arith, q, first.1, error.1))
    | inl rest ↦
        let whole : first.0 ∷ rest.0 ≡ os' = ground (arith, q, first.1, rest.1) in
        subst (Paired (Expires ctime window) (o ∷ os)) whole (
          expire-Expires ctime window o first.0 first.1,
          expire_all-Paired ctime window os rest.0 rest.1,
        )
  ]
]

-- An open order without an expected time makes the whole list fail, wherever it stands.
pub expire_all-untimed :
    (ctime : ℕ) (window : Option ℕ) (os : List Order) (i : ℕ) (o : Order)
    → get_elem? os i ≡ some o
    → is_open o ≡ true
    → o.expect_time ≡ none
    → expire_all ctime window os ≡ err type_error
unfolding expire_all expire
expire_all-untimed ctime window [] i o at waits untimed = ground (arith, at)
expire_all-untimed ctime window (x ∷ xs) zero o at waits untimed =
    ground (arith, at, waits, untimed)
expire_all-untimed ctime window (x ∷ xs) (suc i) o at waits untimed =
    let ih = expire_all-untimed ctime window xs i o at waits untimed in
    elim (Option-cases x.expect_time) [
      | inl lost ↦ ground (arith, ih, lost)
      | inr t ↦ ground (arith, ih, t.1)
    ]
