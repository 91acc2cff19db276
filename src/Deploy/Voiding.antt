-- ===== src/Deploy/Voiding.antt =====
-- An app of an order that is declared void: PublishAppViewSet.partial_update of apps/deploy/views.py.
use devops_backend.Prelude.{
  ℕ, String, ◌≡◌, ◌⊎◌, inl, inr, refl, Bool, false, Option, none, some, List, [], ◌∷◌, map, ◌&&◌,
  ◌||◌, not, ◌==◌, number_key, text_key, arith, if◌then◌else◌, first_where, select, contains, ◌≤◌,
  All, Some, any-Some, any, length, count_where, Bool-cases, true,
}
use devops_backend.Outcome.{Result, ok, ◌>>=◌, or_raise, does_not_exist}
use devops_backend.Deploy.Orders.{PublishApp, PublishOrder, World, find_order, save_order}
use devops_backend.Deploy.Verdict.{find_order-save_order}

-- the serializer's save of the new status
unfoldable pub set_status : ℕ → ℕ → World → World
set_status pk status w = record w {
  apps = map (λ a. if a.id == pk then record a { status = status } else a) w.apps;
}

-- `pub_order.apps.all()`, the order's apps by the numbers that it is linked to
unfoldable pub order_apps : List ℕ → World → List PublishApp
order_apps linked w = select (λ a. contains linked a.id) w.apps

-- an app that is not deployed, failed or under way
unfoldable pub is_unfinished : PublishApp → Bool
is_unfinished a = a.status == 0 || (a.status == 2 || a.status == 3)

-- the verdict on the order, where it changes: 4 if all its apps are void, 1 if no other app is
-- unfinished
unfoldable pub void_verdict : ℕ → List PublishApp → Option ℕ
void_verdict pk apps =
    if length apps == count_where (λ a. a.status == 4) apps
    then some 4
    else if any (λ a. is_unfinished a && not (a.id == pk)) apps
    then none
    else some 1

unfoldable pub mark_order : String → Option ℕ → World → World
mark_order order_id none w = w
mark_order order_id (some status) w = save_order order_id status w

-- partial_update with a status; a transaction, so that an exception leaves nothing
unfoldable pub partial_update : ℕ → ℕ → (String → List ℕ) → World → Result World
partial_update pk status linked w =
    let saved = set_status pk status w in if status == 4 then voided saved else ok saved
  where
    voided : World → Result World
    voided saved = do
      app ← or_raise does_not_exist (first_where (λ a. a.id == pk) saved.apps)
      order ← or_raise does_not_exist (find_order app.order_id saved)
      ok (mark_order app.order_id (void_verdict pk (order_apps (linked app.order_id) saved)) saved)

-- the verdict on an order, against its apps
abbrev pub Verdict : ℕ → List PublishApp → ℕ → ℕ → Type 0
Verdict pk apps before after =
    ((after ≡ 4) × All (λ a. a.status ≡ 4) apps)
    ⊎ (((after ≡ 1)
          × Some (λ a. not (a.status == 4)) apps
          × All (λ a. (a.id ≡ pk) ⊎ (is_unfinished a ≡ false)) apps)
        ⊎ ((after ≡ before) × Some (λ a. is_unfinished a && not (a.id == pk)) apps))

count_void-bound : (apps : List PublishApp) → count_where (λ a. a.status == 4) apps ≤ length apps
count_void-bound [] = ground arith
count_void-bound (a ∷ apps) = let ih = count_void-bound apps in ground arith

count_void-All :
    (apps : List PublishApp)
    → length apps ≡ count_where (λ a. a.status == 4) apps
    → All (λ a. a.status ≡ 4) apps
count_void-All [] q = tt
count_void-All (a ∷ apps) q =
    let bound = count_void-bound apps in
    (ground (arith, q, bound), count_void-All apps (ground (arith, q, bound)))

count_void-Some :
    (apps : List PublishApp)
    → (length apps == count_where (λ a. a.status == 4) apps) ≡ false
    → Some (λ a. not (a.status == 4)) apps
count_void-Some apps q = any-Some (λ a. not (a.status == 4)) apps (living apps q)
  where
    living :
        (apps : List PublishApp)
        → (length apps == count_where (λ a. a.status == 4) apps) ≡ false
        → any (λ a. not (a.status == 4)) apps ≡ true
    living [] q = ground (arith, q)
    living (a ∷ apps) q = elim (Bool-cases (a.status == 4)) [
      | inl void ↦ (let ih = living apps (ground (arith, q, void)) in ground (arith, ih, void))
      | inr alive ↦ ground (arith, alive)
    ]

finished-All :
    (pk : ℕ) (apps : List PublishApp)
    → any (λ a. is_unfinished a && not (a.id == pk)) apps ≡ false
    → All (λ a. (a.id ≡ pk) ⊎ (is_unfinished a ≡ false)) apps
finished-All pk [] q = tt
finished-All pk (a ∷ apps) q = (
  elim (Bool-cases (is_unfinished a)) [
    | inl unfinished ↦ inl (ground (arith, q, unfinished))
    | inr finished ↦ inr finished
  ],
  finished-All pk apps (ground (arith, q)),
)

void_verdict-cases :
    (pk : ℕ) (apps : List PublishApp)
    → ((void_verdict pk apps ≡ some 4) × All (λ a. a.status ≡ 4) apps)
      ⊎ (((void_verdict pk apps ≡ some 1)
            × Some (λ a. not (a.status == 4)) apps
            × All (λ a. (a.id ≡ pk) ⊎ (is_unfinished a ≡ false)) apps)
          ⊎ ((void_verdict pk apps ≡ none) × Some (λ a. is_unfinished a && not (a.id == pk)) apps))
unfolding void_verdict
void_verdict-cases pk apps =
    let test : PublishApp → Bool = λ a. is_unfinished a && not (a.id == pk) in
    elim (Bool-cases (length apps == count_where (λ a. a.status == 4) apps)) [
      | inl all_void ↦
          inl (ground (arith, all_void), count_void-All apps (ground (arith, all_void)))
      | inr not_all ↦ elim (Bool-cases (any test apps)) [
        | inl waits ↦ inr (inr (ground (arith, not_all, waits), any-Some test apps waits))
        | inr finished ↦ inr (
            inl (
              ground (arith, not_all, finished),
              count_void-Some apps not_all,
              finished-All pk apps finished,
            ))
      ]
    ]

-- Declaring an app void gives its order, where both exist, the status 4 if all apps of the order are
-- void, otherwise 1 if no other app waits, failed or is under way; with such an app the order keeps its
-- status.
pub partial_update-Verdict :
    (pk : ℕ) (linked : String → List ℕ) (w : World) (a : PublishApp) (o : PublishOrder)
    → first_where (λ b. b.id == pk) (set_status pk 4 w).apps ≡ some a
    → find_order a.order_id (set_status pk 4 w) ≡ some o
    → (w' : World) × (partial_update pk 4 linked w ≡ ok w')
      × ((after : ℕ) × (find_order a.order_id w' ≡ some (record o { status = after }))
          × Verdict pk (order_apps (linked a.order_id) (set_status pk 4 w)) o.status after)
unfolding partial_update mark_order
partial_update-Verdict pk linked w a o found ordered =
    let saved = set_status pk 4 w in
    let apps = order_apps (linked a.order_id) saved in
    elim (void_verdict-cases pk apps) [
      | inl void ↦ (
        save_order a.order_id 4 saved,
        ground (arith, found, ordered, void.0),
        (4, find_order-save_order a.order_id 4 o saved ordered, inl (refl, void.1)),
      )
      | inr (inl finished) ↦ (
        save_order a.order_id 1 saved,
        ground (arith, found, ordered, finished.0),
        (
          1,
          find_order-save_order a.order_id 1 o saved ordered,
          inr (inl (refl, finished.1, finished.2)),
        ),
      )
      | inr (inr waits) ↦ (
        saved,
        ground (arith, found, ordered, waits.0),
        (o.status, ordered, inr (inr (refl, waits.1))),
      )
    ]
