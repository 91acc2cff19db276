-- ===== src/Deploy/Verdict.antt =====
-- The status of a publish order against the statuses of its apps.
use devops_backend.Prelude.{
  refl, false, ap, sym, ◌∙◌, ◌⊎◌, inl, inr, ◌&&◌, ◌||◌, not, any, Bool, [], ◌∷◌, Bool-cases,
  get_elem?-map, ℕ, String, ◌≡◌, ◌≢◌, true, some, List, map, ◌==◌, text_key, number_key, arith,
  eq_iff, if◌then◌else◌, first_where, contains, get_elem?, All,
}
use devops_backend.Outcome.{ok}
use devops_backend.Deploy.Model.{CdResult, all_ones}
use devops_backend.Deploy.Ones.{all_ones-All}
use devops_backend.Deploy.Orders.{
  DeployJob, PublishApp, PublishOrder, World, find_order, save_order, update_apps, judge_order,
  valid_status, order_status, update_deploy_job_status, DeployJob,
}

-- an app of an order that is not void
abbrev pub is_live : String → PublishApp → Bool
is_live order_id a = a.order_id == order_id && not (a.status == 4)

-- the status of an order against its apps: 1 if it has an app that is not void and none of these has
-- another status; 3 if one of them waits or is under way; else 2
abbrev pub JudgedAs : String → List PublishApp → ℕ → Type 0
JudgedAs order_id apps status =
    ((status ≡ 1)
      × (any (is_live order_id) apps ≡ true)
      × (any (λ a. is_live order_id a && not (a.status == 1)) apps ≡ false))
    ⊎ (((status ≡ 3)
          × (any (λ a. is_live order_id a && (a.status == 0 || a.status == 3)) apps ≡ true))
        ⊎ ((status ≡ 2)
            × (any (λ a. is_live order_id a && (a.status == 0 || a.status == 3)) apps ≡ false)
            × ((any (is_live order_id) apps ≡ false)
                ⊎ (any (λ a. is_live order_id a && not (a.status == 1)) apps ≡ true))))

-- an app before and behind the deployment: that of the job in the order gets the status, others stay
abbrev pub GetsStatus : DeployJob → ℕ → PublishApp → PublishApp → Type 0
GetsStatus job status a a' =
    ((a.appinfo_id ≡ job.appinfo_id)
      × (a.order_id ≡ job.order_id)
      × (a' ≡ record a { status = status }))
    ⊎ (((a.appinfo_id ≢ job.appinfo_id) ⊎ (a.order_id ≢ job.order_id)) × (a' ≡ a))

contains-any_same : (xs : List ℕ) (n : ℕ) → contains xs n ≡ any (λ y. y == n) xs
contains-any_same [] n = refl
contains-any_same (x ∷ xs) n = ground (arith, contains-any_same xs n)

any-waiting : (xs : List ℕ) → any (λ y. y == 0 || y == 3) xs ≡ (contains xs 0 || contains xs 3)
any-waiting [] = refl
any-waiting (x ∷ xs) = ground (arith, any-waiting xs)

ones-All : (xs : List ℕ) → any (λ y. not (y == 1)) xs ≡ false → All (λ y. y ≡ 1) xs
ones-All [] q = tt
ones-All (x ∷ xs) q = (ground (arith, q), ones-All xs (ground (arith, q)))

All-ones : (xs : List ℕ) → All (λ y. y ≡ 1) xs → any (λ y. not (y == 1)) xs ≡ false
All-ones [] all = refl
All-ones (x ∷ xs) all = let ih = All-ones xs all.1 in ground (arith, ih, all.0)

any-valid_status :
    (p : ℕ → Bool) (order_id : String) (apps : List PublishApp)
    → any p (valid_status order_id apps) ≡ any (λ a. is_live order_id a && p a.status) apps
unfolding valid_status
any-valid_status p order_id [] = refl
any-valid_status p order_id (a ∷ apps) =
    let ih = any-valid_status p order_id apps in
    elim (Bool-cases (is_live order_id a)) [
      | inl live ↦ rw live (ap (λ b. p a.status || b) ih)
      | inr other ↦ rw other ih
    ]

any-live :
    (order_id : String) (apps : List PublishApp)
    → any (λ a. is_live order_id a && true) apps ≡ any (is_live order_id) apps
any-live order_id [] = refl
any-live order_id (a ∷ apps) =
    let ih = any-live order_id apps in
    elim (Bool-cases (is_live order_id a)) [ inl live ↦ rw live refl | inr other ↦ rw other ih ]

-- the same over the statuses alone
abbrev StatusJudged : List ℕ → ℕ → Type 0
StatusJudged xs status =
    ((status ≡ 1) × (any (λ y. true) xs ≡ true) × (any (λ y. not (y == 1)) xs ≡ false))
    ⊎ (((status ≡ 3) × (any (λ y. y == 0 || y == 3) xs ≡ true))
        ⊎ ((status ≡ 2)
            × (any (λ y. y == 0 || y == 3) xs ≡ false)
            × ((any (λ y. true) xs ≡ false) ⊎ (any (λ y. not (y == 1)) xs ≡ true))))

order_status-nothing : order_status [] ≡ 2
unfolding order_status all_ones
order_status-nothing = refl

order_status-StatusJudged : (xs : List ℕ) → StatusJudged xs (order_status xs)
unfolding order_status
order_status-StatusJudged [] = inr (inr (order_status-nothing, refl, inl refl))
order_status-StatusJudged (x ∷ xs) =
    let ys = x ∷ xs in
    let ones = all_ones-All x xs in
    elim (Bool-cases (all_ones ys)) [
      | inl q ↦ inl (ground (arith, q), refl, All-ones ys (ones.0 q))
      | inr q ↦ elim (Bool-cases (contains ys 0 || contains ys 3)) [
        | inl waits ↦ inr (inl (ground (arith, q, waits), any-waiting ys ∙ waits))
        | inr settled ↦ inr (
            inr (
              ground (arith, q, settled),
              any-waiting ys ∙ settled,
              elim (Bool-cases (any (λ y. not (y == 1)) ys)) [
                | inl mixed ↦ inr mixed
                | inr same ↦ absurd (
                    let all_of : all_ones ys ≡ true = ones.1 (ones-All ys same) in
                    ground (arith, q, all_of))
              ],
            ))
      ]
    ]

order_status-JudgedAs :
    (order_id : String) (apps : List PublishApp)
    → JudgedAs order_id apps (order_status (valid_status order_id apps))
order_status-JudgedAs order_id apps =
    let xs = valid_status order_id apps in
    let some_live = any-valid_status (λ y. true) order_id apps ∙ any-live order_id apps in
    let waits = any-valid_status (λ y. y == 0 || y == 3) order_id apps in
    let mixed = any-valid_status (λ y. not (y == 1)) order_id apps in
    elim (order_status-StatusJudged xs) [
      | inl one ↦ inl (one.0, sym some_live ∙ one.1, sym mixed ∙ one.2)
      | inr (inl three) ↦ inr (inl (three.0, sym waits ∙ three.1))
      | inr (inr two) ↦ inr (
          inr (
            two.0,
            sym waits ∙ two.1,
            elim two.2 [ inl lacks ↦ inl (sym some_live ∙ lacks) | inr m ↦ inr (sym mixed ∙ m) ],
          ))
    ]

update_apps-GetsStatus :
    (job : DeployJob) (status : ℕ) (w : World) (i : ℕ) (a : PublishApp)
    → get_elem? w.apps i ≡ some a
    → (a' : PublishApp) × (get_elem? (update_apps job status w).apps i ≡ some a')
      × GetsStatus job status a a'
unfolding update_apps
update_apps-GetsStatus job status w i a at =
    let updated : PublishApp → PublishApp = λ b.
      if b.appinfo_id == job.appinfo_id && b.order_id == job.order_id
      then record b { status = status }
      else b in
    (
      updated a,
      get_elem?-map updated w.apps i a at,
      elim (Bool-cases (a.appinfo_id == job.appinfo_id)) [
        | inr other ↦ inr (inl (ground (arith, other)), rw other refl)
        | inl same ↦ elim (Bool-cases (a.order_id == job.order_id)) [
          | inl in_order ↦ inl (
            ground (arith, same),
            (eq_iff a.order_id job.order_id).0 in_order,
            rw (same, in_order) refl,
          )
          | inr elsewhere ↦ inr (
            inr (λ q. ground (arith, elsewhere, (eq_iff a.order_id job.order_id).1 q)),
            rw (same, elsewhere) refl,
          )
        ]
      ],
    )

pub first_where-marked :
    (order_id : String) (status : ℕ) (o : PublishOrder) (orders : List PublishOrder)
    → first_where (λ p. p.order_id == order_id) orders ≡ some o
    → first_where
        (λ p. p.order_id == order_id)
        (map (λ p. if p.order_id == order_id then record p { status = status } else p) orders)
      ≡ some (record o { status = status })
first_where-marked order_id status o [] found = ground arith
first_where-marked order_id status o (x ∷ xs) found =
    let ih = first_where-marked order_id status o xs in ground arith

pub find_order-save_order :
    (order_id : String) (status : ℕ) (o : PublishOrder) (w : World)
    → find_order order_id w ≡ some o
    → find_order order_id (save_order order_id status w) ≡ some (record o { status = status })
unfolding find_order save_order
find_order-save_order order_id status o w found =
    first_where-marked order_id status o w.orders found

find_order-judge_order :
    (order_id : String) (status : ℕ) (o : PublishOrder) (w : World)
    → find_order order_id w ≡ some o
    → find_order order_id (judge_order order_id status w) ≡ some (record o { status = status })
unfolding find_order save_order
find_order-judge_order order_id status o w found =
    first_where-marked order_id status o w.orders found

find_order-update_apps :
    (id : String) (job : DeployJob) (status : ℕ) (w : World)
    → find_order id (update_apps job status w) ≡ find_order id w
unfolding find_order update_apps
find_order-update_apps id job status w = refl

-- After a deployment to Kubernetes for an order that exists, the apps of the job in the order have the
-- status of the deployment and the other apps are as before. The order has the status 1 if it has an app
-- that is not void and all such apps have the status 1; 3 if one of them waits or is under way; and else 2.
pub update_deploy_job_status-order :
    (cd_result : CdResult) (w : World) (o : PublishOrder) (i : ℕ) (a : PublishApp)
    → w.job.order_id ≢ ""
    → find_order w.job.order_id w ≡ some o
    → get_elem? w.apps i ≡ some a
    → (w' : World) × (status : ℕ) × (a' : PublishApp) × (update_deploy_job_status cd_result w
        ≡ (w', ok tt))
      × (find_order w.job.order_id w' ≡ some (record o { status = status }))
      × JudgedAs w.job.order_id w'.apps status
      × (get_elem? w'.apps i ≡ some a')
      × GetsStatus w.job cd_result.status a a'
unfolding update_deploy_job_status find_order save_order
update_deploy_job_status-order cd_result w o i a named found at =
    let saved : World = record w {
      cached = some cd_result;
      job = record w.job { status = cd_result.status; result = some cd_result };
    } in
    let marked = update_apps w.job cd_result.status saved in
    let status = order_status (valid_status w.job.order_id marked.apps) in
    let got = update_apps-GetsStatus w.job cd_result.status saved i a at in
    let kept : find_order w.job.order_id marked ≡ some o =
      find_order-update_apps w.job.order_id w.job cd_result.status saved ∙ found in
    (
      judge_order w.job.order_id status marked,
      status,
      got.0,
      ground (arith, named, found, eq_iff w.job.order_id ""),
      find_order-judge_order w.job.order_id status o marked kept,
      order_status-JudgedAs w.job.order_id marked.apps,
      got.1,
      got.2,
    )
