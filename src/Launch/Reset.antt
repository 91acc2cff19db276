-- ===== src/Launch/Reset.antt =====
-- reset_status of DeployJobViewSet, and perform_create of PublishOrderViewSet: apps/deploy/views.py.
use devops_backend.Prelude.{
  ap, sym, eq_iff, ◌↔◌, ℕ, String, ◌≡◌, ◌≢◌, ◌⊎◌, inl, inr, refl, Bool, true, false, Option, none,
  some, List, [], ◌∷◌, ◌++◌, map, ◌&&◌, ◌==◌, Key, text_key, number_key, arith, if◌then◌else◌,
  first_where, contains, get_elem?, Bool-cases, Option-cases, get_elem?-map,
}
use devops_backend.Outcome.{Result, ok, err, does_not_exist}
use devops_backend.Deploy.Orders.{PublishApp}
use devops_backend.Launch.Model.{LaunchJob}

pub record ResetDb : Type 0 where
  pub publish_apps : List PublishApp
  pub reset_jobs : List LaunchJob

-- `publishAppId` of the request, an empty text counting as none
pub record ResetRequest : Type 0 where
  pub publish_app : Option ℕ
  pub pk : ℕ

-- the filters of the jobs to reset
pub record Filters : Type 0 where
  pub order_id : Option String
  pub appinfo_id : ℕ
  pub batch_uuid : Option String

unfoldable pub same_text : Option String → Option String → Bool
same_text none other = true
same_text (some key) none = false
same_text (some key) (some other) = key == other

-- `queryset.filter(**filters)`, with the status 3
unfoldable pub is_match : Filters → LaunchJob → Bool
is_match f job =
    job.status == 3
    && (job.appinfo_id == f.appinfo_id
        && (same_text f.order_id job.order_id && same_text f.batch_uuid job.batch_uuid))

unfoldable pub reset_jobs_of : Filters → ResetDb → ResetDb
reset_jobs_of f db = record db {
  reset_jobs = map (λ j. if is_match f j then record j { status = 0 } else j) db.reset_jobs;
}

unfoldable pub set_app_status : ℕ → ℕ → ResetDb → ResetDb
set_app_status key status db = record db {
  publish_apps = map (λ a. if a.id == key then record a { status = status } else a) db.publish_apps;
}

-- `if obj.batch_uuid`
unfoldable pub batch_of : Option String → Option String
batch_of none = none
batch_of (some batch) = if batch == "" then none else some batch

-- the code of the reply: 20000 or 40000
unfoldable pub reset_status : ResetRequest → ResetDb → ResetDb × Result ℕ
reset_status request db = elim request.publish_app [
  | some key ↦ elim (first_where (λ a. a.id == key) db.publish_apps) [
    | none ↦ (db, err does_not_exist)
    | some app ↦
        if app.status == 3
        then (
          reset_jobs_of
              (record {
                order_id = some app.order_id;
                appinfo_id = app.appinfo_id;
                batch_uuid = none;
              })
              (set_app_status key 0 db),
          ok 20000,
        )
        else (db, ok 40000)
  ]
  | none ↦ elim (first_where (λ j. j.id == request.pk) db.reset_jobs) [
    | none ↦ (db, err does_not_exist)
    | some job ↦ (
      reset_jobs_of
          (record {
            order_id = none;
            appinfo_id = job.appinfo_id;
            batch_uuid = batch_of job.batch_uuid;
          })
          db,
      ok 20000,
    )
  ]
]

-- `reduce(lambda x, y: x if y in x else x + [y], [[]] + apps)`: the apps of a new order, each once
unfoldable pub dedupe_from {ℓ} : {A : Type ℓ} ⦃e : Key A⦄ → List A → List A → List A
dedupe_from seen [] = seen
dedupe_from seen (y ∷ ys) = dedupe_from (if contains seen y then seen else seen ++ y ∷ []) ys

unfoldable pub dedupe {ℓ} : {A : Type ℓ} ⦃e : Key A⦄ → List A → List A
dedupe apps = dedupe_from [] apps

-- a filter that is not given asks nothing
abbrev pub Asks : Option String → Option String → Type 0
Asks none other = Unit
Asks (some key) other = other ≡ some key

-- the jobs to reset
abbrev pub Matches : Filters → LaunchJob → Type 0
Matches f j =
    (j.status ≡ 3)
    × (j.appinfo_id ≡ f.appinfo_id)
    × Asks f.order_id j.order_id
    × Asks f.batch_uuid j.batch_uuid

-- a job that is to be reset has not been started; any other is as it was
abbrev pub Resets : Filters → LaunchJob → LaunchJob → Type 0
Resets f j k = (Matches f j × (k ≡ record j { status = 0 })) ⊎ ((¬ (Matches f j)) × (k ≡ j))

same_text-Asks : (key other : Option String) → (same_text key other ≡ true) ↔ Asks key other
unfolding same_text
same_text-Asks none other = (λ q. tt, λ q. refl)
same_text-Asks (some key) none = (λ q. absurd (ground (arith, q)), λ q. absurd (ground (arith, q)))
same_text-Asks (some key) (some other) =
    (λ q. ap some (sym ((eq_iff key other).0 q)), λ q. (eq_iff key other).1 (ground (arith, q)))

is_match-Matches : (f : Filters) (j : LaunchJob) → (is_match f j ≡ true) ↔ Matches f j
unfolding is_match
is_match-Matches f j =
    let order = same_text-Asks f.order_id j.order_id in
    let batch = same_text-Asks f.batch_uuid j.batch_uuid in
    (
      λ q. (
        ground (arith, q),
        ground (arith, q),
        order.0 (ground (arith, q)),
        batch.0 (ground (arith, q)),
      ),
      λ m. let o = order.1 m.2 in let b = batch.1 m.3 in ground (arith, m.0, m.1, o, b),
    )

reset_jobs_of-Resets :
    (f : Filters) (db : ResetDb) (i : ℕ) (j : LaunchJob)
    → get_elem? db.reset_jobs i ≡ some j
    → (k : LaunchJob) × (get_elem? (reset_jobs_of f db).reset_jobs i ≡ some k) × Resets f j k
unfolding reset_jobs_of
reset_jobs_of-Resets f db i j at =
    let reset : LaunchJob → LaunchJob = λ j. if is_match f j then record j { status = 0 } else j in
    let matches = is_match-Matches f j in
    (
      reset j,
      get_elem?-map reset db.reset_jobs i j at,
      elim (Bool-cases (is_match f j)) [
        | inl matched ↦ inl (matches.0 matched, rw matched refl)
        | inr other ↦ inr (λ m. ground (arith, matches.1 m, other), rw other refl)
      ],
    )

-- the batch of a job, an empty text counting as none
abbrev pub IsBatch : Option String → Option String → Type 0
IsBatch none batch = batch ≡ none
IsBatch (some given) batch = ((given ≡ "") × (batch ≡ none)) ⊎ ((given ≢ "") × (batch ≡ some given))

batch_of-IsBatch : (given : Option String) → IsBatch given (batch_of given)
unfolding batch_of
batch_of-IsBatch none = refl
batch_of-IsBatch (some given) = elim (Bool-cases (given == "")) [
  | inl empty ↦ inl ((eq_iff given "").0 empty, rw empty refl)
  | inr filled ↦ inr (λ q. ground (arith, (eq_iff given "").1 q, filled), rw filled refl)
]

first_where-set_app_status :
    (key status : ℕ) (app : PublishApp) (apps : List PublishApp)
    → first_where (λ a. a.id == key) apps ≡ some app
    → first_where
        (λ a. a.id == key)
        (map (λ a. if a.id == key then record a { status = status } else a) apps)
      ≡ some (record app { status = status })
first_where-set_app_status key status app [] found = ground arith
first_where-set_app_status key status app (a ∷ apps) found =
    let ih = first_where-set_app_status key status app apps in ground arith

-- what the request is for: an app of an order that is being deployed, which waits again, and the jobs of
-- its application for the order; or a job, and those of its application in its batch, if it has one
abbrev pub IsScope : ResetRequest → ResetDb → ResetDb → Filters → Type 0
IsScope request db after f =
    ((key : ℕ) × (app : PublishApp) × (request.publish_app ≡ some key)
      × (first_where (λ a. a.id == key) db.publish_apps ≡ some app)
      × (app.status ≡ 3)
      × (first_where (λ a. a.id == key) after.publish_apps ≡ some (record app { status = 0 }))
      × (f.appinfo_id ≡ app.appinfo_id)
      × (f.order_id ≡ some app.order_id)
      × (f.batch_uuid ≡ none))
    ⊎ ((job : LaunchJob) × (request.publish_app ≡ none)
        × (first_where (λ j. j.id == request.pk) db.reset_jobs ≡ some job)
        × (after.publish_apps ≡ db.publish_apps)
        × (f.appinfo_id ≡ job.appinfo_id)
        × (f.order_id ≡ none)
        × IsBatch job.batch_uuid f.batch_uuid)

-- A request to reset either changes nothing and is not answered with code 20000; or it names an app of an
-- order that is being deployed, which waits again, or a job. Then exactly the jobs under way of that
-- application, for that order or in that job's batch, get the status 0, and every other job is as it was.
pub reset_status-Resets :
    (request : ResetRequest) (db : ResetDb) (i : ℕ) (j : LaunchJob)
    → get_elem? db.reset_jobs i ≡ some j
    → (((reset_status request db).0 ≡ db) × ((reset_status request db).1 ≢ ok 20000))
      ⊎ ((f : Filters) × (k : LaunchJob) × ((reset_status request db).1 ≡ ok 20000)
          × IsScope request db (reset_status request db).0 f
          × (get_elem? (reset_status request db).0.reset_jobs i ≡ some k)
          × Resets f j k)
unfolding reset_status set_app_status reset_jobs_of
reset_status-Resets request db i j at = elim (Option-cases request.publish_app) [
  | inr key ↦ elim (Option-cases (first_where (λ a. a.id == key.0) db.publish_apps)) [
    | inl lost ↦ inl (ground (arith, key.1, lost), ground (arith, key.1, lost))
    | inr app ↦ elim (Bool-cases (app.0.status == 3)) [
      | inr idle ↦ inl (ground (arith, key.1, app.1, idle), ground (arith, key.1, app.1, idle))
      | inl runs ↦
          let f : Filters = record {
            order_id = some app.0.order_id;
            appinfo_id = app.0.appinfo_id;
            batch_uuid = none;
          } in
          let done = reset_jobs_of-Resets f (set_app_status key.0 0 db) i j at in
          let waits = first_where-set_app_status key.0 0 app.0 db.publish_apps app.1 in
          inr (
            f,
            done.0,
            ground (arith, key.1, app.1, runs),
            inl (
              key.0,
              app.0,
              key.1,
              app.1,
              ground (arith, runs),
              ground (arith, key.1, app.1, runs, waits),
              refl,
              refl,
              refl,
            ),
            ground (arith, key.1, app.1, runs, done.1),
            done.2,
          )
    ]
  ]
  | inl direct ↦ elim (Option-cases (first_where (λ j. j.id == request.pk) db.reset_jobs)) [
    | inl lost ↦ inl (ground (arith, direct, lost), ground (arith, direct, lost))
    | inr job ↦
        let f : Filters = record {
          order_id = none;
          appinfo_id = job.0.appinfo_id;
          batch_uuid = batch_of job.0.batch_uuid;
        } in
        let done = reset_jobs_of-Resets f db i j at in
        inr (
          f,
          done.0,
          ground (arith, direct, job.1),
          inr (
            job.0,
            direct,
            job.1,
            ground (arith, direct, job.1),
            refl,
            refl,
            batch_of-IsBatch job.0.batch_uuid,
          ),
          ground (arith, direct, job.1, done.1),
          done.2,
        )
  ]
]
