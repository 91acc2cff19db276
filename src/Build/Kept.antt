-- ===== src/Build/Kept.antt =====
-- What app_build_handle of apps/deploy/ext_func.py leaves in the table of the builds.
use devops_backend.Prelude.{
  true, none, some, ℕ, String, ◌≡◌, ◌≢◌, ◌⊎◌, inl, inr, refl, false, [], ◌∷◌, ◌++◌, text_key, arith,
  if◌then◌else◌, Bool-cases, eq_iff, subst, sym,
}
use devops_backend.Outcome.{Result, ok, err, ◌>>=◌, Error, Result-cases, unbound_local_error}
use devops_backend.Text.{split, last}
use devops_backend.Build.Jenkins.{
  BuildReply, pair, triple, Started, started, refused, start_build, BuildJob,
}
use devops_backend.Build.Handle.{
  BuildApp, BuildRow, BuildDb, BuildWorld, StartRequest, Handled, building, declined, trigger_build,
  start_row, app_build_handle, check_target, ready_job, build_image_tag, new_row, jenkins_job,
}

-- the number of the queue that Jenkins gave; a reply without one leaves the 0 of a new row
abbrev pub IsQueued : BuildReply → ℕ → Type 0
IsQueued (pair ok_so msg) number = ⊥
IsQueued (triple ok_so none msg) number = (ok_so ≡ true) × (number ≡ 0)
IsQueued (triple ok_so (some given) msg) number = (ok_so ≡ true) × (number ≡ given)

-- a build that was accepted: its row with the queue number, and the watch of that number
abbrev pub Accepted : BuildWorld → BuildDb → BuildDb → BuildRow → Type 0
Accepted w db after row =
    IsQueued w.reply row.queue_number
    × (after.rows ≡ row ∷ db.rows)
    × (row.id ≡ db.next_build_id)
    × (row.status ≡ 3)
    × (after.bindings ≡ db.bindings ++ (row.id, row.queue_number) ∷ [])

-- a refused build whose row stays, because Jenkins failed between the row and the build
abbrev pub LeftBehind : BuildWorld → BuildDb → BuildDb → Type 0
LeftBehind w db after =
    (row : BuildRow) × (after.rows ≡ row ∷ db.rows)
    × (row.status ≡ 3)
    × (after.bindings ≡ db.bindings)
    × ((e : Error) × ((w.still_exists >>= λ there. if there then ok tt else w.create_again)
          ≡ err e))

abbrev pub BuildOutcome : BuildWorld → BuildDb → BuildDb × Result Handled → Type 0
BuildOutcome w db done =
    ((row : BuildRow) × (done.1 ≡ ok (building row)) × Accepted w db done.0 row)
    ⊎ (((done.0 ≡ db) × ((done.1 ≡ ok declined) ⊎ ((e : Error) × (done.1 ≡ err e))))
        ⊎ ((done.1 ≡ ok declined) × LeftBehind w db done.0))

Started-cases :
    (s : Started) → ((job : BuildJob) × (s ≡ started job)) ⊎ ((m : String) × (s ≡ refused m))
Started-cases (started job) = inl (job, refl)
Started-cases (refused m) = inr (m, refl)

start_build-IsQueued :
    (job done : BuildJob) (reply : BuildReply)
    → job.queue_number ≡ 0
    → start_build job reply ≡ started done
    → IsQueued reply done.queue_number
unfolding start_build
start_build-IsQueued job done (pair ok_so msg) zeroed q = absurd (ground (arith, q))
start_build-IsQueued job done (triple true none msg) zeroed q = (refl, ground (arith, q, zeroed))
start_build-IsQueued job done (triple true (some n) msg) zeroed q = (refl, ground (arith, q))
start_build-IsQueued job done (triple false number msg) zeroed q = absurd (ground (arith, q))

trigger_build-outcome :
    (w : BuildWorld) (row : BuildRow) (db : BuildDb)
    → row.id ≡ db.next_build_id
    → row.status ≡ 3
    → row.queue_number ≡ 0
    → BuildOutcome w db ((trigger_build w row db).0, ok (trigger_build w row db).1)
unfolding trigger_build jenkins_job
trigger_build-outcome w row db fresh running zeroed = elim (Result-cases w.parameters) [
  | inr bad ↦ inr (inl (ground (arith, bad.1), inl (ground (arith, bad.1))))
  | inl good ↦ elim (Started-cases (start_build (jenkins_job row) w.reply)) [
    | inr told ↦ inr (inl (ground (arith, good.1, told.1), inl (ground (arith, good.1, told.1))))
    | inl job ↦ inl (
      record row { queue_number = job.0.queue_number },
      ground (arith, good.1, job.1),
      (
        start_build-IsQueued (jenkins_job row) job.0 w.reply zeroed job.1,
        ground (arith, good.1, job.1),
        fresh,
        running,
        ground (arith, good.1, job.1),
      ),
    )
  ]
]

start_row-outcome :
    (w : BuildWorld) (row : BuildRow) (db : BuildDb)
    → row.id ≡ db.next_build_id
    → row.status ≡ 3
    → row.queue_number ≡ 0
    → BuildOutcome w db ((start_row w row db).0, ok (start_row w row db).1)
unfolding start_row
start_row-outcome w row db fresh running zeroed =
    let again : Result (Unit {0}) =
      w.still_exists >>= λ there. if there then ok tt else w.create_again in
    elim (Result-cases again) [
      | inr bad ↦ inr (
          inr (
            ground (arith, bad.1),
            (row, ground (arith, bad.1), running, ground (arith, bad.1), bad),
          ))
      | inl good ↦
          let same : start_row w row db ≡ trigger_build w row db = ground (arith, good.1) in
          subst (λ d. BuildOutcome w db (d.0, ok d.1)) (sym same)
            (trigger_build-outcome w row db fresh running zeroed)
    ]

new_row-fresh :
    (app : BuildApp) (r : StartRequest) (number : ℕ) (tag : String) (db : BuildDb)
    → ((new_row app r number tag db).id ≡ db.next_build_id)
      × ((new_row app r number tag db).status ≡ 3)
      × ((new_row app r number tag db).queue_number ≡ 0)
unfolding new_row
new_row-fresh app r number tag db = (refl, refl, refl)

-- past the checks of Jenkins
settled :
    (w : BuildWorld) (app : BuildApp) (r : StartRequest) (db : BuildDb)
    → {u : Unit {0}} → w.configured ≡ ok u
    → ready_job w ≡ ok false
    → BuildOutcome w db (app_build_handle w app r db)
unfolding app_build_handle
settled w app r db set idle = elim (Result-cases w.next_number) [
  | inr bad ↦ inr (inl (ground (arith, set, idle, bad.1), inl (ground (arith, set, idle, bad.1))))
  | inl number ↦ elim (Result-cases (build_image_tag w r number.0)) [
    | inr bad ↦ inr (
        inl (
          ground (arith, set, idle, number.1, bad.1),
          inl (ground (arith, set, idle, number.1, bad.1)),
        ))
    | inl tag ↦ elim (Result-cases (check_target w app)) [
      | inr bad ↦ inr (
          inl (
            ground (arith, set, idle, number.1, tag.1, bad.1),
            inl (ground (arith, set, idle, number.1, tag.1, bad.1)),
          ))
      | inl target ↦ elim (Bool-cases target.0) [
        | inr none_found ↦ inr (
            inl (
              ground (arith, set, idle, number.1, tag.1, target.1, none_found),
              inl (ground (arith, set, idle, number.1, tag.1, target.1, none_found)),
            ))
        | inl found ↦
            let row = new_row app r number.0 tag.0 db in
            let fresh = new_row-fresh app r number.0 tag.0 db in
            elim (Bool-cases (w.is_valid row)) [
              | inr invalid ↦ inr (
                  inl (
                    ground (arith, set, idle, number.1, tag.1, target.1, found, invalid),
                    inl (ground (arith, set, idle, number.1, tag.1, target.1, found, invalid)),
                  ))
              | inl valid ↦
                  let done : BuildDb × Result Handled =
                    ((start_row w row db).0, ok (start_row w row db).1) in
                  let same : app_build_handle w app r db ≡ done =
                    ground (arith, set, idle, number.1, tag.1, target.1, found, valid) in
                  subst (BuildOutcome w db) (sym same)
                    (start_row-outcome w row db fresh.0 fresh.1 fresh.2)
            ]
      ]
    ]
  ]
]

-- A request for a build is either answered True, and there is one new row, under way, with the queue
-- number that Jenkins replied, or 0 if it gave none, and this number is watched from then on; or it is
-- not, and nothing has changed, except where the job of Jenkins could not be looked for or made anew
-- once the row was saved: then a row that counts as under way stays without a build.
pub app_build_handle-outcome :
    (w : BuildWorld) (app : BuildApp) (r : StartRequest) (db : BuildDb)
    → BuildOutcome w db (app_build_handle w app r db)
unfolding app_build_handle
app_build_handle-outcome w app r db = elim (Result-cases w.configured) [
  | inr bad ↦ inr (inl (ground (arith, bad.1), inr (bad.0, ground (arith, bad.1))))
  | inl set ↦ elim (Result-cases (ready_job w)) [
    | inr bad ↦ inr (inl (ground (arith, set.1, bad.1), inl (ground (arith, set.1, bad.1))))
    | inl queued ↦ elim (Bool-cases queued.0) [
      | inl waits ↦ inr (
          inl
            (ground (arith, set.1, queued.1, waits), inl (ground (arith, set.1, queued.1, waits))))
      | inr idle ↦ settled w app r db set.1 (ground (arith, queued.1, idle))
    ]
  ]
]

declined_at :
    (w : BuildWorld) (app : BuildApp) (r : StartRequest) (db : BuildDb)
    → {u : Unit {0}} → w.configured ≡ ok u
    → check_target w app ≡ err unbound_local_error
    → ((app_build_handle w app r db).0 ≡ db)
      × (((app_build_handle w app r db).1 ≡ ok declined)
          ⊎ ((e : Error) × ((app_build_handle w app r db).1 ≡ err e)))
unfolding app_build_handle
declined_at w app r db set unbound = elim (Result-cases (ready_job w)) [
  | inr bad ↦ (ground (arith, set, bad.1), inl (ground (arith, set, bad.1)))
  | inl queued ↦ elim (Bool-cases queued.0) [
    | inl waits ↦ (ground (arith, set, queued.1, waits), inl (ground (arith, set, queued.1, waits)))
    | inr idle ↦ elim (Result-cases w.next_number) [
      | inr bad ↦ (
        ground (arith, set, queued.1, idle, bad.1),
        inl (ground (arith, set, queued.1, idle, bad.1)),
      )
      | inl number ↦ elim (Result-cases (build_image_tag w r number.0)) [
        | inr bad ↦ (
          ground (arith, set, queued.1, idle, number.1, bad.1),
          inl (ground (arith, set, queued.1, idle, number.1, bad.1)),
        )
        | inl tag ↦ (
          ground (arith, set, queued.1, idle, number.1, tag.1, unbound),
          inl (ground (arith, set, queued.1, idle, number.1, tag.1, unbound)),
        )
      ]
    ]
  ]
]

-- No server that is not deployed to Kubernetes is ever built: the request is never answered True, and it
-- leaves the table and the watched builds as they are.
pub app_build_handle-no_kubernetes :
    (w : BuildWorld) (app : BuildApp) (r : StartRequest) (db : BuildDb)
    → last (split "." app.category) ≡ "server"
    → app.is_k8s ≢ "k8s"
    → ((app_build_handle w app r db).0 ≡ db)
      × (((app_build_handle w app r db).1 ≡ ok declined)
          ⊎ ((e : Error) × ((app_build_handle w app r db).1 ≡ err e)))
unfolding app_build_handle check_target
app_build_handle-no_kubernetes w app r db server other =
    let is_server = (eq_iff (last (split "." app.category)) "server").1 server in
    let elsewhere = eq_iff app.is_k8s "k8s" in
    elim (Result-cases w.configured) [
      | inr bad ↦ (ground (arith, bad.1), inr (bad.0, ground (arith, bad.1)))
      | inl set ↦
          let facts : check_target w app ≡ err unbound_local_error =
            ground (arith, is_server, elsewhere, other) in
          declined_at w app r db set.1 facts
    ]
