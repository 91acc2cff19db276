-- ===== src/Launch/Whole.antt =====
-- A request for a deployment is carried out as a whole or not at all, and only past both guards.
use devops_backend.Prelude.{
  ℕ, suc, String, ◌≡◌, ◌≢◌, subst, ◌⊎◌, inl, inr, refl, true, false, Option, some, List, [], ◌∷◌,
  ◌++◌, ◌==◌, text_key, arith, any, Bool-cases, Option-cases,
}
use devops_backend.Outcome.{Result, ok, err, Error, integrity_error, Result-cases}
use devops_backend.Guards.Branch.{
  AppInfo, refuse, proceed, cd, is_k8s_server, branch_allow_check, find_appinfo,
}
use devops_backend.Guards.Allowed.{Allowed, branch_allow_check-Allowed, branch_allow_check-http}
use devops_backend.Guards.Release.{
  Order, Platform, deploy_allow_check, check_clusters, check_template,
}
use devops_backend.Guards.Timely.{Deployable, Verdict-cases, deploy_allow_check-Deployable}
use devops_backend.Launch.Model.{
  LaunchApp, LaunchJob, LaunchDb, LaunchRequest, Services, Task, deploy_to_k8s, deploy_to_hosts,
  get_app, HostPayload,
}
use devops_backend.Launch.Payload.{host_payload}
use devops_backend.Launch.Handle.{
  Launched, launched, refused, new_job, insert_job, launch_on_k8s, launch_on_hosts,
  app_deploy_handle, queue_task, mark_clusters, mark_online, template_failed,
}
use devops_backend.Launch.Views.{
  Response, respond, CreateRequest, GuardRows, create, create_deploy_job, create_guards, prepared,
  app_infos, branch_request, deploy_request, check_user_deploy_perm,
}

-- the job that a task is for
abbrev pub task_job : Task → ℕ
task_job (deploy_to_k8s job yaml force) = job
task_job (deploy_to_hosts payload) = payload.job

-- one new job, undone, of the request's application and image, and one task for it
pub record Started (request : LaunchRequest) (db after : LaunchDb) (job : LaunchJob) : Type 0 where
  pub task : Task
  pub fresh : job.id ≡ db.next_id
  pub undone : job.status ≡ 0
  pub of_app : job.appinfo_id ≡ request.appinfo_id
  pub of_image : job.image ≡ request.image
  pub unique : any (λ j. j.uniq_id == job.uniq_id) db.jobs ≡ false
  pub jobs : after.jobs ≡ job ∷ db.jobs
  pub tasks : after.tasks ≡ db.tasks ++ task ∷ []
  pub names : task_job task ≡ job.id

host_payload-job :
    (services : Services) (app : LaunchApp) (job : ℕ) (image : Option String)
    (payload : HostPayload)
    → host_payload services app job image ≡ ok payload
    → payload.job ≡ job
unfolding host_payload
host_payload-job services app job image payload q = elim (Option-cases services.remote_hosts) [
  | inl lost ↦ absurd (ground (arith, q, lost))
  | inr host ↦ elim (Option-cases image) [
    | inl lost ↦ absurd (ground (arith, q, host.1, lost))
    | inr tag ↦ ground (arith, q, host.1, tag.1)
  ]
]

-- either nothing is saved and no job is reported, or the job is saved and queued
abbrev pub Whole : LaunchRequest → LaunchDb → LaunchDb × Result Launched → Type 0
Whole request db done =
    ((done.0 ≡ db) × ((done.1 ≡ ok refused) ⊎ ((e : Error) × (done.1 ≡ err e))))
    ⊎ ((job : LaunchJob) × (done.1 ≡ ok (launched job)) × Started request db done.0 job)

abbrev pub inserted : LaunchJob → LaunchDb → LaunchDb
inserted job db = record db { next_id = suc db.next_id; jobs = job ∷ db.jobs }

pub insert_job-cases :
    (job : LaunchJob) (db : LaunchDb)
    → (insert_job job db ≡ err integrity_error)
      ⊎ ((insert_job job db ≡ ok (inserted job db))
          × (any (λ j. j.uniq_id == job.uniq_id) db.jobs ≡ false))
unfolding insert_job
insert_job-cases job db = elim (Bool-cases (any (λ j. j.uniq_id == job.uniq_id) db.jobs)) [
  | inl taken ↦ inl (rw taken refl)
  | inr free ↦ inr (rw free refl, free)
]

module _ (services : Services) (request : LaunchRequest) (app : LaunchApp) (db : LaunchDb) where
  abbrev job : LaunchJob
  unfolding new_job
  job = new_job services request db

  launch_on_k8s-Whole :
      any (λ j. j.uniq_id == job.uniq_id) db.jobs ≡ false
      → Whole request db (
        (launch_on_k8s services db app job (inserted job db)).0,
        ok (launch_on_k8s services db app job (inserted job db)).1,
      )
  unfolding launch_on_k8s queue_task mark_clusters mark_online new_job
  launch_on_k8s-Whole free = elim (Result-cases (services.generate app job.image)) [
    | inr error ↦ inl (ground (arith, error.1), inl (ground (arith, error.1)))
    | inl yaml ↦ elim (Bool-cases (template_failed yaml.0)) [
      | inl failed ↦ inl (ground (arith, yaml.1, failed), inl (ground (arith, yaml.1, failed)))
      | inr made ↦ inr (
        job,
        ground (arith, yaml.1, made),
        record {
          task = deploy_to_k8s job.id yaml.0 true;
          fresh = refl;
          undone = refl;
          of_app = refl;
          of_image = refl;
          unique = free;
          jobs = ground (arith, yaml.1, made);
          tasks = ground (arith, yaml.1, made);
          names = refl;
        },
      )
    ]
  ]

  launch_on_hosts-Whole :
      any (λ j. j.uniq_id == job.uniq_id) db.jobs ≡ false
      → ((e : Error) × (launch_on_hosts services app job (inserted job db) ≡ err e))
        ⊎ ((done : LaunchDb × Launched) × (launch_on_hosts services app job (inserted job db)
              ≡ ok done)
            × Whole request db (done.0, ok done.1))
  unfolding launch_on_hosts queue_task new_job
  launch_on_hosts-Whole free = elim (Result-cases (host_payload services app job.id job.image)) [
    | inr error ↦ inl (error.0, ground (arith, error.1))
    | inl payload ↦
        let t = deploy_to_hosts payload.0 in
        let after : LaunchDb = queue_task t (inserted job db) in
        let started : Started request db after job = record {
          task = t;
          fresh = refl;
          undone = refl;
          of_app = refl;
          of_image = refl;
          unique = free;
          jobs = refl;
          tasks = refl;
          names = host_payload-job services app job.id job.image payload.0 payload.1;
        } in
        inr ((after, launched job), ground (arith, payload.1), inr (job, refl, started))
  ]

  pub app_deploy_handle-Whole : Whole request db (app_deploy_handle services request app db)
  unfolding app_deploy_handle new_job
  app_deploy_handle-Whole = elim (Bool-cases (services.is_valid request)) [
    | inr invalid ↦ rw invalid (inl (refl, inl refl))
    | inl valid ↦ elim (insert_job-cases job db) [
      | inl taken ↦ rw (valid, taken) (inl (refl, inr (integrity_error, refl)))
      | inr free ↦ elim (Bool-cases (is_k8s_server app.info)) [
        | inl k8s ↦ rw (valid, free.0, k8s) (launch_on_k8s-Whole free.1)
        | inr hosts ↦ elim (launch_on_hosts-Whole free.1) [
          | inl failed ↦ rw (valid, free.0, hosts, failed.1) (inl (refl, inr (failed.0, refl)))
          | inr done ↦ rw (valid, free.0, hosts, done.1) done.2
        ]
      ]
    ]
  ]

-- the codes of the refusals of the guard
check_clusters-code :
    (platform : Platform) (ks : List ℕ)
    → (check_clusters platform ks ≡ proceed) ⊎ (check_clusters platform ks ≡ refuse 50000 500)
unfolding check_clusters
check_clusters-code platform [] = inl refl
check_clusters-code platform (k ∷ ks) = elim (Bool-cases (platform.k8s_cli k)) [
  | inl connected ↦ rw connected (check_clusters-code platform ks)
  | inr lost ↦ inr (rw lost refl)
]

deploy_allow_check-code :
    (platform : Platform) (apps : List AppInfo) (orders : List Order) (request : CreateRequest)
    (code http : ℕ)
    → deploy_allow_check platform apps orders (deploy_request request) ≡ ok (refuse code http)
    → code ≢ 20000
unfolding deploy_allow_check deploy_request check_template
deploy_allow_check-code platform apps orders request code http q =
    elim (Option-cases (find_appinfo (some request.launch.appinfo_id) apps)) [
      | inl lost ↦ absurd (ground (arith, q, lost))
      | inr app ↦
          let clusters = check_clusters-code platform app.0.kubernetes in
          ground (arith, q, app.1, clusters)
    ]

abbrev pub Refused : LaunchDb → LaunchDb × Result Response → Type 0
Refused db done = (done.0 ≡ db) × (done.1 ≢ ok (respond 20000 200))

-- past the guards: the whole job, or no change
create_deploy_job-whole :
    (services : Services) (request : LaunchRequest) (db : LaunchDb)
    → Refused db (create_deploy_job services request db)
      ⊎ ((job : LaunchJob) × ((create_deploy_job services request db).1 ≡ ok (respond 20000 200))
          × Started (prepared request) db (create_deploy_job services request db).0 job)
unfolding create_deploy_job check_user_deploy_perm
create_deploy_job-whole services request db = elim (Option-cases (get_app request.appinfo_id db)) [
  | inl lost ↦ inl (ground (arith, lost), ground (arith, lost))
  | inr app ↦ elim (app_deploy_handle-Whole services (prepared request) app.0 db) [
    | inl failed ↦ inl (ground (arith, app.1, failed), ground (arith, app.1, failed))
    | inr done ↦ inr (
      done.0,
      ground (arith, app.1, done.1),
      subst (λ after. Started (prepared request) db after done.0) (ground (arith, app.1, done.1))
          done.2,
    )
  ]
]

-- what a started deployment has passed, and the job that it leaves
pub record Begun (rows : GuardRows) (request : CreateRequest) (db after : LaunchDb) : Type 0 where
  pub job : LaunchJob
  pub allowed : Allowed cd rows.build_jobs (app_infos db) (branch_request request)
  pub deployable : Deployable rows.platform (app_infos db) rows.orders (deploy_request request)
  pub started : Started (prepared request.launch) db after job

-- A request for a deployment either changes nothing and is not answered with code 20000; or it is, its
-- branch is allowed, its image given and its clusters connect, and it leaves exactly one new job, undone,
-- with a unique key and the application and the image that were asked for, and one task for that job.
pub create-all_or_nothing :
    (rows : GuardRows) (services : Services) (request : CreateRequest) (db : LaunchDb)
    → Refused db (create rows services request db)
      ⊎ (((create rows services request db).1 ≡ ok (respond 20000 200))
          × Begun rows request db (create rows services request db).0)
unfolding create create_guards
create-all_or_nothing rows services request db =
    let branch = branch_allow_check cd rows.build_jobs (app_infos db) (branch_request request) in
    let deploy =
      deploy_allow_check rows.platform (app_infos db) rows.orders (deploy_request request) in
    elim (Result-cases branch) [
      | inr error ↦ inl (ground (arith, error.1), ground (arith, error.1))
      | inl v ↦ elim (Verdict-cases v.0) [
        | inr told ↦
            let q : branch ≡ ok (refuse told.0 told.1) = ground (arith, v.1, told.2) in
            let code =
              branch_allow_check-http cd rows.build_jobs (app_infos db) (branch_request request)
                told.0 told.1 q in
            inl (ground (arith, q), ground (arith, q, code.0))
        | inl passed ↦
            let q : branch ≡ ok proceed = ground (arith, v.1, passed) in
            elim (Result-cases deploy) [
              | inr error ↦ inl (ground (arith, q, error.1), ground (arith, q, error.1))
              | inl w ↦ elim (Verdict-cases w.0) [
                | inr told ↦
                    let r : deploy ≡ ok (refuse told.0 told.1) = ground (arith, w.1, told.2) in
                    let code =
                      deploy_allow_check-code rows.platform (app_infos db) rows.orders request
                        told.0 told.1 r in
                    inl (ground (arith, q, r), ground (arith, q, r, code))
                | inl passed' ↦
                    let r : deploy ≡ ok proceed = ground (arith, w.1, passed') in
                    let same : create rows services request db
                        ≡ create_deploy_job services request.launch db =
                      ground (arith, q, r) in
                    rw same (past q r (create_deploy_job-whole services request.launch db))
              ]
            ]
      ]
    ]
  where
    past :
        branch_allow_check cd rows.build_jobs (app_infos db) (branch_request request) ≡ ok proceed
        → deploy_allow_check rows.platform (app_infos db) rows.orders (deploy_request request)
          ≡ ok proceed
        → Refused db (create_deploy_job services request.launch db)
          ⊎ ((job : LaunchJob) × ((create_deploy_job services request.launch db).1
                ≡ ok (respond 20000 200))
              × Started
                  (prepared request.launch)
                  db
                  (create_deploy_job services request.launch db).0
                  job)
        → Refused db (create_deploy_job services request.launch db)
          ⊎ (((create_deploy_job services request.launch db).1 ≡ ok (respond 20000 200))
              × Begun rows request db (create_deploy_job services request.launch db).0)
    past q r (inl same) = inl same
    past q r (inr done) = inr (
      done.1,
      record {
        job = done.0;
        allowed =
            (branch_allow_check-Allowed cd rows.build_jobs (app_infos db)
                (branch_request request)).0
              q;
        deployable =
            deploy_allow_check-Deployable rows.platform (app_infos db) rows.orders
              (deploy_request request) r;
        started = done.2;
      },
    )
