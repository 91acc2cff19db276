-- ===== src/Deploy/Release.antt =====
-- The outcome of a job over all its clusters.
use devops_backend.Prelude.{
  ℕ, ◌≡◌, ◌↔◌, ◌⊎◌, inl, inr, refl, ap, Bool, true, Option, some, List, [], ◌∷◌, map, ◌==◌,
  text_key, number_key, arith, eq_iff, if◌then◌else◌, All, Bool-cases,
}
use devops_backend.Outcome.{ok}
use devops_backend.Deploy.Model.{Cluster, CdResult, all_ones}
use devops_backend.Deploy.Ones.{all_ones-All}
use devops_backend.Deploy.Flow.{Kubernetes, Services, Target, get_k8s_client, deploy_cluster}
use devops_backend.Deploy.Stages.{planned, HasPassed, deploy_cluster-success}
use devops_backend.Deploy.Orders.{
  PublishOrder, World, find_order, save_order, update_apps, init_deploy_job_status,
  update_deploy_job_status,
}
use devops_backend.Deploy.Verdict.{first_where-marked}
use devops_backend.Deploy.Clusters.{
  KubernetesDeploy, Release, made_with, update_version, deploy_clusters, last_name, conclude, run,
}

-- a cluster on which every step of the deployment succeeds
abbrev pub IsDeployable : Services → Target → Kubernetes → Type 0
IsDeployable services t k8s =
    ((get_k8s_client services k8s).stat ≡ 1) × All HasPassed (planned services k8s t)

-- every cluster is visited, in order, whatever the outcome of those before it
pub deploy_clusters-map :
    (services : Services) (t : Target) (ks : List Kubernetes) (rows : List KubernetesDeploy)
    → (deploy_clusters services t ks rows).0 ≡ map (deploy_cluster services t) ks
unfolding deploy_clusters
deploy_clusters-map services t [] rows = refl
deploy_clusters-map services t (k ∷ ks) rows =
    let ih =
      deploy_clusters-map services t ks
        (update_version t.image_tag (deploy_cluster services t k) rows) in
    ap (λ cs. deploy_cluster services t k ∷ cs) ih

map-status :
    (services : Services) (t : Target) (ks : List Kubernetes)
    → All (λ n. n ≡ 1) (map (λ c. c.status) (map (deploy_cluster services t) ks))
      ↔ All (IsDeployable services t) ks
map-status services t [] = (λ u. tt, λ u. tt)
map-status services t (k ∷ ks) =
    let ih = map-status services t ks in
    let one = deploy_cluster-success services k t in
    (λ a. (one.0 a.0, ih.0 a.1), λ a. (one.1 a.0, ih.1 a.1))

abbrev pub succeeds : Services → Target → List Kubernetes → Bool
succeeds services t ks = all_ones (map (λ c. c.status) (map (deploy_cluster services t) ks))

abbrev pub IsReady : World → Type 0
IsReady w = (w.job.order_id ≡ "") ⊎ ((o : PublishOrder) × (find_order w.job.order_id w ≡ some o))

init_deploy_job_status-IsReady :
    (order_delay : Option ℕ) (w : World)
    → IsReady w
    → ((init_deploy_job_status order_delay w).1 ≡ ok tt)
      × IsReady (init_deploy_job_status order_delay w).0
      × ((init_deploy_job_status order_delay w).0.job ≡ record w.job { status = 3 })
unfolding init_deploy_job_status find_order save_order update_apps
init_deploy_job_status-IsReady order_delay w (inl named) =
    let none_named = eq_iff w.job.order_id "" in
    (
      ground (arith, named, none_named),
      inl (ground (arith, named, none_named)),
      ground (arith, named, none_named),
    )
init_deploy_job_status-IsReady order_delay w (inr found) =
    let marked = first_where-marked w.job.order_id 3 found.0 w.orders found.1 in
    elim (Bool-cases (w.job.order_id == "")) [
      | inl q ↦ rw q (refl, inr found, refl)
      | inr q ↦ rw (q, found.1) (refl, inr (record found.0 { status = 3 }, marked), refl)
    ]

update_deploy_job_status-IsReady :
    (cd_result : CdResult) (w : World)
    → IsReady w
    → ((update_deploy_job_status cd_result w).1 ≡ ok tt)
      × ((update_deploy_job_status cd_result w).0.job
          ≡ record w.job { status = cd_result.status; result = some cd_result })
unfolding update_deploy_job_status find_order save_order update_apps
update_deploy_job_status-IsReady cd_result w (inl named) =
    ground (arith, named, eq_iff w.job.order_id "")
update_deploy_job_status-IsReady cd_result w (inr found) = ground (arith, found.1)

conclude-IsReady :
    (t : Target) (ks : List Kubernetes) (clusters : List Cluster) (r : Release)
    → IsReady r.world
    → ((conclude t ks clusters r).1 ≡ ok tt)
      × ((conclude t ks clusters r).0.world.job.status
          ≡ (if all_ones (map (λ c. c.status) clusters) then 1 else 2))
      × ((conclude t ks clusters r).0.version
          ≡ (if all_ones (map (λ c. c.status) clusters) then t.image_tag else r.version))
unfolding conclude find_order
conclude-IsReady t ks clusters r ready =
    let success = all_ones (map (λ c. c.status) clusters) in
    let cd_result : CdResult = record {
      status = if success then 1 else 2;
      col_active = last_name ks;
      clusters = clusters;
    } in
    let w : World = record r.world {
      notice_delay = if success then r.world.notice_delay else 50;
    } in
    let updated = update_deploy_job_status-IsReady cd_result w ready in
    ground (arith, updated.0, updated.1)

module _ (services : Services) (order_delay : Option ℕ) (t : Target) (ks : List Kubernetes) where
  run-status :
      (r : Release)
      → IsReady r.world
      → ((run services order_delay t ks r).1 ≡ ok tt)
        × ((run services order_delay t ks r).0.world.job.status
            ≡ (if succeeds services (made_with r.world.job t) ks then 1 else 2))
        × ((run services order_delay t ks r).0.version
            ≡ (if succeeds services (made_with r.world.job t) ks then t.image_tag else r.version))
  unfolding run conclude
  run-status r ready =
      let started = init_deploy_job_status-IsReady order_delay r.world ready in
      let deployed = deploy_clusters services (made_with r.world.job t) ks r.deployed in
      let r' : Release = record r {
        world = (init_deploy_job_status order_delay r.world).0;
        deployed = deployed.1;
      } in
      let concluded = conclude-IsReady t ks deployed.0 r' started.1 in
      let clusters = deploy_clusters-map services (made_with r.world.job t) ks r.deployed in
      ground (arith, started.0, concluded.0, concluded.1, concluded.2, clusters)

succeeds-All :
    (services : Services) (t : Target) (k : Kubernetes) (rest : List Kubernetes)
    → (succeeds services t (k ∷ rest) ≡ true) ↔ All (IsDeployable services t) (k ∷ rest)
succeeds-All services t k rest =
    let ones =
      all_ones-All (deploy_cluster services t k).status
        (map (λ c. c.status) (map (deploy_cluster services t) rest)) in
    let each = map-status services t (k ∷ rest) in (λ q. each.0 (ones.0 q), λ a. ones.1 (each.1 a))

module _ (services : Services) (order_delay : Option ℕ) (t : Target) (k : Kubernetes)
    (rest : List Kubernetes) (r : Release) where
  -- A job of an order that exists, or of none, runs to its end over its clusters, of which it has
  -- one at least. If every step succeeds on each of them the job gets the status 1 and the application
  -- the version of the image; otherwise the job gets the status 2 and the version stays.
  pub run-success :
      IsReady r.world
      → ((run services order_delay t (k ∷ rest) r).1 ≡ ok tt)
        × ((All (IsDeployable services (made_with r.world.job t)) (k ∷ rest)
              × ((run services order_delay t (k ∷ rest) r).0.world.job.status ≡ 1)
              × ((run services order_delay t (k ∷ rest) r).0.version ≡ t.image_tag))
            ⊎ ((¬ All (IsDeployable services (made_with r.world.job t)) (k ∷ rest))
                × ((run services order_delay t (k ∷ rest) r).0.world.job.status ≡ 2)
                × ((run services order_delay t (k ∷ rest) r).0.version ≡ r.version)))
  run-success ready =
      let ended = run-status services order_delay t (k ∷ rest) r ready in
      let made = made_with r.world.job t in
      let each = succeeds-All services made k rest in
      elim (Bool-cases (succeeds services made (k ∷ rest))) [
        | inl q ↦ (ended.0, inl (each.0 q, ground (arith, ended.1, q), ground (arith, ended.2, q)))
        | inr q ↦ (
          ended.0,
          inr (
            λ a. ground (arith, q, each.1 a),
            ground (arith, ended.1, q),
            ground (arith, ended.2, q),
          ),
        )
      ]
