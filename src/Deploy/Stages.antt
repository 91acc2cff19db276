-- ===== src/Deploy/Stages.antt =====
-- What the stages of a deployment to one cluster leave in its result, against the list of the steps
-- that the deployment is made of.
use devops_backend.Prelude.{
  String, ◌≡◌, ◌≢◌, ◌↔◌, ◌⊎◌, inl, inr, refl, sym, ap, ◌∙◌, List, [], ◌∷◌, map, ◌==◌, text_key,
  number_key, arith, if◌then◌else◌, All, Bool-cases,
}
use devops_backend.Outcome.{ok, err}
use devops_backend.Deploy.Model.{logs, Stat, Stage}
use devops_backend.Deploy.Ones.{all_ones-All}
use devops_backend.Deploy.Flow.{
  Kubernetes, Services, Target, new_flow, and_then, validate_stat, init_stage, stage_index,
  save_stage_result, get_k8s_client, stage_get_k8s_client, image_sync, app_deploy, run_stage,
  synced_image, stage_image_sync, stage_app_deploy, checked_tag, stage_app_deploy_status,
  deploy_flow_standard, generate_deploy_status, deploy_cluster,
}

-- the steps of a deployment once the cluster is connected, with what they return
abbrev pub planned : Services → Kubernetes → Target → List (String × Stat)
planned services k8s t =
    let rest =
      ("应用部署", app_deploy services k8s t.deployment_name)
      ∷ ("状态检测", services.check_app_deploy k8s t.deployment_name (checked_tag t))
      ∷ [] in
    if t.order_id == ""
    then rest
    else ("镜像同步", image_sync services t.image_repo (synced_image t) t.image_tag) ∷ rest

-- what a step leaves: its status with its logs, or the status 0 where its logs cannot be written
unfoldable pub entry : String → Stat → Stage
entry stage_name o = elim (logs o.ret) [
  | ok text ↦ record { name = stage_name; status = o.stat; logs = text }
  | err e ↦ record { name = stage_name; status = 0; logs = "" }
]

-- the entries up to the first step that has not the status 1
abbrev pub recorded : List (String × Stat) → List Stage
recorded [] = []
recorded (p ∷ ps) =
    let rest = recorded ps in entry p.0 p.1 ∷ (if (entry p.0 p.1).status == 1 then rest else [])

abbrev pub HasPassed : String × Stat → Type 0
HasPassed p = (entry p.0 p.1).status ≡ 1

recorded-All :
    (ps : List (String × Stat))
    → All (λ n. n ≡ 1) (map (λ s. s.status) (recorded ps)) ↔ All HasPassed ps
recorded-All [] = (λ u. tt, λ u. tt)
recorded-All (p ∷ ps) =
    let ih = recorded-All ps in
    (λ q. (q.0, ih.0 (ground (arith, q.0, q.1))), λ q. (q.0, ground (arith, q.0, ih.1 q.1)))

-- an order's deployment and one without an order
pub flow-recorded :
    (services : Services) (k8s : Kubernetes) (t : Target)
    → (deploy_flow_standard services k8s t new_flow).0.stages ≡ recorded (planned services k8s t)
unfolding deploy_flow_standard and_then validate_stat init_stage stage_index save_stage_result
    run_stage stage_image_sync stage_app_deploy stage_app_deploy_status entry
flow-recorded services k8s t = ground arith

get_k8s_client-cases :
    (services : Services) (k8s : Kubernetes)
    → ((get_k8s_client services k8s).stat ≡ 1) ⊎ ((get_k8s_client services k8s).stat ≡ 2)
unfolding get_k8s_client
get_k8s_client-cases services k8s = ground arith

module _ (services : Services) (k8s : Kubernetes) (t : Target) where
  -- the stages of a cluster that cannot be connected
  pub deploy_cluster-unconnected :
      (get_k8s_client services k8s).stat ≡ 2
      → (deploy_cluster services t k8s).stages ≡ entry "连接K8S集群" (get_k8s_client services k8s) ∷ []
  unfolding deploy_cluster stage_get_k8s_client and_then validate_stat init_stage stage_index
      save_stage_result entry
  deploy_cluster-unconnected failed = ground (arith, failed)

  -- the stages of a cluster that is connected
  pub deploy_cluster-connected :
      (get_k8s_client services k8s).stat ≡ 1
      → (deploy_cluster services t k8s).stages ≡ recorded (planned services k8s t)
  unfolding deploy_cluster stage_get_k8s_client and_then validate_stat
  deploy_cluster-connected connected = ground (arith, connected, flow-recorded services k8s t)

-- a status of stages is 1 exactly if every stage has the status 1
generate_deploy_status-All :
    (s : Stage) (ss : List Stage)
    → (generate_deploy_status (s ∷ ss) ≡ 1) ↔ All (λ n. n ≡ 1) (map (λ r. r.status) (s ∷ ss))
unfolding generate_deploy_status
generate_deploy_status-All s ss =
    let ones = all_ones-All s.status (map (λ r. r.status) ss) in
    (λ q. ones.0 (ground (arith, q)), λ a. ground (arith, ones.1 a))

generate_deploy_status-recorded :
    (p : String × Stat) (ps : List (String × Stat))
    → (generate_deploy_status (recorded (p ∷ ps)) ≡ 1) ↔ All HasPassed (p ∷ ps)
generate_deploy_status-recorded p ps =
    let rest = if (entry p.0 p.1).status == 1 then recorded ps else [] in
    let one = generate_deploy_status-All (entry p.0 p.1) rest in
    let all_passed = recorded-All (p ∷ ps) in
    (λ q. all_passed.0 (one.0 q), λ a. one.1 (all_passed.1 a))

planned-status :
    (services : Services) (k8s : Kubernetes) (t : Target)
    → (generate_deploy_status (recorded (planned services k8s t)) ≡ 1)
      ↔ All HasPassed (planned services k8s t)
planned-status services k8s t =
    let deployed : String × Stat = ("应用部署", app_deploy services k8s t.deployment_name) in
    let checked : String × Stat =
      ("状态检测", services.check_app_deploy k8s t.deployment_name (checked_tag t)) in
    let synced : String × Stat =
      ("镜像同步", image_sync services t.image_repo (synced_image t) t.image_tag) in
    elim (Bool-cases (t.order_id == "")) [
      | inl q ↦ rw q (generate_deploy_status-recorded deployed (checked ∷ []))
      | inr q ↦ rw q (generate_deploy_status-recorded synced (deployed ∷ checked ∷ []))
    ]

deploy_cluster-status :
    (services : Services) (k8s : Kubernetes) (t : Target)
    → (deploy_cluster services t k8s).status
      ≡ generate_deploy_status (deploy_cluster services t k8s).stages
unfolding deploy_cluster
deploy_cluster-status services k8s t = refl

entry-status : (name : String) (o : Stat) → o.stat ≡ 2 → (entry name o).status ≢ 1
unfolding entry
entry-status name o failed = ground (arith, failed)

module _ (services : Services) (k8s : Kubernetes) (t : Target) where
  -- A cluster gets the status 1 exactly if it is connected and each planned step, among them the
  -- synchronisation of the image for a job of an order, returns 1 with logs that can be written.
  pub deploy_cluster-success :
      ((deploy_cluster services t k8s).status ≡ 1)
      ↔ (((get_k8s_client services k8s).stat ≡ 1) × All HasPassed (planned services k8s t))
  deploy_cluster-success =
      let client = get_k8s_client services k8s in
      let status = deploy_cluster-status services k8s t in
      elim (get_k8s_client-cases services k8s) [
        | inl connected ↦
            let stages =
              ap generate_deploy_status (deploy_cluster-connected services k8s t connected) in
            let all_passed = planned-status services k8s t in
            (
              λ q. (connected, all_passed.0 (sym stages ∙ sym status ∙ q)),
              λ a. status ∙ stages ∙ all_passed.1 a.1,
            )
        | inr failed ↦
            let stages =
              ap generate_deploy_status (deploy_cluster-unconnected services k8s t failed) in
            let ones = generate_deploy_status-All (entry "连接K8S集群" client) [] in
            (
              λ q.
                  absurd
                    (entry-status "连接K8S集群" client failed (ones.0 (sym stages ∙ sym status ∙ q)).0),
              λ a. absurd (ground (arith, failed, a.0)),
            )
      ]
