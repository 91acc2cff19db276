-- ===== src/Deploy/Live.antt =====
-- What the status 1 of a deployment tells of its clusters.
use devops_backend.Prelude.{
  ℕ, String, ◌≡◌, inl, inr, Bool, true, false, Option, List, [], ◌∷◌, ◌==◌, text_key, arith,
  if◌then◌else◌, All,
}
use devops_backend.Deploy.Model.{Stat}
use devops_backend.Deploy.Flow.{Kubernetes, Services, Target, checked_tag}
use devops_backend.Deploy.Stages.{entry, HasPassed}
use devops_backend.Deploy.Clusters.{Release, made_with, run}
use devops_backend.Deploy.Release.{IsReady, IsDeployable, run-success}
use devops_backend.Deploy.Check.{Deployment, Api, run_check}
use devops_backend.Deploy.Running.{Running, run_check-Running}

-- the last stage of every cluster is the check over that cluster's answers
unfoldable pub IsChecked : Services → (Kubernetes → Api) → ℕ → Type 0
IsChecked services api count =
    (k8s : Kubernetes) (name : String) (tag : Option String)
    → services.check_app_deploy k8s name tag ≡ (run_check (api k8s) tag count 0).0

-- a deployment of the cluster that was seen running
abbrev pub IsLive : Api → Option String → Type 0
IsLive api tag = (d : Deployment) × Running api tag d

entry-stat : (name : String) (o : Stat) → (entry name o).status ≡ 1 → o.stat ≡ 1
unfolding entry
entry-stat name o passed = ground (arith, passed)

last-All :
    (P : String × Stat → Type 0) (b : Bool) (x a c : String × Stat)
    → All P (if b then a ∷ c ∷ [] else x ∷ a ∷ c ∷ [])
    → P c
last-All P true x a c all = all.1.0
last-All P false x a c all = all.1.1.0

IsDeployable-check :
    (services : Services) (t : Target) (k8s : Kubernetes)
    → IsDeployable services t k8s
    → (services.check_app_deploy k8s t.deployment_name (checked_tag t)).stat ≡ 1
IsDeployable-check services t k8s good =
    let o = services.check_app_deploy k8s t.deployment_name (checked_tag t) in
    entry-stat "状态检测" o (last-All HasPassed (t.order_id == "") _ _ ("状态检测", o) good.1)

IsDeployable-IsLive :
    (services : Services) (api : Kubernetes → Api) (count : ℕ) (t : Target) (ks : List Kubernetes)
    → IsChecked services api count
    → All (IsDeployable services t) ks
    → All (λ k. IsLive (api k) (checked_tag t)) ks
unfolding IsChecked
IsDeployable-IsLive services api count t [] checked all = tt
IsDeployable-IsLive services api count t (k ∷ ks) checked all = (
  elim (run_check-Running (api k) (checked_tag t) count 0) [
    | inl failed ↦ absurd (
        ground (
          arith,
          failed,
          IsDeployable-check services t k all.0,
          checked k t.deployment_name (checked_tag t),
        ))
    | inr live ↦ (live.1.0, live.1.2)
  ],
  IsDeployable-IsLive services api count t ks checked all.1,
)

-- If a job of an order that exists, or of none, gets the status 1, then on each of its clusters the
-- check has seen a replica set of the deployment's revision that is up, whose image ends in the job's
-- tag where there is a tag and an image to compare, and at the next call a pod that runs, with a first
-- container that runs and is ready; the last stage being the check over the answers of that cluster.
pub run-IsLive :
    (services : Services) (api : Kubernetes → Api) (count : ℕ) (order_delay : Option ℕ) (t : Target)
    (k : Kubernetes) (rest : List Kubernetes) (r : Release)
    → IsChecked services api count
    → IsReady r.world
    → (run services order_delay t (k ∷ rest) r).0.world.job.status ≡ 1
    → All (λ c. IsLive (api c) (checked_tag t)) (k ∷ rest)
unfolding made_with
run-IsLive services api count order_delay t k rest r checked ready success =
    elim (run-success services order_delay t k rest r ready).1 [
      | inl good ↦
          IsDeployable-IsLive services api count (made_with r.world.job t) (k ∷ rest) checked good.0
      | inr bad ↦ absurd (ground (arith, bad.1, success))
    ]
