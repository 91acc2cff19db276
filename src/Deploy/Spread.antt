-- ===== src/Deploy/Spread.antt =====
-- The status of a job that JarDeploy of qtasks/tasks_deploy.py runs on hosts.
use devops_backend.Prelude.{
  ℕ, ◌≤◌, ◌<◌, String, ◌≡◌, ◌⊎◌, inl, inr, refl, Bool, true, false, Option, none, some, List, ◌||◌,
  text_key, number_key, arith, all, length, distinct, Bool-cases,
}
use devops_backend.Outcome.{ok}
use devops_backend.Deploy.Orders.{PublishApp, World, save_order, jar_task_over}
use devops_backend.Deploy.Hosts.{Playbook, Site, jar_over, jar_result, jar_run}

jar_over-status :
    (status deployed hosts : ℕ) (app : Option PublishApp) (w : World)
    → (jar_over status deployed hosts app w).0.job.status ≡ status
unfolding jar_over jar_task_over save_order
jar_over-status status deployed hosts none w = refl
jar_over-status status deployed hosts (some app) w = ground arith

-- the status of a job whose playbook has ended
abbrev pub Judged : Playbook → List Bool → List String → List String → ℕ → Type 0
Judged res step_status target_hosts hosts status =
    (((res.failed || res.unreachable) ≡ true) × (status ≡ 2))
    ⊎ (((res.failed || res.unreachable) ≡ false)
        × (((all (λ b. b) step_status ≡ true)
              × (((length (distinct target_hosts) < length hosts) × (status ≡ 11))
                  ⊎ ((length hosts ≤ length (distinct target_hosts)) × (status ≡ 1))))
            ⊎ ((all (λ b. b) step_status ≡ false)
                × (((length (distinct target_hosts) < length hosts) × (status ≡ 12))
                    ⊎ ((length hosts ≤ length (distinct target_hosts)) × (status ≡ 2))))))

jar_result-cases :
    (step_status : List Bool) (deployed hosts : ℕ)
    → ((all (λ b. b) step_status ≡ true)
        × (((deployed < hosts) × (jar_result step_status deployed hosts ≡ 11))
            ⊎ ((hosts ≤ deployed) × (jar_result step_status deployed hosts ≡ 1))))
      ⊎ ((all (λ b. b) step_status ≡ false)
          × (((deployed < hosts) × (jar_result step_status deployed hosts ≡ 12))
              ⊎ ((hosts ≤ deployed) × (jar_result step_status deployed hosts ≡ 2))))
unfolding jar_result
jar_result-cases step_status deployed hosts = ground arith

-- A playbook that ends without an exception gives the job the status 2 if it failed or missed a host;
-- otherwise 1 if every step succeeded and 2 if not, with 10 added while the application has more hosts
-- than were deployed to.
pub jar_run-Judged :
    (res : Playbook) (step_status : List Bool) (src_tag : String) (target_hosts hosts : List String)
    (app : Option PublishApp) (s : Site)
    → (s' : Site) × (jar_run (ok res) step_status src_tag target_hosts hosts app s ≡ ok s')
      × Judged res step_status target_hosts hosts s'.world.job.status
unfolding jar_run
jar_run-Judged res step_status src_tag target_hosts hosts app s =
    let deployed = length (distinct target_hosts) in
    let status = jar_result step_status deployed (length hosts) in
    let failed_status = jar_over-status 2 deployed (length hosts) app s.world in
    let done_status = jar_over-status status deployed (length hosts) app s.world in
    let result = jar_result-cases step_status deployed (length hosts) in
    elim (Bool-cases (res.failed || res.unreachable)) [
      | inl q ↦ rw q (_, refl, inl (refl, failed_status))
      | inr q ↦ rw q (_, refl, inr (refl, rw done_status result))
    ]
