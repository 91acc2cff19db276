-- ===== src/Deploy/Running.antt =====
-- The class DeploymentCheck of common/kubernetes_utils.py: its answer against what the cluster showed.
use devops_backend.Prelude.{
  none, [], ◌∷◌, ℕ, zero, suc, String, ◌≡◌, ◌⊎◌, inl, inr, refl, true, false, Option, some, List,
  ◌==◌, text_key, arith, eq_iff, first_where, first_where-holds, Bool-cases, Option-cases,
  get_elem?, ◌≢◌, Bool, ◌∷◌,
}
use devops_backend.Deploy.Model.{ApiReply}
use devops_backend.Text.{split, last}
use devops_backend.Deploy.Check.{
  Container, Phase, pending, running, succeeded, failed, unknown, is_ready_replica, image_version,
  Deployment, Replica, Pod, Replicas, refused, items, Api, Log, no_log, check_deployment,
  is_outdated, is_ready_pod, last_status, check_replica, check_rounds, run_check,
}

-- an image that shows another version than the one that is wanted is not let through; one that cannot
-- be read is
abbrev pub ShowsVersion : Option String → Option String → Type 0
ShowsVersion none image = Unit
ShowsVersion (some tag) none = Unit
ShowsVersion (some tag) (some image) = last (split ":" image) ≡ tag

-- the counts of a replica set that is up
abbrev pub IsUp : Replica → Type 0
IsUp rs = (rs.available ≢ 0) × (rs.fully_labeled ≢ 0) × (rs.ready ≢ 0)

-- a pod that runs, with a first container that runs and is ready
abbrev pub IsServing : Pod → Type 0
IsServing pod =
    (pod.phase ≡ running)
    × (c : Container) × (pod.container ≡ some c)
    × (c.ready ≡ true)
    × (c.is_running ≡ true)

-- A call at which the cluster showed a replica set of the deployment's revision that is up, and the
-- next call, at which it showed a pod that serves.
pub record Running (api : Api) (tag : Option String) (d : Deployment) : Type 0 where
  pub at : ℕ
  pub replicas : List Replica
  pub rs : Replica
  pub pod : Pod
  pub index : ℕ
  pub answered : api.get_replica at ≡ items replicas
  pub found : first_where (λ r. r.revision == d.revision) replicas ≡ some rs
  pub current : rs.revision ≡ d.revision
  pub wanted : ShowsVersion tag rs.image
  pub up : IsUp rs
  pub listed : get_elem? (api.get_pods (suc at)) index ≡ some pod
  pub serving : IsServing pod

is_outdated-ShowsVersion :
    (tag : Option String) (rs : Replica) → is_outdated tag rs ≡ false → ShowsVersion tag rs.image
unfolding is_outdated image_version
is_outdated-ShowsVersion none rs q = tt
is_outdated-ShowsVersion (some tag) rs q = elim (Option-cases rs.image) [
  | inl unread ↦ rw unread tt
  | inr image ↦
      let same : last (split ":" image.0) ≡ tag =
        (eq_iff (last (split ":" image.0)) tag).0 (ground (arith, q, image.1)) in
      rw image.1 same
]

is_ready_pod-IsServing :
    (rs : Replica) (pod : Pod) → is_ready_pod rs pod ≡ true → IsUp rs × IsServing pod
unfolding is_ready_pod is_ready_replica
is_ready_pod-IsServing rs pod q = elim (Option-cases pod.container) [
  | inl empty ↦ absurd (ground (arith, q, empty))
  | inr c ↦ (
    (ground (arith, q), ground (arith, q), ground (arith, q)),
    (
      phase_of pod.phase (ground (arith, q)),
      c.0,
      c.1,
      ground (arith, q, c.1),
      ground (arith, q, c.1),
    ),
  )
]
  where
    phase_of :
        (p : Phase) → elim p as (λ x. Bool) [ running ↦ true | _ ↦ false ] ≡ true → p ≡ running
    phase_of running h = refl
    phase_of pending h = absurd (ground (arith, h))
    phase_of succeeded h = absurd (ground (arith, h))
    phase_of failed h = absurd (ground (arith, h))
    phase_of unknown h = absurd (ground (arith, h))

first_where-get_elem? :
    (p : Pod → Bool) (pods : List Pod) (pod : Pod)
    → first_where p pods ≡ some pod
    → (i : ℕ) × (get_elem? pods i ≡ some pod)
first_where-get_elem? p [] pod q = absurd (ground (arith, q))
first_where-get_elem? p (x ∷ pods) pod q = elim (Bool-cases (p x)) [
  | inl holds ↦ (0, ground (arith, q, holds))
  | inr fails ↦
      let later = first_where-get_elem? p pods pod (ground (arith, q, fails)) in
      (suc later.0, later.1)
]

Replicas-cases :
    (r : Replicas)
    → ((reply : ApiReply) × (r ≡ refused reply)) ⊎ ((rs : List Replica) × (r ≡ items rs))
Replicas-cases (refused reply) = inl (reply, refl)
Replicas-cases (items rs) = inr (rs, refl)

check_replica-Running :
    (api : Api) (tag : Option String) (d : Deployment) (check_count : ℕ) (log : Log) (now : ℕ)
    → (check_replica api tag d check_count log now).is_ok ≡ true
    → Running api tag d
unfolding check_replica
check_replica-Running api tag d zero log now is_ok = ground arith
check_replica-Running api tag d (suc n) log now is_ok =
    let again = check_replica-Running api tag d n no_log (suc now) in
    let later =
      check_replica-Running api tag d n (last_status (api.get_pods (suc now)) log)
        (suc (suc now)) in
    elim (Replicas-cases (api.get_replica now)) [
      | inl q ↦ absurd (ground (arith, q.1))
      | inr q ↦ elim (Option-cases (first_where (λ r. r.revision == d.revision) q.0)) [
        | inl r ↦ again (ground (arith, q.1, r))
        | inr r ↦ elim (Bool-cases (is_outdated tag r.0)) [
          | inl old ↦ absurd (ground (arith, q.1, r.1, old))
          | inr new ↦
              elim (Option-cases (first_where (is_ready_pod r.0) (api.get_pods (suc now)))) [
                | inl none_ready ↦ later (ground (arith, q.1, r.1, new, none_ready))
                | inr p ↦
                    let ready =
                      first_where-holds (is_ready_pod r.0) (api.get_pods (suc now)) p.0 p.1 in
                    let shown = is_ready_pod-IsServing r.0 p.0 ready in
                    let place =
                      first_where-get_elem? (is_ready_pod r.0) (api.get_pods (suc now)) p.0 p.1 in
                    record {
                      at = now;
                      replicas = q.0;
                      rs = r.0;
                      pod = p.0;
                      index = place.0;
                      answered = q.1;
                      found = r.1;
                      current =
                          (eq_iff r.0.revision d.revision).0
                            (first_where-holds (λ s. s.revision == d.revision) q.0 r.0 r.1);
                      wanted = is_outdated-ShowsVersion tag r.0 new;
                      up = shown.0;
                      listed = place.1;
                      serving = shown.1;
                    }
              ]
        ]
      ]
    ]

check_rounds-Running :
    (api : Api) (tag : Option String) (d : Deployment) (count now : ℕ)
    → (check_rounds api tag d count now).is_ok ≡ true
    → Running api tag d
unfolding check_rounds
check_rounds-Running api tag d zero now is_ok = check_replica-Running api tag d 10 no_log now is_ok
check_rounds-Running api tag d (suc count) now is_ok =
    let checked = check_replica api tag d 10 no_log now in
    elim (Bool-cases checked.is_ok) [
      | inl q ↦ check_replica-Running api tag d 10 no_log now q
      | inr q ↦ check_rounds-Running api tag d count checked.now (ground (arith, q))
    ]

-- The check returns 1 or 2, and 1 only if the deployment was found and, at one of the calls, the
-- cluster showed a replica set of its revision that is up, whose image ends in the wanted tag where
-- there is a tag and an image to compare, and at the next call a pod that runs, with a first container
-- that runs and is ready.
pub run_check-Running :
    (api : Api) (tag : Option String) (count now : ℕ)
    → ((run_check api tag count now).0.stat ≡ 2)
      ⊎ (((run_check api tag count now).0.stat ≡ 1)
          × ((d : Deployment) × ((check_deployment api 5 now).0 ≡ some d) × Running api tag d))
unfolding run_check
run_check-Running api tag count now = elim (Option-cases (check_deployment api 5 now).0) [
  | inl q ↦ inl (ground (arith, q))
  | inr q ↦
      let checked = check_rounds api tag q.0 count (check_deployment api 5 now).1 in
      elim (Bool-cases checked.is_ok) [
        | inl ok_so ↦ inr (
          ground (arith, q.1, ok_so),
          (q.0, q.1, check_rounds-Running api tag q.0 count (check_deployment api 5 now).1 ok_so),
        )
        | inr not_ok ↦ inl (ground (arith, q.1, not_ok))
      ]
]
