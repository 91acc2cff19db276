-- ===== src/Deploy/Check.antt =====
-- The check that a deployment is running: class DeploymentCheck of common/kubernetes_utils.py. The
-- cluster answers each call by the number of the calls made before it, as its state changes.
use devops_backend.Prelude.{
  ℕ, zero, suc, String, Bool, true, false, Option, none, some, List, [], ◌∷◌, ◌&&◌, not, ◌==◌,
  text_key, number_key, if◌then◌else◌, ltb, first_where,
}
use devops_backend.Text.{split, last}
use devops_backend.Deploy.Model.{missing, ApiReply, Ret, json_text, plain_text, null_text, Stat}

-- what fetch_deployment tells of a deployment that exists
pub record Deployment : Type 0 where
  pub has_annotations : Bool
  pub has_selector : Bool
  pub revision : String

-- a replica set; `image` is that of its first container, where it has one
pub record Replica : Type 0 where
  pub revision : String
  pub image : Option String
  pub available : ℕ
  pub fully_labeled : ℕ
  pub ready : ℕ

pub data Phase : Type 0 where
  pending running succeeded failed unknown : Phase

-- the first of the container statuses of a pod
pub record Container : Type 0 where
  pub ready : Bool
  pub is_running : Bool

pub record Pod : Type 0 where
  pub phase : Phase
  pub container : Option Container
  pub json : String

-- the calls; `none` and `refused` are the answers with an error code
pub data Replicas : Type 0 where
  refused : ApiReply → Replicas
  items : List Replica → Replicas

pub record Api : Type 0 where
  pub fetch_deployment : ℕ → Option Deployment
  pub get_replica : ℕ → Replicas
  pub get_pods : ℕ → List Pod

-- `log`: the status of a pod, the reply that was refused, the two versions, or None
pub data Log : Type 0 where
  pod_status : String → Log
  refusal : ApiReply → Log
  versions : String → String → Log
  no_log : Log

unfoldable pub is_settled : Deployment → Bool
is_settled d = d.has_annotations && d.has_selector && not (d.revision == "")

-- the deployment if it is found, with the number of calls made so far
unfoldable pub check_deployment : Api → ℕ → ℕ → Option Deployment × ℕ
check_deployment api zero now = (none, suc now)
check_deployment api (suc check_count) now =
    let again = check_deployment api check_count (suc now) in
    elim (api.fetch_deployment now) [
      | none ↦ (none, suc now)
      | some d ↦ if is_settled d then (some d, suc now) else again
    ]

-- `text.split(':')[-1]`
unfoldable pub image_version : String → String
image_version image = last (split ":" image)

-- a wanted tag that the image has not; without an image the test is skipped, with a log entry
unfoldable pub is_outdated : Option String → Replica → Bool
is_outdated none rs = false
is_outdated (some tag) rs = elim rs.image [
  | none ↦ false
  | some image ↦ not (image_version image == tag)
]

unfoldable pub is_ready_replica : Replica → Bool
is_ready_replica rs = ltb 0 rs.available && ltb 0 rs.fully_labeled && ltb 0 rs.ready

unfoldable pub is_ready_pod : Replica → Pod → Bool
is_ready_pod rs pod =
    is_ready_replica rs
    && elim pod.phase [ running ↦ true | _ ↦ false ]
    && elim pod.container [ none ↦ false | some c ↦ c.ready && c.is_running ]

-- the status of the last pod that the loop has seen
unfoldable pub last_status : List Pod → Log → Log
last_status [] log = log
last_status (pod ∷ pods) log = last_status pods (pod_status pod.json)

pub record Checked : Type 0 where
  pub is_ok : Bool
  pub log : Log
  pub now : ℕ

-- an answer without replica sets has none of the revision, and is asked for again like one
unfoldable pub check_replica : Api → Option String → Deployment → ℕ → Log → ℕ → Checked
check_replica api tag d zero log now = record { is_ok = false; log = log; now = now }
check_replica api tag d (suc check_count) log now =
    let again = check_replica api tag d check_count no_log (suc now) in
    let pods = api.get_pods (suc now) in
    let later = check_replica api tag d check_count (last_status pods log) (suc (suc now)) in
    elim (api.get_replica now) [
      | refused r ↦ record { is_ok = false; log = refusal r; now = suc now }
      | items replicas ↦ elim (first_where (λ rs. rs.revision == d.revision) replicas) [
        | none ↦ again
        | some rs ↦
            if is_outdated tag rs
            then record { is_ok = false; log = outdated tag rs; now = suc now }
            else elim (first_where (is_ready_pod rs) pods) [
              | none ↦ later
              | some pod ↦ record { is_ok = true; log = pod_status pod.json; now = suc (suc now) }
            ]
      ]
    ]
  where
    outdated : Option String → Replica → Log
    outdated none rs = no_log
    outdated (some tag) rs = elim rs.image [ none ↦ no_log | some image ↦ versions image tag ]

-- `json.dumps(log)`
unfoldable pub log_text : Log → Ret
log_text (pod_status json) =
    json_text (record { ecode = none; message = none; data_field = missing; json = json })
log_text (refusal r) = json_text r
log_text (versions image tag) =
    json_text (record { ecode = none; message = none; data_field = missing; json = image })
log_text no_log = null_text

-- the loop of `run`, `count` being what is left before a round
unfoldable pub check_rounds : Api → Option String → Deployment → ℕ → ℕ → Checked
check_rounds api tag d zero now = check_replica api tag d 10 no_log now
check_rounds api tag d (suc count) now =
    let checked = check_replica api tag d 10 no_log now in
    let rest = check_rounds api tag d count checked.now in if checked.is_ok then checked else rest

unfoldable pub run_check : Api → Option String → ℕ → ℕ → Stat × ℕ
run_check api tag count now =
    let found = check_deployment api 5 now in
    elim found.0 [
      | none ↦ (record { stat = 2; ret = plain_text "Deployment检测异常" }, found.1)
      | some d ↦
          let checked = check_rounds api tag d count found.1 in
          (
            record { stat = if checked.is_ok then 1 else 2; ret = log_text checked.log },
            checked.now,
          )
    ]
