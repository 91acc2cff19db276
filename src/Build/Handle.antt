-- ===== src/Build/Handle.antt =====
-- app_build_handle of apps/deploy/ext_func.py: the request for a build, from the job of Jenkins to the
-- row of the build. Copies of rows in the cache and in Elasticsearch are left out.
use Prim.Native.String.{◌++◌ as append}
use devops_backend.Prelude.{
  ℕ, suc, String, Bool, true, false, Option, none, some, List, [], ◌∷◌, ◌++◌, not, ◌==◌, text_key,
  if◌then◌else◌, ◌||◌,
}
use devops_backend.Outcome.{Result, ok, err, ◌>>=◌, or_raise, type_error, unbound_local_error}
use devops_backend.Text.{split, replace, last}
use devops_backend.Build.Jenkins.{BuildJob, BuildReply, started, refused, start_build}

-- the room of a cluster: its registry, and whether images are passed on by an operations host
pub record Idc : Type 0 where
  pub repo : ℕ
  pub forward : Bool
  pub ops : Option String

-- the application: its first cluster with its room, if there are such
pub record BuildApp : Type 0 where
  pub id : ℕ
  pub name : String
  pub category : String
  pub is_k8s : String
  pub namespace : String
  pub cluster : Option (Option Idc)

pub record StartRequest : Type 0 where
  pub short_id : Option String
  pub commit_tag : Option (String × String)
  pub modules : String
  pub custom_tag : Option String
  pub is_deploy : Bool
  pub batch_uuid : Option String

-- a row of BuildJob
pub record BuildRow : Type 0 where
  pub id : ℕ
  pub appinfo_id : ℕ
  pub status : ℕ
  pub build_number : ℕ
  pub queue_number : ℕ
  pub image : String
  pub modules : String
  pub is_deploy : Bool
  pub batch_uuid : Option String

-- the rows, and the queue numbers for which build_number_binding is queued
pub record BuildDb : Type 0 where
  pub next_build_id : ℕ
  pub rows : List BuildRow
  pub bindings : List (ℕ × ℕ)

-- the replies of Jenkins and of the registry, and what is read before them: the rows of the language and
-- of the configuration, the time, REMOTE_HOSTS of the data dictionary, the check of the serializer
pub record BuildWorld : Type 0 where
  pub configured : Result (Unit {0})
  pub stamp : String
  pub number_text : ℕ → String
  pub job_exists : Result Bool
  pub make_job : Result (Unit {0})
  pub in_queue : Result Bool
  pub next_number : Result ℕ
  pub harbor_cli : ℕ → Result Bool
  pub remote_hosts : Option String
  pub is_valid : BuildRow → Bool
  pub still_exists : Result Bool
  pub create_again : Result (Unit {0})
  pub parameters : Result (Unit {0})
  pub reply : BuildReply

-- the job of Jenkins, made where it is missing; true if it waits in the queue
unfoldable pub ready_job : BuildWorld → Result Bool
ready_job w = w.job_exists >>= λ there. (if there then ok tt else w.make_job) >>= λ _. w.in_queue

-- the tag of the image
unfoldable pub build_image_tag : BuildWorld → StartRequest → ℕ → Result String
build_image_tag w r number = or_raise type_error r.short_id >>= λ short_id. ok (
    custom r.custom_tag
      (append (w.number_text number) (append "_" (append w.stamp (append "_" short_id)))))
  where
    custom : Option String → String → String
    custom none tag = tag
    custom (some given) tag = if given == "" then tag else given

-- the checks of the room: the registry answers, and an operations host is named where images are passed on
unfoldable pub check_idc : BuildWorld → Option Idc → Bool
check_idc w none = false
check_idc w (some idc) = elim (w.harbor_cli idc.repo) [
  | err e ↦ false
  | ok false ↦ false
  | ok true ↦ not idc.forward || named idc.ops
]
  where
    named : Option String → Bool
    named none = false
    named (some ops) = not (ops == "")

-- the target of the build: true if it has one. A server that is not on Kubernetes reads a variable that
-- only the other branch sets.
unfoldable pub check_target : BuildWorld → BuildApp → Result Bool
check_target w app =
    if last (split "." app.category) == "server"
    then (if app.is_k8s == "k8s"
        then ok (elim app.cluster [ none ↦ false | some idc ↦ check_idc w idc ])
        else err unbound_local_error)
    else ok (elim w.remote_hosts [ none ↦ false | some host ↦ true ])

abbrev pub is_front : BuildApp → Bool
is_front app = app.category == "category.front"

unfoldable pub new_row : BuildApp → StartRequest → ℕ → String → BuildDb → BuildRow
new_row app r number tag db =
    let image =
      append app.namespace (append "/" (append (replace "." "-" app.name) (append ":" tag))) in
    let module_part = last (split ":" r.modules) in
    record {
      id = db.next_build_id;
      appinfo_id = app.id;
      status = 3;
      build_number = number;
      queue_number = 0;
      image = if is_front app then append image (append "_" module_part) else image;
      modules = if is_front app then module_part else "";
      is_deploy = r.is_deploy;
      batch_uuid = r.batch_uuid;
    }

-- True with the row, or False with a message
pub data Handled : Type 0 where
  building : BuildRow → Handled
  declined : Handled

abbrev pub with_row : BuildRow → BuildDb → BuildDb
with_row row db = record db { next_build_id = suc db.next_build_id; rows = row ∷ db.rows }

-- behind the row: the build of Jenkins; a refusal or an exception rolls back to the savepoint
unfoldable pub jenkins_job : BuildRow → BuildJob
jenkins_job row = record {
  id = row.id;
  build_number = row.build_number;
  queue_number = row.queue_number;
  status = row.status;
}

unfoldable pub trigger_build : BuildWorld → BuildRow → BuildDb → BuildDb × Handled
trigger_build w row db = elim w.parameters [
  | err e ↦ (db, declined)
  | ok _ ↦ elim (start_build (jenkins_job row) w.reply) [
    | refused message ↦ (db, declined)
    | started job ↦ bound (record row { queue_number = job.queue_number })
  ]
]
  where
    bound : BuildRow → BuildDb × Handled
    bound saved = (
      record (with_row saved db) { bindings = db.bindings ++ (saved.id, saved.queue_number) ∷ [] },
      building saved,
    )

-- the job of Jenkins is looked for once more; an exception there keeps the row
unfoldable pub start_row : BuildWorld → BuildRow → BuildDb → BuildDb × Handled
start_row w row db = elim (w.still_exists >>= λ there. if there then ok tt else w.create_again) [
  | err e ↦ (with_row row db, declined)
  | ok _ ↦ trigger_build w row db
]

unfoldable pub app_build_handle :
    BuildWorld → BuildApp → StartRequest → BuildDb → BuildDb × Result Handled
app_build_handle w app r db = elim w.configured [
  | err e ↦ (db, err e)
  | ok _ ↦ elim (ready_job w) [
    | err e ↦ (db, ok declined)
    | ok true ↦ (db, ok declined)
    | ok false ↦ answered (
        w.next_number >>= λ number. build_image_tag w r number >>= λ tag.
        check_target w app >>= λ has_target. ok (if has_target then some (number, tag) else none))
  ]
]
  where
    saved : BuildRow → BuildDb × Handled
    saved row = if w.is_valid row then start_row w row db else (db, declined)

    answered : Result (Option (ℕ × String)) → BuildDb × Result Handled
    answered (err e) = (db, ok declined)
    answered (ok none) = (db, ok declined)
    answered (ok (some (number, tag))) =
        let done = saved (new_row app r number tag db) in (done.0, ok done.1)
