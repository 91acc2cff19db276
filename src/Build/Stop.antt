-- ===== src/Build/Stop.antt =====
-- stop_job, build_callback and build_result of BuildJobViewSet in apps/deploy/views.py.
use devops_backend.Prelude.{
  ℕ, String, Bool, true, false, Option, none, some, List, [], ◌∷◌, ◌++◌, map, ◌&&◌, not, ◌==◌,
  text_key, number_key, if◌then◌else◌, first_where, contains, select,
}
use devops_backend.Outcome.{Result, ok, err, Error}
use devops_backend.Build.Handle.{BuildRow}

-- the rows, and the jobs for which jenkins_callback_handle is queued
pub record StopDb : Type 0 where
  pub stop_rows : List BuildRow
  pub callbacks : List ℕ

-- what Jenkins answers to a stop: it stops, it has no such build, or it fails otherwise
pub data StopReply : Type 0 where
  stopped not_found : StopReply
  broken : Error → StopReply

abbrev pub set_row_status : ℕ → ℕ → List BuildRow → List BuildRow
set_row_status key status rows =
    map (λ r. if r.id == key then record r { status = status } else r) rows

-- the loop over the jobs: those that do not build are passed over; what an exception leaves behind stays,
-- the view has no transaction
unfoldable pub stop_jobs :
    (ℕ → StopReply) → List ℕ → List BuildRow → StopDb → StopDb × Result (Unit {0})
stop_jobs jenkins noted [] db = (db, ok tt)
stop_jobs jenkins noted (job ∷ jobs) db =
    let passed = stop_jobs jenkins noted jobs db in
    let done : StopDb = record {
      stop_rows = set_row_status job.id 4 db.stop_rows;
      callbacks = if contains noted job.id then db.callbacks else db.callbacks ++ job.id ∷ [];
    } in
    let rest = stop_jobs jenkins noted jobs done in
    if not (job.status == 3)
    then passed
    else elim (jenkins job.build_number) [ broken e ↦ (db, err e) | _ ↦ rest ]

abbrev pub is_batch : String → Option String → Bool
is_batch batch none = false
is_batch batch (some b) = b == batch

-- the jobs of the same batch, or the one job
unfoldable pub stop_batch : BuildRow → StopDb → List BuildRow
stop_batch job db = in_batch job.batch_uuid
  where
    in_batch : Option String → List BuildRow
    in_batch none = job ∷ []
    in_batch (some batch) =
        if batch == ""
        then job ∷ []
        else select (λ r. r.appinfo_id == job.appinfo_id && is_batch batch r.batch_uuid)
            db.stop_rows

pub record StopRequest : Type 0 where
  pub appinfo_known : Bool
  pub job_id : ℕ
  pub stop_build : Option String

-- the code of the reply
unfoldable pub stop_job : (ℕ → StopReply) → List ℕ → StopRequest → StopDb → StopDb × Result ℕ
stop_job jenkins noted r db =
    if not r.appinfo_known
    then (db, ok 40000)
    else if asked r.stop_build
    then elim (first_where (λ j. j.id == r.job_id) db.stop_rows) [
      | none ↦ (db, ok 20000)
      | some job ↦ replied (stop_jobs jenkins noted (stop_batch job db) db)
    ]
    else (db, ok 50000)
  where
    asked : Option String → Bool
    asked none = false
    asked (some flag) = flag == "1"

    replied : StopDb × Result (Unit {0}) → StopDb × Result ℕ
    replied (after, err e) = (after, err e)
    replied (after, ok _) = (after, ok 20000)

-- build_callback of the view: the code and the HTTP status, and whether the callback is queued
unfoldable pub callback_request : Option ℕ → Option ℕ → (ℕ × ℕ) × Bool
callback_request none appinfo_id = ((50000, 200), false)
callback_request (some job_id) none = ((50000, 500), false)
callback_request (some job_id) (some appinfo_id) = ((20000, 200), true)

-- build_result: the stored output, or none and the callback queued once more
unfoldable pub build_result : ℕ → List BuildRow → List (ℕ × String) → Option (Option String)
build_result pk rows results = elim (first_where (λ j. j.id == pk) rows) [
  | none ↦ none
  | some job ↦ some (elim (first_where (λ r. r.0 == pk) results) [
    | none ↦ none
    | some r ↦ if not (job.status == 3) && not (r.1 == "") then some r.1 else none
  ])
]
