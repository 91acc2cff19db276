-- ===== src/Build/Tests.antt =====
-- A queue item, a flow and a job, and the theorems at them.
use devops_backend.Prelude.{
  ℕ, suc, ◌≤◌, ◌≡◌, ◌⊎◌, refl, Bool, true, false, Option, none, some, List, [], ◌∷◌, ◌++◌, arith,
  if◌then◌else◌, ltb, length, ◌≢◌,
}
use devops_backend.Outcome.{Result, ok}
use devops_backend.Build.Jenkins.{BuildJob, status_map, queue, Poll, raised, flow}
use devops_backend.Build.Polling.{Answer, queue-Answer}
use devops_backend.Build.Finish.{
  Store, build_callback, HasEnded, build_callback-HasEnded, IsTrimmed,
}

-- an item that gets its number at the third question
abbrev items : ℕ → Result (Option ℕ)
items k = if ltb k 2 then ok none else ok (some 17)

-- a flow that answers once it is asked for the 601st time
abbrev polls : ℕ → Poll
polls k = if ltb k 601 then raised else flow "IN_PROGRESS"

abbrev one : ℕ
one = 1

abbrev job : BuildJob
job = record { id = 3; build_number = 17; queue_number = 5; status = 3 }

abbrev store : Store
store = record {
  job = some job;
  marked = false;
  images = [];
  latest_success = none;
  latest = none;
  results = [];
  again = 0;
}

success : status_map "SUCCESS" ≡ ok 1
unfolding status_map
success = refl

has_ended : HasEnded "SUCCESS" 1
has_ended = (success, ground arith)

queue-Answer_example : (r : Result (Bool × ℕ)) × (queue items ≡ some r) × Answer items 601 r
queue-Answer_example = queue-Answer items

build_callback-HasEnded_example :
    (s' : Store) × (build_callback 10 true (ok "SUCCESS") store ≡ (s', ok tt))
    × (s'.job ≡ some (record job { status = 1 }))
    × (s'.results ≡ [] ++ job.id ∷ [])
    × (length s'.images ≤ suc 10)
    × (((one ≡ 1)
          × (true ≡ true)
          × ((rest : List BuildJob) × (s'.images ≡ record job { status = 1 } ∷ rest)
              × IsTrimmed 10 [] rest))
        ⊎ (((one ≢ 1) ⊎ (true ≡ false)) × (s'.images ≡ [])))
build_callback-HasEnded_example =
    build_callback-HasEnded 10 true "SUCCESS" one job store refl has_ended (omega arith)
