-- ===== src/Build/Jenkins.antt =====
-- The class JenkinsBuild and the tasks around it, of qtasks/tasks_build.py. The replies of Jenkins
-- are parameters, which may differ from call to call.
use devops_backend.Prelude.{
  ℕ, zero, suc, String, Bool, true, false, Option, none, some, List, [], ◌∷◌, ◌&&◌, ◌||◌, ◌==◌,
  text_key, number_key, if◌then◌else◌, ltb, contains,
}
use devops_backend.Outcome.{Result, ok, err, key_error}

pub record BuildJob : Type 0 where
  pub id : ℕ
  pub build_number : ℕ
  pub queue_number : ℕ
  pub status : ℕ

-- JENKINS_STATUS_MAP; any other status is a KeyError
unfoldable pub status_map : String → Result ℕ
status_map status =
    if status == "IN_PROGRESS"
    then ok 3
    else if status == "SUCCESS"
    then ok 1
    else if status == "FAILED" || status == "FAILURE"
    then ok 2
    else if status == "ABORTED"
    then ok 4
    else if status == "NOT_EXECUTED" || status == "NOT_EXEC_TIMEOUT"
    then ok 5
    else err key_error

-- `number` of the executable of a queue item, 0 being none
unfoldable pub executable : Option ℕ → ℕ
executable none = 0
executable (some number) = number

-- the loop of `queue` from a count, with fuel; each round asks for the item once
unfoldable pub queue_from : ℕ → (ℕ → Result (Option ℕ)) → ℕ → Option (Result (Bool × ℕ))
queue_from zero items count = none
queue_from (suc fuel) items count =
    let again = queue_from fuel items (suc count) in
    elim (items count) [
      | err e ↦ some (err e)
      | ok item ↦
          if executable item == 0
          then (if ltb 600 (suc count) then some (ok (false, 0)) else again)
          else some (ok (true, executable item))
    ]

unfoldable pub queue : (ℕ → Result (Option ℕ)) → Option (Result (Bool × ℕ))
queue items = queue_from 601 items 0

-- build_number_binding: a job that has no number yet gets that of its queue item. All exceptions are
-- swallowed. The second value is the row of the job afterwards.
unfoldable pub build_number_binding :
    Option BuildJob → (ℕ → Result (Option ℕ)) → Option (Bool × Option BuildJob)
build_number_binding none items = some (false, none)
build_number_binding (some job) items =
    if job.build_number == 0
    then elim (queue items) [
      | none ↦ none
      | some (err e) ↦ some (false, some job)
      | some (ok (found, number)) ↦
          if found
          then some (true, some (record job { build_number = number }))
          else some (false, some job)
    ]
    else some (false, some job)

-- what a round of jenkins_log_stage sees: an exception, or the status of the flow
pub data Poll : Type 0 where
  raised : Poll
  flow : String → Poll

-- JenkinsBuild.log_stage: the exception of the call is caught, but the missing result then raises
unfoldable pub log_stage : Option BuildJob → Result String → Poll
log_stage none detail = raised
log_stage (some job) (err e) = raised
log_stage (some job) (ok status) = flow status

unfoldable pub is_final : String → Bool
is_final status = contains ("SUCCESS" ∷ "FAILED" ∷ "ABORTED" ∷ "FAILURE" ∷ []) status

pub data Message : Type 0 where
  stages : String → Message
  not_executed_timeout : Message
  in_progress_timeout : Message
  done : Message

-- the message of a round, after `count` has been raised
unfoldable pub round_message : ℕ → String → Message
round_message count status =
    if ltb 900 count && status == "IN_PROGRESS"
    then in_progress_timeout
    else if ltb 600 count && status == "NOT_EXECUTED"
    then not_executed_timeout
    else stages status

-- the test after the message, which also holds where one of the timeouts has ended the loop
unfoldable pub is_last : ℕ → String → Bool
is_last count status = ltb 600 count || is_final status

-- the loop of jenkins_log_stage from a count, with fuel: an exception goes on to the next round
unfoldable pub log_stages_from : ℕ → (ℕ → Poll) → ℕ → Option (List Message)
log_stages_from zero polls count = none
log_stages_from (suc fuel) polls count =
    let again = log_stages_from fuel polls (suc count) in
    elim (polls (suc count)) [
      | raised ↦ again
      | flow status ↦
          if is_last (suc count) status
          then some (round_message (suc count) status ∷ done ∷ [])
          else elim again [
            | none ↦ none
            | some messages ↦ some (round_message (suc count) status ∷ messages)
          ]
    ]

-- the tuples that JenkinsBuild.build returns
pub data BuildReply : Type 0 where
  pair : Bool → String → BuildReply
  triple : Bool → Option ℕ → String → BuildReply

-- JenkinsBuild.build, from `inQueue` of the job's info and the number that build_job returns
unfoldable pub build : Result Bool → Result ℕ → BuildReply
build (err e) number = pair false "获取Jenkins JOB失败，可能job不存在或者jenkins未运行，联系运维检查！"
build (ok in_queue) number = if in_queue then pair false "Jenkins job 排队中 请稍后再试" else elim number [
  | err e ↦ triple false none "构建异常"
  | ok n ↦ if n == 0 then triple false none "Jenkins任务异常." else triple true (some n) ""
]

-- what app_build_handle makes of it: the job with its queue number, or a message
pub data Started : Type 0 where
  started : BuildJob → Started
  refused : String → Started

-- `ok, queue_number, msg = jbuild.build(params)` under its `except Exception`
unfoldable pub start_build : BuildJob → BuildReply → Started
start_build job (pair ok_so msg) =
    refused "创建构建任务失败, ERROR: not enough values to unpack (expected 3, got 2)"
start_build job (triple ok_so queue_number msg) =
    if ok_so
    then elim queue_number [
      | none ↦ started job
      | some n ↦ started (record job { queue_number = n })
    ]
    else refused msg
