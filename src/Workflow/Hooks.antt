-- ===== src/Workflow/Hooks.antt =====
-- The calls of callbacks: apps/workflow/callback_common.py, workflow_callback of qtasks/tasks.py, and
-- the views create and retry of apps/workflow/views/callback.py. What a call sends beside its address
-- is left out.
use Prim.Native.Char.{code}
use Prim.Native.String.{◌++◌ as append}
use devops_backend.Prelude.{
  ℕ, suc, String, Bool, ◌&&◌, Option, none, some, List, [], ◌∷◌, ◌++◌, map, text_key, number_key,
  ◌==◌, if◌then◌else◌, first_where,
}
use devops_backend.Outcome.{Result, ok, err, value_error, attribute_error, does_not_exist, ◌>>=◌}
use devops_backend.Text.{is_part}

pub data HookStatus : Type 0 where
  pending success retried failed : HookStatus

-- a row of WorkflowNodeHistoryCallback; a test of a callback has no node history
pub record HookRow : Type 0 where
  pub id : ℕ
  pub node_history : Option ℕ
  pub trigger : ℕ
  pub callback_type : String
  pub callback_url : String
  pub status : HookStatus
  pub response_code : ℕ
  pub response_result : String

-- a call of async_task with workflow_callback
pub record HookTask : Type 0 where
  pub callback_type : String
  pub node_history : ℕ
  pub callback : ℕ
  pub url : String

-- the rows, newest first
pub record HookDb : Type 0 where
  pub rows : List HookRow
  pub next_id : ℕ
  pub tasks : List HookTask

-- the address of the platform, if it is configured, and the answer of a server to a post: its code and
-- text, or the message of an exception
pub record HookEnv : Type 0 where
  pub platform_url : Option String
  pub post : String → Result (ℕ × String)
  pub message : String → String

-- `url.lstrip('/')` and `url.rstrip('/')`
unfoldable pub strip_slashes : String → String
strip_slashes String.[] = ""
strip_slashes (String.◌∷◌ c s) =
    let rest = strip_slashes s in if code c == 47 then rest else String.◌∷◌ c s

unfoldable pub strip_slashes_end : String → String
strip_slashes_end String.[] = ""
strip_slashes_end (String.◌∷◌ c s) =
    let rest = strip_slashes_end s in if rest == "" && code c == 47 then "" else String.◌∷◌ c rest

-- a path is an address of the platform itself
unfoldable pub full_url : HookEnv → String → Result String
full_url env url = if is_part "://" url then ok url else elim env.platform_url [
  | none ↦ err value_error
  | some base ↦
      if base == ""
      then err value_error
      else ok (append (strip_slashes_end base) (append "/" (strip_slashes url)))
]

-- `response` of the result: an exception of the request counts as code 500
unfoldable pub callback_work : HookEnv → String → Result (ℕ × String)
callback_work env url = full_url env url >>= λ address. answered (env.post address)
  where
    answered : Result (ℕ × String) → Result (ℕ × String)
    answered (ok reply) = ok reply
    answered (err e) = ok (500, env.message url)

unfoldable pub update_row : ℕ → (HookRow → HookRow) → HookDb → HookDb
update_row id change db = record db { rows = map (λ r. if r.id == id then change r else r) db.rows }

-- the task: the response, or the text of an exception, is stored; the status stays
unfoldable pub respond_row : HookEnv → String → HookRow → HookRow
respond_row env url r = elim (callback_work env url) [
  | ok reply ↦ record r { response_code = reply.0; response_result = reply.1 }
  | err e ↦ record r { response_result = env.message url }
]

unfoldable pub workflow_callback : HookEnv → HookTask → HookDb → HookDb
workflow_callback env task db = update_row task.callback (respond_row env task.url) db

unfoldable pub insert_row : HookRow → HookDb → HookDb
insert_row r db = record db { rows = r ∷ db.rows; next_id = suc db.next_id }

unfoldable pub find_row : ℕ → HookDb → Option HookRow
find_row pk db = first_where (λ r. r.id == pk) db.rows

-- the view retry, which is no transaction: a row without a node history has no `.id`, and the new row stays
unfoldable pub retry : ℕ → ℕ → HookDb → HookDb × Result ℕ
retry pk user db = elim (find_row pk db) [
  | none ↦ (db, err does_not_exist)
  | some old ↦
      let added =
        insert_row
          record {
            id = db.next_id;
            node_history = old.node_history;
            trigger = user;
            callback_type = old.callback_type;
            callback_url = old.callback_url;
            status = pending;
            response_code = 0;
            response_result = "";
          }
          db in
      elim old.node_history [
        | none ↦ (added, err attribute_error)
        | some history ↦ (
          update_row old.id (λ r. record r { status = retried })
              (record added {
                tasks =
                    added.tasks
                    ++ record {
                      callback_type = old.callback_type;
                      node_history = history;
                      callback = db.next_id;
                      url = old.callback_url;
                    }
                      ∷ [];
              }),
          ok 20000,
        )
      ]
]

-- the row of a test after its call, and the code of the reply
unfoldable pub tested : HookEnv → HookRow → HookRow × ℕ
tested env r = elim (callback_work env r.callback_url) [
  | err e ↦ (record r { response_result = env.message r.callback_url; status = failed }, 40000)
  | ok reply ↦
      if reply.0 == 200
      then (record r { response_code = 200; response_result = reply.1; status = success }, 20000)
      else (
        record r {
          response_code = reply.0;
          response_result = env.message reply.1;
          status = failed;
        },
        40000,
      )
]

-- the view create, a transaction: a simulation is rolled back
unfoldable pub test_callback : HookEnv → Bool → ℕ → String → String → HookDb → HookDb × ℕ
test_callback env simulate user callback_type url db =
    let r = tested env record {
      id = db.next_id;
      node_history = none;
      trigger = user;
      callback_type = callback_type;
      callback_url = url;
      status = pending;
      response_code = 0;
      response_result = "";
    } in
    (if simulate then db else insert_row r.0 db, r.1)
