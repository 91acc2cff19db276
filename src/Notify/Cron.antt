-- ===== src/Notify/Cron.antt =====
-- deploy_notify_cron of qtasks/tasks.py, which runs every so often to hand over the messages that are due.
use Prim.Native.Char.{code}
use Prim.Native.String.{count, ◌++◌ as append}
use text.Mathlib.Text.{starts_with}
use devops_backend.Prelude.{
  contains, ◌++◌, ℕ, zero, suc, ◌+◌, ◌-◌, ◌*◌, ◌%◌, String, Bool, true, false, ◌&&◌, ◌||◌, not,
  Option, none, some, List, [], ◌∷◌, leb, text_key, number_key, ◌==◌, if◌then◌else◌, get_elem?,
  select, distinct,
}
use devops_backend.Outcome.{Result, ok, err, attribute_error, type_error, key_error}
use devops_backend.Text.{has_prefix, extend, split}
use devops_backend.Shared.Dict.{lookup}
use devops_backend.Notify.Model.{
  Cache, message, delay, other_value, message_prefix, delay_prefix, given,
}
use devops_backend.Notify.Queue.{has_key_prefix}

-- `text.split(separator)` for a separator of several characters
unfoldable split_text : String → ℕ → String → List String
split_text sep skip String.[] = String.[] ∷ []
split_text sep (suc skip) (String.◌∷◌ c s) = split_text sep skip s
split_text sep zero (String.◌∷◌ c s) =
    let matched = split_text sep (count sep - 1) s in
    let passed = split_text sep 0 s in
    if starts_with (String.◌∷◌ c s) sep then String.[] ∷ matched else extend c passed

-- `text.isdigit()`, of the ten digits
unfoldable is_digits : String → Bool
is_digits String.[] = true
is_digits (String.◌∷◌ c s) = let rest = is_digits s in leb 48 (code c) && leb (code c) 57 && rest

unfoldable pub order_part : String → Option String
unfolding split_text is_digits
order_part key = elim (get_elem? (split_text message_prefix 0 key) 1) [
  | none ↦ none
  | some tail ↦ elim (get_elem? (split ":" tail) 0) [
    | none ↦ none
    | some id ↦ if not (id == "") && is_digits id then some id else none
  ]
]

-- `PublishOrder.objects.get(order_id=...).status in [1, 2, 4]`; every exception is passed over
unfoldable pub order_done : (String → Option ℕ) → String → Bool
order_done status key = elim (order_part key) [
  | none ↦ false
  | some id ↦ elim (status id) [ none ↦ false | some n ↦ n == 1 || n == 2 || n == 4 ]
]

-- `(now - curr).seconds`, which leaves out the days
unfoldable pub time_diff : ℕ → ℕ → ℕ
time_diff now curr = (now + 86400 * curr - curr) % 86400

-- whether the delay of a key has passed; a value that is no delay raises
unfoldable pub delay_over : ℕ → Cache → String → Result Bool
delay_over now cache key = elim (lookup (append delay_prefix key) cache) [
  | none ↦ ok false
  | some e ↦ elim e [
    | message m ↦ err key_error
    | delay curr wait ↦ ok (leb wait (time_diff now curr))
    | other_value ↦ err type_error
  ]
]

-- `v['msg_key']` of a message that has one
unfoldable pub keys_of : Cache → List String
keys_of [] = []
keys_of ((k, e) ∷ rest) =
    let later = keys_of rest in
    elim e [
      | message m ↦ elim (given m.msg_key) [
        | none ↦ later
        | some key ↦ if has_prefix k message_prefix then key ∷ later else later
      ]
      | delay curr wait ↦ later
      | other_value ↦ later
    ]

-- the keys of the messages, without repetition
unfoldable pub message_keys : Cache → List String
message_keys cache = distinct (keys_of cache)

-- a call of `deploy_notify_queue.apply_async`
pub record CronCall : Type 0 where
  pub msg_key : String
  pub order_id : Option String
  pub robot : String
  pub title : String

-- the functions of qtasks/tasks.py with the decorator `@app.task`, which alone have `apply_async`
abbrev pub app_tasks : List String
app_tasks =
    "deploy_notify_cron" ∷ "k8s_service_create" ∷ "watch_k8s_update" ∷ "watch_k8s_deployment"
    ∷ "workflow_email_notice" ∷ []

-- the end of the loop's body, over the messages with the key: the first is read, and the queue is called
unfoldable pub apply_async :
    List String → String → Cache → List CronCall → List CronCall × Result (Unit {0})
apply_async tasks key [] calls = (calls, ok tt)
apply_async tasks key ((k, message m) ∷ rest) calls =
    if contains tasks "deploy_notify_queue"
    then (
      calls
          ++ record { msg_key = key; order_id = m.order_id; robot = m.robot; title = m.title } ∷ [],
      ok tt,
    )
    else (calls, err attribute_error)
apply_async tasks key ((k, delay curr wait) ∷ rest) calls = (calls, err key_error)
apply_async tasks key ((k, other_value) ∷ rest) calls = (calls, err type_error)

-- the body of the loop over the keys
unfoldable pub notify_key :
    List String
    → (String → Option ℕ)
    → ℕ
    → Cache
    → String
    → List CronCall
    → List CronCall × Result (Unit {0})
notify_key tasks status now cache key calls = elim (delay_over now cache key) [
  | err e ↦ (calls, err e)
  | ok over ↦
      if order_done status key || over
      then apply_async tasks key (select (has_key_prefix (append key ":")) cache) calls
      else (calls, ok tt)
]

unfoldable pub notify_keys :
    List String
    → (String → Option ℕ)
    → ℕ
    → Cache
    → List String
    → List CronCall
    → List CronCall × Result (Unit {0})
notify_keys tasks status now cache [] calls = (calls, ok tt)
notify_keys tasks status now cache (key ∷ rest) calls =
    let done = notify_key tasks status now cache key calls in
    let later = notify_keys tasks status now cache rest done.0 in
    elim done.1 [ err e ↦ (done.0, err e) | ok u ↦ later ]

-- the calls that the timer makes; it writes nothing to the cache
unfoldable pub deploy_notify_cron :
    List String → (String → Option ℕ) → ℕ → Cache → List CronCall × Result (Unit {0})
deploy_notify_cron tasks status now cache =
    notify_keys tasks status now cache (message_keys cache) []
