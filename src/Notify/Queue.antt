-- ===== src/Notify/Queue.antt =====
-- deploy_notify_queue of qtasks/tasks.py: the messages with a key are taken out of the cache and handed
-- over in one task. Keys hold no wildcard of Redis.
use Prim.Native.Char.{code}
use Prim.Native.String.{◌++◌ as append}
use devops_backend.Prelude.{
  ℕ, ◌+◌, String, Bool, true, false, ◌&&◌, ◌||◌, not, Option, List, [], ◌∷◌, ◌++◌, ltb, text_key,
  number_key, ◌==◌, if◌then◌else◌, select, count_where,
}
use devops_backend.Text.{has_prefix}
use devops_backend.Notify.Model.{Cache, CacheEntry, NotifyState, SendTask}

-- `s < t` of two texts
unfoldable pub text_before : String → String → Bool
text_before s String.[] = false
text_before String.[] (String.◌∷◌ d t) = true
text_before (String.◌∷◌ c s) (String.◌∷◌ d t) =
    let rest = text_before s t in ltb (code c) (code d) || code c == code d && rest

unfoldable pub insert_desc : String × CacheEntry → Cache → Cache
insert_desc p [] = p ∷ []
insert_desc p (q ∷ ps) =
    let rest = insert_desc p ps in if text_before p.0 q.0 then q ∷ rest else p ∷ q ∷ ps

-- `sorted(keys, reverse=True)`, with the values of the keys
unfoldable pub sort_desc : Cache → Cache
unfolding insert_desc
sort_desc [] = []
sort_desc (p ∷ ps) = insert_desc p (sort_desc ps)

-- `cache.keys(f'{prefix}*')`
unfoldable pub has_key_prefix : String → String × CacheEntry → Bool
has_key_prefix prefix p = has_prefix p.0 prefix

unfoldable pub deploy_notify_queue :
    String → Option String → String → String → NotifyState → NotifyState
deploy_notify_queue msg_key order_id title robot s = handed (sort_desc found)
  where
    found : Cache
    found = select (has_key_prefix (append msg_key ":")) s.cache

    handed : Cache → NotifyState
    handed [] = s
    handed (p ∷ ps) = record s {
      cache = select (λ q. not (has_key_prefix (append msg_key ":") q)) s.cache;
      tasks =
          s.tasks
          ++ record { order_id = order_id; title = title; msg = p ∷ ps; robot = robot } ∷ [];
    }

-- the entries that a state holds, in the cache and in the tasks
abbrev pub handed_over : (String × CacheEntry → Bool) → List SendTask → ℕ
handed_over p [] = 0
handed_over p (t ∷ ts) = count_where p t.msg + handed_over p ts

abbrev pub held : (String × CacheEntry → Bool) → NotifyState → ℕ
held p s = count_where p s.cache + handed_over p s.tasks
