-- ===== src/Notify/Stuck.antt =====
-- What the timer of qtasks/tasks.py does when a message is due.
use Prim.Native.String.{◌++◌ as append}
use devops_backend.Prelude.{
  select, ◌||◌, ℕ, zero, suc, String, ◌≡◌, refl, sym, ◌∙◌, subst, ◌≢◌, inl, inr, true, Option, some,
  List, [], ◌∷◌, arith, eq_iff, text_key, number_key, ◌==◌, Bool-cases, get_elem?, contains,
  distinct,
}
use devops_backend.Outcome.{ok, err, Error, Result-cases}
use devops_backend.Text.{has_prefix}
use devops_backend.Notify.Model.{
  Cache, CacheEntry, NotifyMessage, message, delay, other_value, message_prefix, given,
}
use devops_backend.Notify.Queue.{has_key_prefix}
use devops_backend.Notify.Cron.{
  keys_of, message_keys, CronCall, app_tasks, apply_async, order_done, delay_over, notify_key,
  notify_keys, deploy_notify_cron,
}

contains-distinct : (xs : List String) (a : String) → contains (distinct xs) a ≡ contains xs a
contains-distinct [] a = refl
contains-distinct (x ∷ xs) a =
    ground (arith, contains-distinct xs a, contains-distinct xs x, eq_iff x a)

contains-keys_of :
    (cache : Cache) (i : ℕ) (k : String) (m : NotifyMessage) (key : String)
    → get_elem? cache i ≡ some (k, message m)
    → has_prefix k message_prefix ≡ true
    → given m.msg_key ≡ some key
    → contains (keys_of cache) key ≡ true
unfolding keys_of
contains-keys_of [] i k m key at under named = absurd (ground (arith, at))
contains-keys_of ((j, message n) ∷ cache) zero k m key at under named =
    let same : n ≡ m = ground (arith, at) in
    let place : j ≡ k = ground (arith, at) in
    let g : given n.msg_key ≡ some key = rw same named in
    let u : has_prefix j message_prefix ≡ true = rw place under in
    ground (arith, g, u, eq_iff key key)
contains-keys_of ((j, delay c w) ∷ cache) zero k m key at under named = absurd (ground (arith, at))
contains-keys_of ((j, other_value) ∷ cache) zero k m key at under named =
    absurd (ground (arith, at))
contains-keys_of ((j, e) ∷ cache) (suc i) k m key at under named =
    let ih = contains-keys_of cache i k m key at under named in ground (arith, ih)

apply_async-raises :
    (cache : Cache) (i : ℕ) (k : String) (e : CacheEntry) (key : String) (calls : List CronCall)
    → get_elem? cache i ≡ some (k, e)
    → has_prefix k (append key ":") ≡ true
    → (apply_async app_tasks key (select (has_key_prefix (append key ":")) cache) calls).1 ≢ ok tt
unfolding has_key_prefix apply_async
apply_async-raises [] i k e key calls at under q = absurd (ground (arith, at))
apply_async-raises ((j, message m) ∷ cache) zero k e key calls at under q =
    ground (arith, at, under, q)
apply_async-raises ((j, delay c w) ∷ cache) zero k e key calls at under q =
    ground (arith, at, under, q)
apply_async-raises ((j, other_value) ∷ cache) zero k e key calls at under q =
    ground (arith, at, under, q)
apply_async-raises ((j, message m) ∷ cache) (suc i) k e key calls at under q =
    let ih = apply_async-raises cache i k e key calls at under in ground (arith, ih, q)
apply_async-raises ((j, delay c w) ∷ cache) (suc i) k e key calls at under q =
    let ih = apply_async-raises cache i k e key calls at under in ground (arith, ih, q)
apply_async-raises ((j, other_value) ∷ cache) (suc i) k e key calls at under q =
    let ih = apply_async-raises cache i k e key calls at under in ground (arith, ih, q)

apply_async-calls :
    (key : String) (found : Cache) (calls : List CronCall)
    → (apply_async app_tasks key found calls).0 ≡ calls
unfolding apply_async
apply_async-calls key [] calls = refl
apply_async-calls key ((k, message m) ∷ rest) calls = refl
apply_async-calls key ((k, delay c w) ∷ rest) calls = refl
apply_async-calls key ((k, other_value) ∷ rest) calls = refl

module _ (status : String → Option ℕ) (now : ℕ) (cache : Cache) where
  notify_key-calls :
      (key : String) (calls : List CronCall)
      → (notify_key app_tasks status now cache key calls).0 ≡ calls
  unfolding notify_key
  notify_key-calls key calls =
      let found = select (has_key_prefix (append key ":")) cache in
      let kept = apply_async-calls key found calls in
      elim (Result-cases (delay_over now cache key)) [
        | inr error ↦ ground (arith, error.1)
        | inl over ↦ elim (Bool-cases (order_done status key || over.0)) [
          | inl due ↦ ground (arith, over.1, due, kept)
          | inr waits ↦ ground (arith, over.1, waits)
        ]
      ]

  notify_keys-calls :
      (keys : List String) (calls : List CronCall)
      → (notify_keys app_tasks status now cache keys calls).0 ≡ calls
  unfolding notify_keys
  notify_keys-calls [] calls = refl
  notify_keys-calls (key ∷ keys) calls =
      let done = notify_key app_tasks status now cache key calls in
      let one = notify_key-calls key calls in
      let ih = notify_keys-calls keys done.0 in
      elim (Result-cases done.1) [
        | inr error ↦ ground (arith, error.1, one)
        | inl fine ↦ rw (fine.1, notify_keys) (ih ∙ one)
      ]

  notify_keys-raises :
      (keys : List String) (key : String) (calls : List CronCall)
      → contains keys key ≡ true
      → ((cs : List CronCall) → (notify_key app_tasks status now cache key cs).1 ≢ ok tt)
      → (notify_keys app_tasks status now cache keys calls).1 ≢ ok tt
  unfolding notify_keys
  notify_keys-raises [] key calls within raises q = ground (arith, within)
  notify_keys-raises (x ∷ keys) key calls within raises q =
      let done = notify_key app_tasks status now cache x calls in
      elim (Bool-cases (x == key)) [
        | inl same ↦
            let e : x ≡ key = (eq_iff x key).0 same in
            let bad : done.1 ≢ ok tt =
              subst (λ t. (notify_key app_tasks status now cache t calls).1 ≢ ok tt) (sym e)
                (raises calls) in
            ground (arith, bad, q)
        | inr other ↦
            let ih = notify_keys-raises keys key done.0 (ground (arith, within, other)) raises in
            ground (arith, ih, q)
      ]

-- While a message of a publish order that has ended, well or not, waits in the cache under its key, the timer
-- raises an exception and calls the queue for no key at all.
pub deploy_notify_cron-raises :
    (status : String → Option ℕ) (now : ℕ) (cache : Cache) (i : ℕ) (k : String) (m : NotifyMessage)
    (key : String)
    → get_elem? cache i ≡ some (k, message m)
    → has_prefix k message_prefix ≡ true
    → given m.msg_key ≡ some key
    → has_prefix k (append key ":") ≡ true
    → order_done status key ≡ true
    → (e : Error) × ((deploy_notify_cron app_tasks status now cache).1 ≡ err e)
      × ((deploy_notify_cron app_tasks status now cache).0 ≡ [])
unfolding deploy_notify_cron message_keys notify_key
deploy_notify_cron-raises status now cache i k m key at under named below done =
    let listed =
      contains-distinct (keys_of cache) key ∙ contains-keys_of cache i k m key at under named in
    let bad : (cs : List CronCall) → (notify_key app_tasks status now cache key cs).1 ≢ ok tt =
      λ cs q. elim (Result-cases (delay_over now cache key)) [
        | inl over ↦
            let raised = apply_async-raises cache i k (message m) key cs at below in
            ground (arith, q, over.1, done, raised)
        | inr error ↦ ground (arith, q, error.1)
      ] in
    let keys = distinct (keys_of cache) in
    let all_bad = notify_keys-raises status now cache keys key [] listed bad in
    let none_called = notify_keys-calls status now cache keys [] in
    elim (Result-cases (notify_keys app_tasks status now cache keys []).1) [
      | inl fine ↦ absurd (all_bad fine.1)
      | inr error ↦ (error.0, error.1, none_called)
    ]
