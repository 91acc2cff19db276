-- ===== src/Notify/Tests.antt =====
-- Messages of two publish orders, the number of one of which begins with that of the other.
use devops_backend.Prelude.{
  Bool, not, ℕ, String, ◌≡◌, refl, Bool, true, false, not, Option, none, some, [], ◌∷◌, map,
  text_key, number_key, ◌==◌, if◌then◌else◌, any, select,
}
use devops_backend.Outcome.{Error, err, ok}
use devops_backend.Text.{has_prefix, split, last, lower}
use devops_backend.Shared.Dict.{lookup}
use devops_backend.Notify.Model.{
  Cache, CacheEntry, NotifyMessage, message, delay, NotifyState, SendTask, given,
}
use devops_backend.Notify.Queue.{
  deploy_notify_queue, sort_desc, insert_desc, text_before, has_key_prefix, held,
}
use devops_backend.Notify.Cron.{app_tasks, deploy_notify_cron, order_done, order_part}
use devops_backend.Notify.Send.{deploy_notify_send, texts}
use devops_backend.Notify.Images.{
  retain_count, docker_image_sync, k8s_resource_delete, delete_service, sync_clusters, sync_cluster,
  image_target, Registries,
}
use devops_backend.Notify.Moved.{deploy_notify_queue-held}
use devops_backend.Notify.Stuck.{deploy_notify_cron-raises}

abbrev notice_of : String → String → String → NotifyMessage
notice_of key order_id text = record {
  msg_key = some key;
  msg = text;
  title = "CD";
  robot = "ops";
  order_id = some order_id;
  recv_phone = some "138";
  recv_openid = none;
}

abbrev waiting : Cache
waiting =
    ("cicd:notify::12:cd:5", message (notice_of "cicd:notify::12" "12" "one"))
    ∷ ("cicd:notify::123:cd:6", message (notice_of "cicd:notify::123" "123" "two"))
    ∷ ("delay:notify::cicd:notify::12", delay 100 60)
    ∷ ("cicd:notify::12:cd:7", message (notice_of "cicd:notify::12" "12" "three"))
    ∷ []

abbrev waiting_state : NotifyState
waiting_state = record { cache = waiting; tasks = [] }

abbrev after_twelve : NotifyState
after_twelve = deploy_notify_queue "cicd:notify::12" (some "12") "CD" "ops" waiting_state

abbrev is_third : String × CacheEntry → Bool
is_third p = p.0 == "cicd:notify::12:cd:7"

abbrev under_twelve : String × CacheEntry → Bool
under_twelve = has_key_prefix "cicd:notify::12:"

twelve_order :
    map (λ (t : SendTask). map (λ (p : String × CacheEntry). p.0) t.msg) after_twelve.tasks
    ≡ ("cicd:notify::12:cd:7" ∷ "cicd:notify::12:cd:5" ∷ []) ∷ []
unfolding deploy_notify_queue sort_desc insert_desc text_before has_key_prefix has_prefix
twelve_order = refl

deploy_notify_queue-held_example :
    (held is_third after_twelve ≡ held is_third waiting_state)
    × (any under_twelve after_twelve.cache ≡ false)
    × (after_twelve.cache ≡ select (λ q. not (under_twelve q)) waiting)
deploy_notify_queue-held_example =
    deploy_notify_queue-held "cicd:notify::12" (some "12") "CD" "ops" waiting_state is_third

abbrev done_order : String → Option ℕ
done_order id = if id == "12" then some 1 else none

deploy_notify_cron-raises_example :
    (e : Error) × ((deploy_notify_cron app_tasks done_order 130 waiting).1 ≡ err e)
    × ((deploy_notify_cron app_tasks done_order 130 waiting).0 ≡ [])
unfolding has_prefix given order_done order_part split
deploy_notify_cron-raises_example =
    deploy_notify_cron-raises done_order 130 waiting 0 "cicd:notify::12:cd:5"
      (notice_of "cicd:notify::12" "12" "one") "cicd:notify::12" refl refl refl refl refl

sent_with_delay :
    deploy_notify_send
      (λ xs. xs)
      ("dingtalk" ∷ [])
      (some record { type = none; webhook = some "url"; key = some "k" })
      (some "12")
      "CD"
      waiting
    ≡ none
unfolding deploy_notify_send texts
sent_with_delay = refl

abbrev registries : Registries
registries = ("harbor-a", "5" ∷ "4" ∷ "3" ∷ "2" ∷ []) ∷ ("harbor-b", "5" ∷ "1" ∷ []) ∷ []

retain_uat : retain_count (some (("uat", 3) ∷ [])) "cn_UAT" ≡ 3
unfolding retain_count lookup lower last split
retain_uat = refl

-- the registry refuses to delete the tag 3
abbrev but_three : String → String → Bool
but_three harbor tag = not (tag == "3")

synced :
    docker_image_sync
      (λ t. true)
      (record { namespace = "shop"; src_image = "dev/web:7"; harbors = "harbor-a" ∷ [] } ∷ [])
      []
    ≡ (("harbor-a", ("shop/web", "7")) ∷ [], ok tt)
unfolding docker_image_sync image_target split last sync_clusters sync_cluster
synced = refl

deleted_service :
    k8s_resource_delete true "services" "web" "shop" ≡ some (delete_service "web" "shop" ∷ [])
unfolding k8s_resource_delete
deleted_service = refl
