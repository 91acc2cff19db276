-- ===== src/Notify/Images.antt =====
-- clean_image_task, docker_image_sync and k8s_resource_delete of qtasks/tasks.py. A registry answers with
-- its tags, newest first, or not at all.
use Prim.Native.String.{◌++◌ as append}
use devops_backend.Prelude.{
  ℕ, zero, suc, String, Bool, ◌&&◌, ◌||◌, not, Option, none, some, List, [], ◌∷◌, ltb, text_key,
  number_key, ◌==◌, if◌then◌else◌, length, get_elem?, any, select,
}
use devops_backend.Outcome.{Result, ok, err, ◌>>=◌, index_error, or_raise}
use devops_backend.Text.{split, last, lower}
use devops_backend.Shared.Dict.{lookup, put}

-- the tags of one repository in each registry that answers
abbrev pub Registries : Type 0
Registries = List (String × List String)

abbrev pub take {ℓ} : {A : Type ℓ} → ℕ → List A → List A
take zero xs = []
take (suc n) [] = []
take (suc n) (x ∷ xs) = x ∷ take n xs

abbrev pub drop {ℓ} : {A : Type ℓ} → ℕ → List A → List A
drop zero xs = xs
drop (suc n) [] = []
drop (suc n) (x ∷ xs) = drop n xs

-- `_retain`: ten where nothing, or zero, is configured for the environment
unfoldable pub retain_count : Option (List (String × ℕ)) → String → ℕ
retain_count none environment = 10
retain_count (some image_retain) environment =
    elim (lookup (lower (last (split "_" environment))) image_retain) [
      | none ↦ 10
      | some n ↦ if n == 0 then 10 else n
    ]

-- the calls of delete_tag; a tag that the registry refuses to delete stays, as the reply is not looked at
unfoldable pub delete_tags : (String → Bool) → List String → List String → List String
delete_tags deletes [] tags = tags
delete_tags deletes (t ∷ ts) tags =
    delete_tags deletes ts (if deletes t then select (λ x. not (x == t)) tags else tags)

-- the body for one cluster, whose exceptions are logged
unfoldable pub clean_cluster :
    (String → String → Bool) → ℕ → Option String → Registries → Registries
clean_cluster deletes retain none registries = registries
clean_cluster deletes retain (some harbor) registries = elim (lookup harbor registries) [
  | none ↦ registries
  | some tags ↦
      if ltb retain (length tags)
      then put harbor (delete_tags (deletes harbor) (drop retain tags) tags) registries
      else registries
]

-- the loop over the clusters of the application, each with the name of its registry; `deletes` says which
-- tags a registry deletes
unfoldable pub clean_image_task :
    (String → String → Bool) → ℕ → List (Option String) → Registries → Registries
clean_image_task deletes retain [] registries = registries
clean_image_task deletes retain (harbor ∷ harbors) registries =
    clean_image_task deletes retain harbors (clean_cluster deletes retain harbor registries)

-- an application to synchronise: its namespace, the image, and the registries of its clusters
pub record SyncApp : Type 0 where
  pub namespace : String
  pub src_image : String
  pub harbors : List String

-- the path and the tag of an image in the registry of a cluster
unfoldable pub image_target : SyncApp → Result (String × String)
image_target app = or_raise index_error (get_elem? parts 0) >>= λ name.
    or_raise index_error (get_elem? parts 1) >>= λ tag.
    ok (append app.namespace (append "/" name), tag)
  where
    parts : List String
    parts = split ":" (last (split "/" app.src_image))

-- a tag that a registry has, as registry, path and tag
abbrev pub Tagged : Type 0
Tagged = String × (String × String)

unfoldable pub same_tagged : Tagged → Tagged → Bool
same_tagged (h, (i, t)) (g, (j, u)) = h == g && i == j && t == u

-- one registry: the tag is set where it is missing and the registry takes it
unfoldable pub sync_cluster : (Tagged → Bool) → Tagged → List Tagged → List Tagged
sync_cluster takes target held =
    if any (same_tagged target) held then held else if takes target then target ∷ held else held

unfoldable pub sync_clusters :
    (Tagged → Bool) → String × String → List String → List Tagged → List Tagged
sync_clusters takes image [] held = held
sync_clusters takes image (harbor ∷ harbors) held =
    sync_clusters takes image harbors (sync_cluster takes (harbor, image) held)

-- an image without a tag ends the task
unfoldable pub docker_image_sync :
    (Tagged → Bool) → List SyncApp → List Tagged → List Tagged × Result (Unit {0})
docker_image_sync takes [] held = (held, ok tt)
docker_image_sync takes (app ∷ apps) held = elim (image_target app) [
  | err e ↦ (held, err e)
  | ok image ↦ docker_image_sync takes apps (sync_clusters takes image app.harbors held)
]

-- the calls of the client of a cluster
pub data Deletion : Type 0 where
  delete_deployment delete_service delete_configmap : String → String → Deletion

-- none where the client cannot be made, and for any other resource
unfoldable pub k8s_resource_delete : Bool → String → String → String → Option (List Deletion)
k8s_resource_delete connected resource app_name namespace =
    if not connected
    then none
    else if resource == "deployment"
    then some (delete_deployment app_name namespace ∷ delete_service app_name namespace ∷ [])
    else if resource == "service" || resource == "services"
    then some (delete_service app_name namespace ∷ [])
    else if resource == "configmap"
    then some (delete_configmap app_name namespace ∷ [])
    else none
