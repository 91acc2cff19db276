-- ===== src/Build/Images.antt =====
-- The images that may be deployed: get_deploy_image_list of common/ext_fun.py and list_cd_image of
-- BuildJobViewSet in apps/deploy/views.py.
use devops_backend.Prelude.{
  ℕ, zero, suc, String, Bool, false, Option, none, some, List, [], ◌∷◌, ◌&&◌, ◌||◌, ◌==◌, text_key,
  number_key, if◌then◌else◌, any, contains, select,
}
use devops_backend.Text.{is_part, replace, lower}

-- a build with the name of the branch in its commit_tag
pub record ImageBuild : Type 0 where
  pub id : ℕ
  pub appinfo_id : ℕ
  pub status : ℕ
  pub branch : Option String

-- an application in an environment, and the application itself with those that share its images
pub record ImageApp : Type 0 where
  pub id : ℕ
  pub app_id : ℕ
  pub environment_id : ℕ

pub record MicroApp : Type 0 where
  pub id : ℕ
  pub multiple_app : Bool
  pub multiple_ids : List ℕ

-- the applications whose images may be used, in one environment
unfoldable pub image_apps : MicroApp → ℕ → List ImageApp → List ℕ
image_apps app environment infos = ids (select fits infos)
  where
    fits : ImageApp → Bool
    fits i =
        i.environment_id == environment
        && (if app.multiple_app then contains app.multiple_ids i.app_id else i.app_id == app.id)

    ids : List ImageApp → List ℕ
    ids [] = []
    ids (i ∷ is) = i.id ∷ ids is

-- `commit_tag__name__icontains`
unfoldable pub names_branch : List String → ImageBuild → Bool
names_branch allow b = elim b.branch [
  | none ↦ false
  | some name ↦ any (λ i. is_part (lower (replace "*" "" i)) (lower name)) allow
]

-- `allow` is the list of the application, or that of the environment; without one there is no list
unfoldable pub get_deploy_image_list :
    MicroApp → ℕ → List ImageApp → List String → List ImageBuild → Option (List ImageBuild)
get_deploy_image_list app environment infos [] builds = none
get_deploy_image_list app environment infos (a ∷ allow) builds =
    let ids = image_apps app environment infos in
    some (
      select
        (λ b.
          contains ids b.appinfo_id
          && (b.status == 1 && (contains (a ∷ allow) "*" || names_branch (a ∷ allow) b)))
        builds)

-- `queryset[:n]`
unfoldable pub first_of {ℓ} : {A : Type ℓ} → ℕ → List A → List A
first_of zero xs = []
first_of (suc n) [] = []
first_of (suc n) (x ∷ xs) = x ∷ first_of n xs

-- the ten newest images of successful builds
unfoldable pub list_cd_image :
    MicroApp → ImageApp → List ImageApp → List ImageBuild → List ImageBuild
list_cd_image app info infos builds =
    let ids = if app.multiple_app then image_apps app info.environment_id infos else info.id ∷ [] in
    first_of 10 (select (λ b. contains ids b.appinfo_id && b.status == 1) builds)
