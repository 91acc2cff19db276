-- ===== src/Guards/Branch.antt =====
-- branch_allow_check of common/extends/decorators.py: the branch that a request may build or deploy.
use devops_backend.Prelude.{
  ℕ, String, Bool, Option, none, some, List, [], ◌∷◌, ◌&&◌, ◌||◌, not, ◌==◌, text_key, number_key,
  if◌then◌else◌, any, contains, length, first_where, leb,
}
use devops_backend.Outcome.{Result, ok, ◌>>=◌, or_raise, does_not_exist}
use devops_backend.Text.{split, has_prefix, strip_end, last}

pub data ViewType : Type 0 where
  ci cd jenkins_callback : ViewType

pub record Environment : Type 0 where
  pub allow_ci_branch : List String
  pub allow_cd_branch : List String
  pub ticket_on : Bool
  pub skipped_products : List (String × String)

-- an application in an environment, with what the checks read of its project and its targets
pub record AppInfo : Type 0 where
  pub id : ℕ
  pub environment_id : ℕ
  pub allow_ci_branch : List String
  pub allow_cd_branch : List String
  pub environment : Environment
  pub region : String
  pub product : String
  pub category : String
  pub is_k8s : String
  pub kubernetes : List ℕ
  pub hosts : List String

pub record BuildJob : Type 0 where
  pub id : ℕ
  pub appinfo_id : ℕ

-- what the check reads of a request: the name in commit_tag, the key of the url, the data
pub record BranchRequest : Type 0 where
  pub commit_name : Option String
  pub pk : Option ℕ
  pub appinfo_id : Option ℕ
  pub jobid : Option ℕ

-- a refusal with its code and its HTTP status, or the call of the view
pub data Verdict : Type 0 where
  refuse : ℕ → ℕ → Verdict
  proceed : Verdict

unfoldable pub check_branch : String → List String → Bool
check_branch branch allow_branch =
    contains allow_branch branch
    || (contains allow_branch "*" || any (λ i. has_prefix branch (strip_end i)) allow_branch)

-- the list of the application, or that of its environment where it is empty
unfoldable pub allowed_branches : ViewType → AppInfo → List String
allowed_branches view_type app = or_else (of_app view_type) (of_environment view_type)
  where
    or_else : List String → List String → List String
    or_else [] ys = ys
    or_else (x ∷ xs) ys = x ∷ xs

    of_app : ViewType → List String
    of_app ci = app.allow_ci_branch
    of_app cd = app.allow_cd_branch
    of_app jenkins_callback = app.allow_cd_branch

    of_environment : ViewType → List String
    of_environment ci = app.environment.allow_ci_branch
    of_environment cd = app.environment.allow_cd_branch
    of_environment jenkins_callback = app.environment.allow_cd_branch

unfoldable pub appinfo_key : ViewType → List BuildJob → BranchRequest → Result (Option ℕ)
appinfo_key ci jobs request = ok request.pk
appinfo_key cd jobs request = ok request.appinfo_id
appinfo_key jenkins_callback jobs request = do
  jobid ← or_raise does_not_exist request.jobid
  job ← or_raise does_not_exist (first_where (λ j. j.id == jobid) jobs)
  ok (some job.appinfo_id)

-- `AppInfo.objects.filter(id=appinfo_id)[0]`
unfoldable pub find_appinfo : Option ℕ → List AppInfo → Option AppInfo
find_appinfo none apps = none
find_appinfo (some key) apps = first_where (λ a. a.id == key) apps

-- a backend on Kubernetes
unfoldable pub is_k8s_server : AppInfo → Bool
is_k8s_server app = last (split "." app.category) == "server" && app.is_k8s == "k8s"

-- the clusters or the hosts to which the application can go
unfoldable pub has_target : AppInfo → Bool
has_target app =
    if is_k8s_server app
    then not (leb (length app.kubernetes) 0)
    else not (leb (length app.hosts) 0)

-- the HTTP status of the refusals, which only a callback of Jenkins sees
unfoldable pub http_status : ViewType → ℕ → ℕ
http_status ci code = 200
http_status cd code = 200
http_status jenkins_callback code = code

unfoldable pub check_app : ViewType → String → AppInfo → Verdict
check_app view_type branch app =
    if check_branch branch (allowed_branches view_type app)
    then (if has_target app then proceed else refuse 50000 (http_status view_type 403))
    else refuse 50000 (http_status view_type 403)

unfoldable pub branch_allow_check :
    ViewType → List BuildJob → List AppInfo → BranchRequest → Result Verdict
branch_allow_check view_type jobs apps request = elim request.commit_name [
  | none ↦ ok (refuse 50000 (http_status view_type 500))
  | some branch ↦ appinfo_key view_type jobs request >>= λ key. elim (find_appinfo key apps) [
    | none ↦ ok (refuse 50000 (http_status view_type 404))
    | some app ↦ ok (check_app view_type branch app)
  ]
]
