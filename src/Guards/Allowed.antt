-- ===== src/Guards/Allowed.antt =====
-- Which requests branch_allow_check of common/extends/decorators.py lets through.
use devops_backend.Prelude.{
  ℕ, String, ◌≡◌, ◌≢◌, ◌↔◌, ◌⊎◌, inl, inr, refl, Bool, true, Option, some, List, text_key,
  number_key, arith, contains, contains-any, Some, any-Some, Some-any, Bool-cases, Option-cases,
}
use devops_backend.Outcome.{ok, Result-cases}
use devops_backend.Text.{has_prefix, strip_end, has_prefix-strip_end, has_prefix-empty}
use devops_backend.Guards.Branch.{
  ViewType, ci, cd, jenkins_callback, AppInfo, BuildJob, BranchRequest, refuse, proceed,
  check_branch, allowed_branches, appinfo_key, find_appinfo, has_target, http_status, check_app,
  branch_allow_check,
}

begins_star : (branch : String) → has_prefix branch (strip_end "*") ≡ true
unfolding strip_end
begins_star branch = has_prefix-empty branch

-- A branch is allowed exactly if it begins with an entry of the list, taken without the dashes and
-- stars at its end: an entry without a star is a prefix too.
pub check_branch-prefix :
    (branch : String) (allow_branch : List String)
    → (check_branch branch allow_branch ≡ true)
      ↔ Some (λ i. has_prefix branch (strip_end i)) allow_branch
unfolding check_branch
check_branch-prefix branch allow_branch =
    let test : String → Bool = λ i. has_prefix branch (strip_end i) in
    (
      λ q. any-Some test allow_branch (elim (Bool-cases (contains allow_branch branch)) [
        | inl own ↦ contains-any test allow_branch branch (has_prefix-strip_end branch) own
        | inr other ↦ elim (Bool-cases (contains allow_branch "*")) [
          | inl star ↦ contains-any test allow_branch "*" (begins_star branch) star
          | inr no_star ↦ ground (arith, q, other, no_star)
        ]
      ]),
      λ s. ground (arith, Some-any test allow_branch s.0 s.1 s.2 s.3),
    )

-- what a request must give for its view to be called
pub record Allowed (view_type : ViewType) (jobs : List BuildJob) (apps : List AppInfo)
    (request : BranchRequest) : Type 0 where
  pub branch : String
  pub key : Option ℕ
  pub app : AppInfo
  pub named : request.commit_name ≡ some branch
  pub keyed : appinfo_key view_type jobs request ≡ ok key
  pub found : find_appinfo key apps ≡ some app
  pub begun : Some (λ i. has_prefix branch (strip_end i)) (allowed_branches view_type app)
  pub target : has_target app ≡ true

module _ (view_type : ViewType) (jobs : List BuildJob) (apps : List AppInfo)
    (request : BranchRequest) where
  check_app-proceed :
      (branch : String) (app : AppInfo)
      → check_app view_type branch app ≡ proceed
      → (check_branch branch (allowed_branches view_type app) ≡ true) × (has_target app ≡ true)
  unfolding check_app
  check_app-proceed branch app q = ground (arith, q)

  proceed-check_app :
      (branch : String) (app : AppInfo)
      → check_branch branch (allowed_branches view_type app) ≡ true
      → has_target app ≡ true
      → check_app view_type branch app ≡ proceed
  unfolding check_app
  proceed-check_app branch app begun target = ground (arith, begun, target)

  -- The view is called exactly if the request names a branch, its application exists, the branch begins
  -- with an entry that the application, or else its environment, allows, and the application has a
  -- cluster or a host to go to.
  pub branch_allow_check-Allowed :
      (branch_allow_check view_type jobs apps request ≡ ok proceed)
      ↔ Allowed view_type jobs apps request
  unfolding branch_allow_check
  branch_allow_check-Allowed = (
    λ q. elim (Option-cases request.commit_name) [
      | inl unnamed ↦ absurd (ground (arith, q, unnamed))
      | inr name ↦ elim (Result-cases (appinfo_key view_type jobs request)) [
        | inr error ↦ absurd (ground (arith, q, name.1, error.1))
        | inl key ↦ elim (Option-cases (find_appinfo key.0 apps)) [
          | inl lost ↦ absurd (ground (arith, q, name.1, key.1, lost))
          | inr app ↦
              let passed =
                check_app-proceed name.0 app.0 (ground (arith, q, name.1, key.1, app.1)) in
              record {
                branch = name.0;
                key = key.0;
                app = app.0;
                named = name.1;
                keyed = key.1;
                found = app.1;
                begun = (check_branch-prefix name.0 (allowed_branches view_type app.0)).0 passed.0;
                target = passed.1;
              }
        ]
      ]
    ],
    λ a.
        let begun = (check_branch-prefix a.branch (allowed_branches view_type a.app)).1 a.begun in
        ground (arith, a.named, a.keyed, a.found, proceed-check_app a.branch a.app begun a.target),
  )

  branch_allow_check-refusal :
      (code http : ℕ)
      → branch_allow_check view_type jobs apps request ≡ ok (refuse code http)
      → (code ≡ 50000)
        × ((c : ℕ) × (http ≡ http_status view_type c) × ((c ≡ 403) ⊎ ((c ≡ 404) ⊎ (c ≡ 500))))
  unfolding branch_allow_check check_app
  branch_allow_check-refusal code http q = elim (Option-cases request.commit_name) [
    | inl unnamed ↦ (ground (arith, q, unnamed), (500, ground (arith, q, unnamed), inr (inr refl)))
    | inr name ↦ elim (Result-cases (appinfo_key view_type jobs request)) [
      | inr error ↦ absurd (ground (arith, q, name.1, error.1))
      | inl key ↦ elim (Option-cases (find_appinfo key.0 apps)) [
        | inl lost ↦ (
          ground (arith, q, name.1, key.1, lost),
          (404, ground (arith, q, name.1, key.1, lost), inr (inl refl)),
        )
        | inr app ↦ (
          ground (arith, q, name.1, key.1, app.1),
          (403, ground (arith, q, name.1, key.1, app.1), inl refl),
        )
      ]
    ]
  ]

-- A callback of Jenkins gets a refusal with the HTTP status 403, 404 or 500, every other request one
-- with 200.
pub branch_allow_check-http :
    (view_type : ViewType) (jobs : List BuildJob) (apps : List AppInfo) (request : BranchRequest)
    (code http : ℕ)
    → branch_allow_check view_type jobs apps request ≡ ok (refuse code http)
    → (code ≡ 50000)
      × (((view_type ≡ jenkins_callback) × ((http ≡ 403) ⊎ ((http ≡ 404) ⊎ (http ≡ 500))))
          ⊎ ((view_type ≢ jenkins_callback) × (http ≡ 200)))
unfolding http_status
branch_allow_check-http ci jobs apps request code http q =
    let r = branch_allow_check-refusal ci jobs apps request code http q in
    (r.0, inr (ground arith, r.1.1))
branch_allow_check-http cd jobs apps request code http q =
    let r = branch_allow_check-refusal cd jobs apps request code http q in
    (r.0, inr (ground arith, r.1.1))
branch_allow_check-http jenkins_callback jobs apps request code http q =
    let r = branch_allow_check-refusal jenkins_callback jobs apps request code http q in
    (r.0, inl (refl, ground (arith, r.1.1, r.1.2)))
