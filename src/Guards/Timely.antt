-- ===== src/Guards/Timely.antt =====
-- What deploy_allow_check of common/extends/decorators.py asks of a deployment.
use devops_backend.Prelude.{
  ℕ, String, ◌≡◌, ◌≢◌, ◌⊎◌, inl, inr, refl, true, false, Option, some, List, [], ◌∷◌, ◌==◌,
  text_key, number_key, arith, eq_iff, Bool-cases, Option-cases, All, first_where,
}
use devops_backend.Outcome.{ok, Result-cases}
use devops_backend.Guards.Branch.{AppInfo, Verdict, refuse, proceed, find_appinfo, is_k8s_server}
use devops_backend.Guards.Release.{
  time_comp, Order, Platform, DeployRequest, on_time, check_order, check_clusters, check_template,
  deploy_allow_check,
}

check_clusters-All :
    (platform : Platform) (ks : List ℕ)
    → check_clusters platform ks ≡ proceed
    → All (λ k. platform.k8s_cli k ≡ true) ks
unfolding check_clusters
check_clusters-All platform [] q = tt
check_clusters-All platform (k ∷ ks) q = elim (Bool-cases (platform.k8s_cli k)) [
  | inl connected ↦ (connected, check_clusters-All platform ks (ground (arith, q, connected)))
  | inr failed ↦ absurd (ground (arith, q, failed))
]

-- what an order satisfies whose application may be deployed now
pub record IsDue (platform : Platform) (app : AppInfo) (order : Order) : Type 0 where
  pub ticket_on : app.environment.ticket_on ≡ true
  pub window : Option ℕ
  pub configured : platform.publish_time_diff ≡ some window
  pub timely :
      (order.status ≢ 0)
      ⊎ ((t : ℕ) × (order.expect_time ≡ some t) × (time_comp platform.now t window ≡ true))

on_time-timely :
    (platform : Platform) (window : Option ℕ) (order : Order)
    → on_time platform window order ≡ ok true
    → (order.status ≢ 0)
      ⊎ ((t : ℕ) × (order.expect_time ≡ some t) × (time_comp platform.now t window ≡ true))
unfolding on_time
on_time-timely platform window order q = elim (Option-cases order.expect_time) [
  | inl no_time ↦ inl (λ fresh. ground (arith, q, no_time, fresh))
  | inr t ↦ elim (Bool-cases (order.status == 0)) [
    | inl fresh ↦ inr (t.0, t.1, ground (arith, q, t.1, fresh))
    | inr old ↦ inl (λ fresh. ground (arith, old, fresh))
  ]
]

check_order-IsDue :
    (platform : Platform) (orders : List Order) (request : DeployRequest) (app : AppInfo)
    → check_order platform orders request app ≡ ok proceed
    → (order_id : String) × (order : Order) × (request.order_id ≡ some order_id)
      × (first_where (λ o. o.order_id == order_id) orders ≡ some order)
      × IsDue platform app order
unfolding check_order
check_order-IsDue platform orders request app q = elim (Bool-cases app.environment.ticket_on) [
  | inr off ↦ absurd (ground (arith, q, off))
  | inl on ↦ elim (Option-cases request.order_id) [
    | inl unnamed ↦ absurd (ground (arith, q, on, unnamed))
    | inr id ↦ elim (Option-cases (first_where (λ o. o.order_id == id.0) orders)) [
      | inl lost ↦ absurd (ground (arith, q, on, id.1, lost))
      | inr order ↦ elim (Option-cases platform.publish_time_diff) [
        | inl unset ↦ absurd (ground (arith, q, on, id.1, order.1, unset))
        | inr window ↦ elim (Result-cases (on_time platform window.0 order.0)) [
          | inr error ↦ absurd (ground (arith, q, on, id.1, order.1, window.1, error.1))
          | inl due ↦
              let is_due : due.0 ≡ true = ground (arith, q, on, id.1, order.1, window.1, due.1) in
              (
                id.0,
                order.0,
                id.1,
                order.1,
                record {
                  ticket_on = on;
                  window = window.0;
                  configured = window.1;
                  timely = on_time-timely platform window.0 order.0 (ground (arith, due.1, is_due));
                },
              )
        ]
      ]
    ]
  ]
]

-- what a deployment satisfies
pub record Deployable (platform : Platform) (apps : List AppInfo) (orders : List Order)
    (request : DeployRequest) : Type 0 where
  pub key : ℕ
  pub app : AppInfo
  pub keyed : request.appinfo_id ≡ some key
  pub found : find_appinfo (some key) apps ≡ some app
  pub has_image : request.image ≢ ""
  pub due :
      (request.from_order ≡ false)
      ⊎ ((order_id : String) × (order : Order) × (request.order_id ≡ some order_id)
          × (first_where (λ o. o.order_id == order_id) orders ≡ some order)
          × IsDue platform app order)
  pub generated : (is_k8s_server app ≡ false) ⊎ (platform.template_ecode app ≡ some 200)
  pub connected : All (λ k. platform.k8s_cli k ≡ true) app.kubernetes

check_template-proceed :
    (platform : Platform) (app : AppInfo)
    → check_template platform app ≡ proceed
    → ((is_k8s_server app ≡ false) ⊎ (platform.template_ecode app ≡ some 200))
      × All (λ k. platform.k8s_cli k ≡ true) app.kubernetes
unfolding check_template
check_template-proceed platform app q =
    (ground (arith, q), check_clusters-All platform app.kubernetes (ground (arith, q)))

pub Verdict-cases :
    (v : Verdict) → (v ≡ proceed) ⊎ ((code : ℕ) × (http : ℕ) × (v ≡ refuse code http))
Verdict-cases proceed = inl refl
Verdict-cases (refuse code http) = inr (code, http, refl)

-- A deployment that is let through has an image and an application all of whose clusters connect, and
-- whose yaml is made where it is a server on Kubernetes. From an order it needs tickets to be on for
-- the environment and, while the order is undone, a time of the order within the window.
pub deploy_allow_check-Deployable :
    (platform : Platform) (apps : List AppInfo) (orders : List Order) (request : DeployRequest)
    → deploy_allow_check platform apps orders request ≡ ok proceed
    → Deployable platform apps orders request
unfolding deploy_allow_check
deploy_allow_check-Deployable platform apps orders request q =
    elim (Option-cases request.appinfo_id) [
      | inl unkeyed ↦ absurd (ground (arith, q, unkeyed))
      | inr key ↦ elim (Option-cases (find_appinfo (some key.0) apps)) [
        | inl lost ↦ absurd (ground (arith, q, key.1, lost))
        | inr app ↦ elim (Bool-cases (request.image == "")) [
          | inl none_chosen ↦ absurd (ground (arith, q, key.1, app.1, none_chosen))
          | inr image ↦ elim (Bool-cases request.from_order) [
            | inr direct ↦
                let passed =
                  check_template-proceed platform app.0
                    (ground (arith, q, key.1, app.1, image, direct)) in
                record {
                  key = key.0;
                  app = app.0;
                  keyed = key.1;
                  found = app.1;
                  has_image = λ e. ground (arith, image, eq_iff request.image "", e);
                  due = inl direct;
                  generated = passed.0;
                  connected = passed.1;
                }
            | inl ordered ↦ elim (Result-cases (check_order platform orders request app.0)) [
              | inr error ↦ absurd (ground (arith, q, key.1, app.1, image, ordered, error.1))
              | inl v ↦ elim (Verdict-cases v.0) [
                | inr refused ↦
                    absurd (ground (arith, q, key.1, app.1, image, ordered, v.1, refused.2))
                | inl goes ↦
                    let passed =
                      check_template-proceed platform app.0
                        (ground (arith, q, key.1, app.1, image, ordered, v.1, goes)) in
                    record {
                      key = key.0;
                      app = app.0;
                      keyed = key.1;
                      found = app.1;
                      has_image = λ e. ground (arith, image, eq_iff request.image "", e);
                      due = inr (
                          check_order-IsDue platform orders request app.0
                            (ground (arith, v.1, goes)));
                      generated = passed.0;
                      connected = passed.1;
                    }
              ]
            ]
          ]
        ]
      ]
    ]
