-- ===== src/Build/Finish.antt =====
-- The end of a build: JenkinsBuild.callback of qtasks/tasks_build.py, and the images that it keeps in
-- the cache.
use devops_backend.Prelude.{
  ℕ, suc, ◌≤◌, String, ◌≡◌, ◌≢◌, ◌⊎◌, inl, inr, refl, subst, Bool, true, Option, none, some, List,
  [], ◌∷◌, ◌++◌, ◌&&◌, ◌==◌, text_key, number_key, arith, eq_iff, if◌then◌else◌, ltb, length,
  Bool-cases, false, ◌<◌, ap,
}
use devops_backend.Outcome.{Result, ok, err}
use devops_backend.Build.Jenkins.{BuildJob, status_map}

-- what the callback writes: the job, the marks and entries of the cache, the results, and the tasks
-- that ask again
pub record Store : Type 0 where
  pub job : Option BuildJob
  pub marked : Bool
  pub images : List BuildJob
  pub latest_success : Option BuildJob
  pub latest : Option BuildJob
  pub results : List ℕ
  pub again : ℕ

-- `jobs.pop()`
unfoldable pub without_last : List BuildJob → List BuildJob
without_last [] = []
without_last (x ∷ xs) = let rest = without_last xs in elim xs [ [] ↦ [] | _ ∷ _ ↦ x ∷ rest ]

-- the list of the images that can be deployed, the newest first
unfoldable pub keep_image : ℕ → BuildJob → List BuildJob → List BuildJob
keep_image retain job jobs = job ∷ (if ltb retain (length jobs) then without_last jobs else jobs)

unfoldable pub keep_success : ℕ → Bool → String → BuildJob → Store → Store
keep_success retain image_sync status job s =
    if status == "SUCCESS" && image_sync
    then record s { images = keep_image retain job s.images; latest_success = some job }
    else s

abbrev pub Called : Type 0
Called = Store × Result Unit

-- the callback of a build of an application; `detail` is the status of the flow
unfoldable pub build_callback : ℕ → Bool → Result String → Store → Called
build_callback retain image_sync detail s = elim s.job [
  | none ↦ (s, ok tt)
  | some job ↦
      let marked = record s { marked = true } in
      elim detail [
        | err e ↦ (marked, err e)
        | ok flow ↦ elim (status_map flow) [
          | err e ↦ (marked, err e)
          | ok status ↦
              let built = record job { status = status } in
              let kept =
                keep_success retain image_sync flow built (record marked { job = some built }) in
              if status == 3 then (record marked { again = suc marked.again }, ok tt) else (
                record kept { latest = some built; results = kept.results ++ job.id ∷ [] },
                ok tt,
              )
        ]
      ]
]

length-without_last :
    (x : BuildJob) (xs : List BuildJob) → suc (length (without_last (x ∷ xs))) ≡ length (x ∷ xs)
unfolding without_last
length-without_last x [] = refl
length-without_last x (y ∷ ys) = let ih = length-without_last y ys in ground (arith, ih)

length-keep_image :
    (retain : ℕ) (job : BuildJob) (jobs : List BuildJob)
    → length jobs ≤ suc retain
    → length (keep_image retain job jobs) ≤ suc retain
unfolding keep_image
length-keep_image retain job [] bound = ground arith
length-keep_image retain job (x ∷ xs) bound = let shorter = length-without_last x xs in ground arith

status_map-success :
    (flow : String) (status : ℕ)
    → flow == "SUCCESS" ≡ true
    → status_map flow ≡ ok status
    → status ≡ 1
unfolding status_map
status_map-success flow status success q =
    let is_success : flow ≡ "SUCCESS" = (eq_iff flow "SUCCESS").0 success in
    let one : ok 1 ≡ ok status = subst (λ f. status_map f ≡ ok status) is_success q in
    ground (arith, one)

status_map-other :
    (flow : String) (status : ℕ)
    → flow == "SUCCESS" ≡ false
    → status_map flow ≡ ok status
    → status ≢ 1
unfolding status_map
status_map-other flow status other q = ground (arith, other, q)

without_last-front :
    (x : BuildJob) (xs : List BuildJob)
    → (last : BuildJob) × (x ∷ xs ≡ without_last (x ∷ xs) ++ last ∷ [])
unfolding without_last
without_last-front x [] = (x, refl)
without_last-front x (y ∷ ys) = let ih = without_last-front y ys in (ih.0, ap (λ l. x ∷ l) ih.1)

-- the images that were there, but for the oldest where there are more than are to be retained
abbrev pub IsTrimmed : ℕ → List BuildJob → List BuildJob → Type 0
IsTrimmed retain before rest =
    ((length before ≤ retain) × (rest ≡ before))
    ⊎ ((retain < length before) × (oldest : BuildJob) × (before ≡ rest ++ oldest ∷ []))

trimmed :
    (retain : ℕ) (before : List BuildJob)
    → IsTrimmed retain before (if ltb retain (length before) then without_last before else before)
trimmed retain [] = inl (ground arith, ground arith)
trimmed retain (x ∷ xs) = elim (Bool-cases (ltb retain (length (x ∷ xs)))) [
  | inl full ↦
      let front = without_last-front x xs in
      let over : retain < length (x ∷ xs) = ground (arith, full) in
      inr (over, front.0, rw full front.1)
  | inr fits ↦
      let under : length (x ∷ xs) ≤ retain = ground (arith, fits) in inl (under, rw fits refl)
]

-- a build that is neither under way nor without a status
abbrev pub HasEnded : String → ℕ → Type 0
HasEnded flow status = (status_map flow ≡ ok status) × (status ≢ 3)

-- The callback of a build that has ended gives the job its status and one row of results. A success
-- whose environment shares its images becomes the newest image of the cache, before the images that
-- were there, but for the oldest of them where they are more than are to be retained; any other end
-- leaves the images as they are. The cache holds at most one image above the number to retain, before
-- and so afterwards.
pub build_callback-HasEnded :
    (retain : ℕ) (image_sync : Bool) (flow : String) (status : ℕ) (job : BuildJob) (s : Store)
    → s.job ≡ some job
    → HasEnded flow status
    → length s.images ≤ suc retain
    → (s' : Store) × (build_callback retain image_sync (ok flow) s ≡ (s', ok tt))
      × (s'.job ≡ some (record job { status = status }))
      × (s'.results ≡ s.results ++ job.id ∷ [])
      × (length s'.images ≤ suc retain)
      × (((status ≡ 1)
            × (image_sync ≡ true)
            × ((rest : List BuildJob) × (s'.images ≡ record job { status = status } ∷ rest)
                × IsTrimmed retain s.images rest))
          ⊎ (((status ≢ 1) ⊎ (image_sync ≡ false)) × (s'.images ≡ s.images)))
unfolding build_callback keep_success keep_image
build_callback-HasEnded retain image_sync flow status job s has_job ended bound =
    let built : BuildJob = record job { status = status } in
    let kept =
      keep_success retain image_sync flow built (record s { marked = true; job = some built }) in
    let done : Store = record kept { latest = some built; results = kept.results ++ job.id ∷ [] } in
    let shorter = length-keep_image retain built s.images bound in
    elim (Bool-cases (flow == "SUCCESS" && image_sync)) [
      | inl q ↦ (
        done,
        ground (arith, has_job, ended.0, ended.1),
        ground (arith, q),
        ground (arith, q),
        ground (arith, q, shorter),
        inl (
          status_map-success flow status (ground (arith, q)) ended.0,
          ground (arith, q),
          (
            (if ltb retain (length s.images) then without_last s.images else s.images),
            ground (arith, q),
            trimmed retain s.images,
          ),
        ),
      )
      | inr q ↦ (
        done,
        ground (arith, has_job, ended.0, ended.1),
        ground (arith, q),
        ground (arith, q),
        ground (arith, q, bound),
        inr (
          elim (Bool-cases image_sync) [
            | inr apart ↦ inr apart
            | inl shared ↦ inl (status_map-other flow status (ground (arith, q, shared)) ended.0)
          ],
          ground (arith, q),
        ),
      )
    ]
