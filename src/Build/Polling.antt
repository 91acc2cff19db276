-- ===== src/Build/Polling.antt =====
-- The wait for the number of a build, by JenkinsBuild.queue of qtasks/tasks_build.py.
use devops_backend.Prelude.{
  ℕ, ltb, ◌⊎◌, zero, suc, ◌+◌, ◌<◌, ◌≡◌, ◌≢◌, inl, inr, refl, Bool, true, false, Option, none, some,
  ◌==◌, number_key, text_key, arith, Option-cases, Bool-cases,
}
use devops_backend.Outcome.{Error, err, Result, ok, Result-cases}
use devops_backend.Build.Jenkins.{executable, queue_from, queue}

queue_from-none :
    (fuel : ℕ) (items : ℕ → Result (Option ℕ)) (count : ℕ)
    → suc fuel + count ≡ 601
    → queue_from (suc fuel) items count ≢ none
unfolding queue_from
queue_from-none zero items count left q = ground arith
queue_from-none (suc fuel) items count left q =
    let ih = queue_from-none fuel items (suc count) (omega arith) in ground arith

-- what a wait says: an exception of a question, none found, or a number that one of the questions
-- before `bound` was answered with
abbrev pub Answer : (ℕ → Result (Option ℕ)) → ℕ → Result (Bool × ℕ) → Type 0
Answer items bound r =
    ((e : Error) × (k : ℕ) × (r ≡ err e) × (k < bound) × (items k ≡ err e))
    ⊎ ((r ≡ ok (false, 0))
        ⊎ ((n : ℕ) × (k : ℕ) × (r ≡ ok (true, n))
            × (k < bound)
            × (items k ≡ ok (some n))
            × (n ≢ 0)))

widen :
    (items : ℕ → Result (Option ℕ)) (fuel count : ℕ) (r : Result (Bool × ℕ))
    → Answer items (fuel + suc count) r
    → Answer items (suc fuel + count) r
widen items fuel count r (inl e) =
    let bound : e.1 < suc fuel + count = omega arith in inl (e.0, e.1, e.2, bound, e.4)
widen items fuel count r (inr (inl none_found)) = inr (inl none_found)
widen items fuel count r (inr (inr a)) =
    let bound : a.1 < suc fuel + count = omega arith in inr (inr (a.0, a.1, a.2, bound, a.4, a.5))

queue_from-Answer :
    (fuel : ℕ) (items : ℕ → Result (Option ℕ)) (count : ℕ) (r : Result (Bool × ℕ))
    → queue_from fuel items count ≡ some r
    → Answer items (fuel + count) r
unfolding queue_from executable
queue_from-Answer zero items count r q = absurd (ground (arith, q))
queue_from-Answer (suc fuel) items count r q = elim (Result-cases (items count)) [
  | inr error ↦ inl (error.0, count, ground (arith, q, error.1), omega arith, error.1)
  | inl item ↦
      let later = queue_from-Answer fuel items (suc count) r in
      elim (Option-cases item.0) [
        | inl waiting ↦ elim (Bool-cases (ltb 600 (suc count))) [
          | inl over ↦ inr (inl (ground (arith, q, item.1, waiting, over)))
          | inr more ↦ widen items fuel count r (later (ground (arith, q, item.1, waiting, more)))
        ]
        | inr number ↦ elim (Bool-cases (number.0 == 0)) [
          | inl none_yet ↦ elim (Bool-cases (ltb 600 (suc count))) [
            | inl over ↦ inr (inl (ground (arith, q, item.1, number.1, none_yet, over)))
            | inr more ↦
                widen items fuel count r
                  (later (ground (arith, q, item.1, number.1, none_yet, more)))
          ]
          | inr given ↦ inr (
              inr (
                number.0,
                count,
                ground (arith, q, item.1, number.1, given),
                omega arith,
                ground (arith, item.1, number.1),
                ground (arith, given),
              ))
        ]
      ]
]

-- The wait for a build ends within 601 questions: with the exception of one of them, without a number,
-- or with a number other than 0 that one of them was answered with.
pub queue-Answer :
    (items : ℕ → Result (Option ℕ))
    → (r : Result (Bool × ℕ)) × (queue items ≡ some r) × Answer items 601 r
unfolding queue
queue-Answer items = elim (Option-cases (queue_from 601 items 0)) [
  | inl lost ↦ absurd (queue_from-none 600 items 0 refl lost)
  | inr r ↦ (r.0, r.1, queue_from-Answer 601 items 0 r.0 r.1)
]
