-- ===== src/Queue/Retry/Attempts.antt =====
-- The numbers of attempts that `RetryContext` of internal/bitci/controller.go gives.
use bitci.Prelude.{
  suc, ◌≤◌, ◌<◌, ◌&&◌, Option, none, some, List, [], ◌∷◌, ◌≡◌, arith, ◌==◌, if◌then◌else◌, nat_eq,
  list_eq, Bool-cases, Option-cases, inl, inr,
}
use mathlib.Core.Path.{subst}
use bitci.Prelude.Text.{Text}
use bitci.Prelude.Result.{ok}
use bitci.Config.{Config}
use bitci.Queue.{Job}
use bitci.Queue.Table.{select, All, All-map, in_batch}
use bitci.Queue.Submit.{RetryInfo}
use bitci.Queue.Retry.{root_of_row, find_last, later_attempt, latest, next_attempt, retry_task}

latest-max : (xs : List Job) (k : Job) → latest xs ≡ some k → All (λ j. j.attempt ≤ k.attempt) xs
unfolding latest
latest-max [] k h = tt
latest-max (x ∷ xs) k h = elim (Option-cases (latest xs)) [
  | inl only ↦ let same : x ≡ k = ground arith in (top same, none_left xs only)
  | inr (j, found) ↦ elim (Bool-cases (later_attempt j x)) [
    | inl later ↦
        let same : j ≡ k = ground arith in
        let order : x.attempt ≤ j.attempt = ground arith in
        (
          rw same at order,
          subst (λ i. All (λ y. y.attempt ≤ i.attempt) xs) same (latest-max xs j found),
        )
    | inr sooner ↦
        let same : x ≡ k = ground arith in
        let order : j.attempt ≤ x.attempt = ground arith in
        (
          top same,
          subst (λ z. All (λ y. y.attempt ≤ z.attempt) xs) same
              (All-map (λ i. i.attempt ≤ j.attempt) (λ i. i.attempt ≤ x.attempt) xs
                (λ i le. omega (arith, le, order)) (latest-max xs j found)),
        )
  ]
]
  where
    top : x ≡ k → x.attempt ≤ k.attempt
    top same = subst (λ i. x.attempt ≤ i.attempt) same (omega arith)

    none_left : (ys : List Job) → latest ys ≡ none → All (λ j. j.attempt ≤ k.attempt) ys
    none_left [] e = tt
    none_left (y ∷ ys) e = absurd (not_none (latest ys) e)
      where
        not_none :
            (o : Option Job)
            → elim o as (λ x. Option Job) [
              | none ↦ some y
              | some j ↦ if later_attempt j y then some j else some y
            ]
              ≡ none
            → ⊥
        not_none none e = absurd (ground arith)
        not_none (some j) e = absurd (ground arith)

next_attempt-after :
    (config : Config) (name : Text) (item last : Job) (info : RetryInfo)
    → next_attempt config name item last ≡ ok info
    → (info.attempt ≡ suc last.attempt) × (info.retry_root ≡ root_of_row item)
unfolding next_attempt
next_attempt-after config name item last info h = ground arith

-- A retry that is allowed gets an attempt number greater than that of every row of its chain, which
-- is the rows with the same root.
pub retry_task-fresh :
    (config : Config) (jobs : List Job) (batch name : Text) (info : RetryInfo)
    → retry_task config jobs batch name ≡ ok info
    → All
        (λ row. row.attempt < info.attempt)
        (select (λ row. root_of_row row == info.retry_root) jobs)
unfolding retry_task
retry_task-fresh config jobs batch name info h =
    elim (Option-cases (find_last (λ job. in_batch batch job && job.task == name) jobs)) [
      | inl lost ↦ absurd (ground arith)
      | inr (item, found) ↦
          elim (Option-cases (latest (select (λ job. root_of_row job == root_of_row item) jobs))) [
            | inl empty ↦ absurd (ground arith)
            | inr (last, newest) ↦
                let made : next_attempt config name item last ≡ ok info =
                  rw (retry_task, found, newest) at h in
                let (number, root) = next_attempt-after config name item last info made in
                rw (number, root)
                  (All-map (λ j. j.attempt ≤ last.attempt) (λ j. j.attempt < suc last.attempt) _
                    (λ j le. omega (arith, le))
                    (latest-max (select (λ job. root_of_row job == root_of_row item) jobs) last
                      newest))
          ]
    ]
