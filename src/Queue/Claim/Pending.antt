-- ===== src/Queue/Claim/Pending.antt =====
-- The rows that the loop of `claimContext` (internal/bitci/controller.go) still has to look at:
-- they are in the table as they were selected, because the loop changes each row at most once.
use bitci.Prelude.{
  ℕ, ◌≤◌, Bool, true, false, some, List, [], ◌∷◌, ◌≡◌, arith, if◌then◌else◌, nat_eq, list_eq,
  Bool-cases, inl, inr,
}
use bitci.Queue.{Job}
use bitci.Queue.Table.{select, count, find, update, is_queued, has_id}
use bitci.Queue.Rows.{Revises, Revises-refl, Revised}

abbrev pub Pending : List Job → List Job → Type 0
Pending jobs [] = Unit {0}
Pending jobs (row ∷ rows) =
    (find (has_id row.id) jobs ≡ some row)
    × (is_queued row.state ≡ true)
    × (count (has_id row.id) rows ≡ 0)
    × Pending jobs rows

pub find-update :
    (id : ℕ) (p : Job → Bool) (f : Job → Job) (xs : List Job) (x : Job)
    → ((y : Job) → (f y).id ≡ y.id)
    → find (has_id id) xs ≡ some x
    → find (has_id id) (update p f xs) ≡ some (if p x then f x else x)
unfolding find update
find-update id p f [] x h e = absurd (ground arith)
find-update id p f (y ∷ ys) x h e = ground (arith, find-update id p f ys x h, h y)

pub find-has_id : (id : ℕ) (xs : List Job) (x : Job) → find (has_id id) xs ≡ some x → x.id ≡ id
unfolding find
find-has_id id [] x e = absurd (ground arith)
find-has_id id (y ∷ ys) x e = ground (arith, find-has_id id ys x)

pub update-Pending :
    (id : ℕ) (f : Job → Job) (jobs rows : List Job)
    → ((y : Job) → (f y).id ≡ y.id)
    → count (has_id id) rows ≡ 0
    → Pending jobs rows
    → Pending (update (has_id id) f jobs) rows
unfolding count
update-Pending id f jobs [] h c pending = tt
update-Pending id f jobs (row ∷ rows) h c (found, waiting, once, rest) = (
  (ground (arith, find-update row.id (has_id id) f jobs row h found)),
  waiting,
  once,
  update-Pending id f jobs rows h (ground arith) rest,
)

cons-Pending :
    (x : Job) (jobs rows : List Job)
    → count (has_id x.id) rows ≡ 0
    → Pending jobs rows
    → Pending (x ∷ jobs) rows
unfolding count find
cons-Pending x jobs [] c pending = tt
cons-Pending x jobs (row ∷ rows) c (found, waiting, once, rest) =
    (ground arith, waiting, once, cons-Pending x jobs rows (ground arith) rest)

count-select : (q p : Job → Bool) (xs : List Job) → count q (select p xs) ≤ count q xs
unfolding count select
count-select q p [] = omega arith
count-select q p (x ∷ xs) = ground (arith, count-select q p xs)

pub select-Pending :
    (xs : List Job)
    → ((id : ℕ) → count (has_id id) xs ≤ 1)
    → Pending xs (select (λ job. is_queued job.state) xs)
unfolding select count find
select-Pending [] once = tt
select-Pending (x ∷ xs) once =
    let none_left : count (has_id x.id) (select (λ job. is_queued job.state) xs) ≡ 0 =
      ground (arith, once x.id, count-select (has_id x.id) (λ job. is_queued job.state) xs) in
    let rest =
      cons-Pending x xs (select (λ job. is_queued job.state) xs) none_left
        (select-Pending xs (λ id. ground (arith, once id))) in
    elim (Bool-cases (is_queued x.state)) [
      | inl q ↦ rw q (ground arith, q, none_left, rest)
      | inr n ↦ rw n rest
    ]

update-none :
    (p : Job → Bool) (f : Job → Job) (xs : List Job) → count p xs ≡ 0 → Revised xs (update p f xs)
unfolding count update
update-none p f [] h = tt
update-none p f (x ∷ xs) h = elim (Bool-cases (p x)) [
  | inl e ↦ absurd (ground arith)
  | inr e ↦ rw e (Revises-refl x, update-none p f xs (ground arith))
]

-- The update of the one row of an id.
pub set-Revised :
    (id : ℕ) (f : Job → Job) (xs : List Job) (x : Job)
    → count (has_id id) xs ≤ 1
    → find (has_id id) xs ≡ some x
    → Revises x (f x)
    → Revised xs (update (has_id id) f xs)
unfolding count update find
set-Revised id f [] x c h r = tt
set-Revised id f (y ∷ ys) x c h r = elim (Bool-cases (has_id id y)) [
  | inl e ↦
      let same : y ≡ x = ground arith in
      rw (e, same) (r, update-none (has_id id) f ys (ground arith))
  | inr e ↦ rw e (Revises-refl y, set-Revised id f ys x (ground arith) (ground arith) r)
]

-- A row that an update did not touch: it satisfies `q`, which no updated row does.
pub find-update_back :
    (p q u : Job → Bool) (f : Job → Job) (xs : List Job) (y : Job)
    → ((x : Job) → p (f x) ≡ p x)
    → ((x : Job) → q (f x) ≡ false)
    → find p (update u f xs) ≡ some y
    → q y ≡ true
    → find p xs ≡ some y
unfolding find update
find-update_back p q u f [] y h k e m = absurd (ground arith)
find-update_back p q u f (x ∷ xs) y h k e m =
    ground (arith, find-update_back p q u f xs y h k, h x, k x)
