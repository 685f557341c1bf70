-- ===== src/Queue/Rows.antt =====
-- Rows before and after an update: what the statements of internal/bitci/controller.go never change
-- in the table jobs, row by row.
use bitci.Prelude.{
  ℕ, ◌+◌, ◌≤◌, Bool, true, false, Option, none, some, List, [], ◌∷◌, ◌++◌, ◌≡◌, refl, arith,
  if◌then◌else◌, nat_eq, list_eq, Bool-cases, inl, inr, ◌⊎◌,
}
use bitci.Queue.{State, Snapshot, Job}
use bitci.Queue.Table.{count, find, update, is_active, has_id}

-- A row keeps its state, or goes from an active state to a final one.
pub data Moves (s t : State) : Type 0 where
  stays : t ≡ s → Moves s t
  ends : is_active s ≡ true → is_active t ≡ false → Moves s t

pub record Revises (row next : Job) : Type 0 where
  pub id : next.id ≡ row.id
  pub batch : next.batch ≡ row.batch
  pub task : next.task ≡ row.task
  pub config_json : next.config_json ≡ row.config_json
  pub move : Moves row.state next.state

pub Revises-refl : (row : Job) → Revises row row
Revises-refl row = record {
  id = refl;
  batch = refl;
  task = refl;
  config_json = refl;
  move = stays refl;
}

-- Two tables of the same length, row by row.
abbrev pub Revised : List Job → List Job → Type 0
Revised [] [] = Unit {0}
Revised [] (y ∷ ys) = ⊥
Revised (x ∷ xs) [] = ⊥
Revised (x ∷ xs) (y ∷ ys) = Revises x y × Revised xs ys

pub Revised-refl : (xs : List Job) → Revised xs xs
Revised-refl [] = tt
Revised-refl (x ∷ xs) = (Revises-refl x, Revised-refl xs)

pub update-Revised :
    (p : Job → Bool) (f : Job → Job) (xs : List Job)
    → ((row : Job) → p row ≡ true → Revises row (f row))
    → Revised xs (update p f xs)
unfolding update
update-Revised p f [] h = tt
update-Revised p f (x ∷ xs) h = elim (Bool-cases (p x)) [
  | inl e ↦ rw e (h x e, update-Revised p f xs h)
  | inr e ↦ rw e (Revises-refl x, update-Revised p f xs h)
]

pub count_id-Revised :
    (id : ℕ) (xs ys : List Job) → Revised xs ys → count (has_id id) ys ≡ count (has_id id) xs
unfolding count
count_id-Revised id [] [] h = refl
count_id-Revised id [] (y ∷ ys) h = absurd h
count_id-Revised id (x ∷ xs) [] h = absurd h
count_id-Revised id (x ∷ xs) (y ∷ ys) h = ground (arith, count_id-Revised id xs ys h.1, h.0.id)

-- The configuration that the job of an id carries.
unfoldable pub config_of : ℕ → List Job → Option Snapshot
config_of id [] = none
config_of id (x ∷ xs) = if has_id id x then some x.config_json else config_of id xs

pub config_of-Revised :
    (id : ℕ) (xs ys : List Job) → Revised xs ys → config_of id ys ≡ config_of id xs
unfolding config_of
config_of-Revised id [] [] h = refl
config_of-Revised id [] (y ∷ ys) h = absurd h
config_of-Revised id (x ∷ xs) [] h = absurd h
config_of-Revised id (x ∷ xs) (y ∷ ys) h =
    ground (arith, config_of-Revised id xs ys h.1, h.0.id, h.0.config_json)

pub config_of-find :
    (id : ℕ) (xs : List Job) (job : Job)
    → find (has_id id) xs ≡ some job
    → config_of id xs ≡ some job.config_json
unfolding config_of find
config_of-find id [] job h = absurd (ground arith)
config_of-find id (x ∷ xs) job h = ground (arith, config_of-find id xs job)

pub config_of-find-none :
    (id : ℕ) (xs : List Job) → find (has_id id) xs ≡ none → config_of id xs ≡ none
unfolding config_of find
config_of-find-none id [] h = refl
config_of-find-none id (x ∷ xs) h = ground (arith, config_of-find-none id xs)

pub config_of-append :
    (id : ℕ) (xs ys : List Job) (c : Snapshot)
    → config_of id xs ≡ some c
    → config_of id (xs ++ ys) ≡ some c
unfolding config_of
config_of-append id [] ys c h = absurd (ground arith)
config_of-append id (x ∷ xs) ys c h = ground (arith, config_of-append id xs ys c)

module _ {ℓ} {A : Type ℓ} (p : A → Bool) where
  pub count-append : (xs ys : List A) → count p (xs ++ ys) ≡ count p xs + count p ys
  unfolding count
  count-append [] ys = omega arith
  count-append (x ∷ xs) ys = ground (arith, count-append xs ys)

  -- An update that makes no row satisfy `p` anew adds none.
  pub count-update_le :
      (q : A → Bool) (f : A → A) (xs : List A)
      → ((x : A) → p (f x) ≡ true → p x ≡ true)
      → count p (update q f xs) ≤ count p xs
  unfolding count update
  count-update_le q f [] h = omega arith
  count-update_le q f (x ∷ xs) h = ground (arith, count-update_le q f xs h, h x)

  pub count-update_add :
      (q : A → Bool) (f : A → A) (xs : List A) → count p (update q f xs) ≤ count p xs + count q xs
  unfolding count update
  count-update_add q f [] = omega arith
  count-update_add q f (x ∷ xs) = ground (arith, count-update_add q f xs)

-- The row that has an id after a revision had it before.
pub find-Revised :
    (id : ℕ) (xs ys : List Job) (y : Job)
    → Revised xs ys
    → find (has_id id) ys ≡ some y
    → (x : Job) × (find (has_id id) xs ≡ some x) × Revises x y
unfolding find
find-Revised id [] [] y h e = absurd (ground arith)
find-Revised id [] (z ∷ ys) y h e = absurd h
find-Revised id (x ∷ xs) [] y h e = absurd h
find-Revised id (x ∷ xs) (z ∷ ys) y h e = elim (Bool-cases (has_id id x)) [
  | inl hit ↦ let same : z ≡ y = ground (arith, h.0.id) in (x, rw hit, rw (← same) h.0)
  | inr miss ↦
      let rest : find (has_id id) ys ≡ some y = ground (arith, h.0.id) in
      let (w, found, r) = find-Revised id xs ys y h.1 rest in (w, rw miss found, r)
]

pub find-append :
    (id : ℕ) (xs : List Job) (row y : Job)
    → find (has_id id) (xs ++ row ∷ []) ≡ some y
    → (find (has_id id) xs ≡ some y) ⊎ ((find (has_id id) xs ≡ none) × (y ≡ row) × (row.id ≡ id))
unfolding find
find-append id [] row y h = ground arith
find-append id (x ∷ xs) row y h = ground (arith, find-append id xs row y)
