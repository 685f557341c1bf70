-- ===== src/Queue/Table.antt =====
-- The statements of SQL that internal/bitci/controller.go uses, over lists of rows, and their laws.
use bitci.Prelude.{
  ℕ, suc, Bool, true, false, ◌||◌, Option, none, some, List, [], ◌∷◌, ◌≡◌, arith, ◌==◌,
  if◌then◌else◌, nat_eq, list_eq, Bool-cases, inl, inr,
}
use bitci.Prelude.Text.{Text}
use bitci.Queue.{State, queued, running, Job}

module _ {ℓ} {A : Type ℓ} where
  -- `SELECT … WHERE p`, its count, and its first row.
  unfoldable pub select : (A → Bool) → List A → List A
  select p [] = []
  select p (x ∷ xs) = let rest = select p xs in if p x then x ∷ rest else rest

  unfoldable pub count : (A → Bool) → List A → ℕ
  count p [] = 0
  count p (x ∷ xs) = let rest = count p xs in if p x then suc rest else rest

  unfoldable pub find : (A → Bool) → List A → Option A
  find p [] = none
  find p (x ∷ xs) = if p x then some x else find p xs

  -- `UPDATE … SET f WHERE p`.
  unfoldable pub update : (A → Bool) → (A → A) → List A → List A
  update p f [] = []
  update p f (x ∷ xs) = (if p x then f x else x) ∷ update p f xs

  -- A property of every row.
  abbrev pub All {κ} : (A → Type κ) → List A → Type κ
  All P [] = Unit
  All P (x ∷ xs) = P x × All P xs

  pub All-map {κ μ} :
      (P : A → Type κ) (Q : A → Type μ) (xs : List A) → ((x : A) → P x → Q x) → All P xs → All Q xs
  All-map P Q [] h a = tt
  All-map P Q (x ∷ xs) h a = (h x a.0, All-map P Q xs h a.1)

  pub All-update {κ} :
      (P : A → Type κ) (p : A → Bool) (f : A → A) (xs : List A)
      → ((x : A) → p x ≡ true → P x → P (f x))
      → All P xs
      → All P (update p f xs)
  unfolding update
  All-update P p f [] h a = tt
  All-update P p f (x ∷ xs) h a = elim (Bool-cases (p x)) [
    | inl e ↦ rw e (h x e a.0, All-update P p f xs h a.1)
    | inr e ↦ rw e (a.0, All-update P p f xs h a.1)
  ]

  pub All-select {κ} :
      (P : A → Type κ) (p : A → Bool) (xs : List A) → All P xs → All P (select p xs)
  unfolding select
  All-select P p [] a = tt
  All-select P p (x ∷ xs) a = elim (Bool-cases (p x)) [
    | inl e ↦ rw e (a.0, All-select P p xs a.1)
    | inr e ↦ rw e (All-select P p xs a.1)
  ]

  pub All-find {κ} :
      (P : A → Type κ) (p : A → Bool) (xs : List A) (x : A)
      → All P xs
      → find p xs ≡ some x
      → P x × (p x ≡ true)
  unfolding find
  All-find P p [] x a h = absurd (ground arith)
  All-find P p (y ∷ xs) x a h = elim (Bool-cases (p y)) [
    | inl e ↦ let same : y ≡ x = ground arith in rw (← same) (a.0, e)
    | inr e ↦ All-find P p xs x a.1 (ground arith)
  ]

abbrev pub is_queued : State → Bool
is_queued queued = true
is_queued _ = false

abbrev pub is_running : State → Bool
is_running running = true
is_running _ = false

-- `state IN ('queued', 'running')`.
abbrev pub is_active : State → Bool
is_active s = is_queued s || is_running s

abbrev pub has_id : ℕ → Job → Bool
has_id id job = job.id == id

abbrev pub in_batch : Text → Job → Bool
in_batch batch job = job.batch == batch
