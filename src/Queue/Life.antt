-- ===== src/Queue/Life.antt =====
-- The life of jobs as a client sees it, and how the calls of internal/bitci/controller.go carry it out: a
-- list of ids with a state each, where a new job waits, a waiting one may start, and one that waits
-- or runs may end.
use bitci.Prelude.{
  ℕ, ◌≤◌, true, false, some, List, [], ◌∷◌, ◌++◌, ◌==◌, ◌≡◌, refl, arith, nat_eq, Bool-cases, inl,
  inr, ap,
}
use mathlib.Core.Path.{subst⁻¹}
use bitci.Config.{Config}
use bitci.Config.Validate.{validate}
use bitci.Prelude.Result.{ok}
use bitci.Queue.{State, queued, running, passed, failed, cancelled, Job, Store, Git, Host, World}
use bitci.Queue.Table.{count, find, update, is_queued, is_active, has_id}
use bitci.Queue.Rows.{Revised, Moves, stays, ends}
use bitci.Queue.Edits.{Edit, revises, releases, enqueues, starts, Edits, here, next}
use bitci.Queue.Invariant.{Inv, Edits-Inv}
use bitci.Queue.Claim.{start_row}
use bitci.Queue.Reach.{Call, run_all, run_all-Edits}

pub data Allowed : State → State → Type 0 where
  begins : Allowed queued running
  finishes : {s t : State} → is_active s ≡ true → is_active t ≡ false → Allowed s t

pub data Move : List (ℕ × State) → List (ℕ × State) → Type 0 where
  at_head :
      {id : ℕ} {s t : State} {jobs : List (ℕ × State)}
      → Allowed s t
      → Move ((id, s) ∷ jobs) ((id, t) ∷ jobs)
  behind :
      {job : ℕ × State} {before after : List (ℕ × State)}
      → Move before after
      → Move (job ∷ before) (job ∷ after)

abbrev pub Absent : ℕ → List (ℕ × State) → Type 0
Absent id [] = Unit {0}
Absent id ((other, state) ∷ jobs) = ((other == id) ≡ false) × Absent id jobs

-- Any number of changes: the last one moves one job, or adds one with a new id.
pub data Life (start : List (ℕ × State)) : List (ℕ × State) → Type 0 where
  begun : Life start start
  moved : {now after : List (ℕ × State)} → Life start now → Move now after → Life start after
  added :
      {now : List (ℕ × State)} (id : ℕ)
      → Life start now
      → Absent id now
      → Life start (now ++ (id, queued) ∷ [])

unfoldable pub view : List Job → List (ℕ × State)
view [] = []
view (job ∷ jobs) = (job.id, job.state) ∷ view jobs

-- Moves only.
data Moved (start : List (ℕ × State)) : List (ℕ × State) → Type 0 where
  unmoved : Moved start start
  then_move : {now after : List (ℕ × State)} → Moved start now → Move now after → Moved start after

Moved-trans : {a b c : List (ℕ × State)} → Moved a b → Moved b c → Moved a c
Moved-trans p unmoved = p
Moved-trans p (then_move q m) = then_move (Moved-trans p q) m

Moved-behind : (job : ℕ × State) {a b : List (ℕ × State)} → Moved a b → Moved (job ∷ a) (job ∷ b)
Moved-behind job unmoved = unmoved
Moved-behind job (then_move p m) = then_move (Moved-behind job p) (behind m)

Moved-Life : {a b c : List (ℕ × State)} → Life a b → Moved b c → Life a c
Moved-Life p unmoved = p
Moved-Life p (then_move q m) = moved (Moved-Life p q) m

head-Moves :
    (id : ℕ) (s t : State) (jobs : List (ℕ × State))
    → Moves s t
    → Moved ((id, s) ∷ jobs) ((id, t) ∷ jobs)
head-Moves id s t jobs (stays e) = rw e unmoved
head-Moves id s t jobs (ends active final) = then_move unmoved (at_head (finishes active final))

Revised-Moved : (xs ys : List Job) → Revised xs ys → Moved (view xs) (view ys)
unfolding view
Revised-Moved [] [] h = unmoved
Revised-Moved [] (y ∷ ys) h = absurd h
Revised-Moved (x ∷ xs) [] h = absurd h
Revised-Moved (x ∷ xs) (y ∷ ys) (h, rest) =
    Moved-trans (Moved-behind (x.id, x.state) (Revised-Moved xs ys rest))
      (rw h.id (head-Moves x.id x.state y.state (view ys) h.move))

update-absent :
    (id : ℕ) (f : Job → Job) (xs : List Job)
    → count (has_id id) xs ≡ 0
    → view (update (has_id id) f xs) ≡ view xs
unfolding view update count
update-absent id f [] h = refl
update-absent id f (x ∷ xs) h = ground (arith, update-absent id f xs)

queued_of : (s : State) → is_queued s ≡ true → s ≡ queued
queued_of queued h = refl
queued_of running h = absurd ground arith
queued_of passed h = absurd ground arith
queued_of failed h = absurd ground arith
queued_of cancelled h = absurd ground arith

waiting_begins : (s : State) → is_queued s ≡ true → Allowed s running
waiting_begins s h = subst⁻¹ (λ x. Allowed x running) (queued_of s h) begins

start-Moved :
    (id now : ℕ) (row : Job) (xs : List Job)
    → count (has_id id) xs ≤ 1
    → find (has_id id) xs ≡ some row
    → is_queued row.state ≡ true
    → Moved (view xs) (view (update (has_id id) (start_row now) xs))
unfolding view update count find start_row
start-Moved id now row [] one found waiting = absurd ground arith
start-Moved id now row (x ∷ xs) one found waiting = elim (Bool-cases (has_id id x)) [
  | inl hit ↦
      let same : is_queued x.state ≡ true = ground arith in
      let alone : count (has_id id) xs ≡ 0 = ground arith in
      let after : view (update (has_id id) (start_row now) (x ∷ xs)) ≡ (x.id, running) ∷ view xs =
        ground (arith, update-absent id (start_row now) xs alone) in
      subst⁻¹ (Moved (view (x ∷ xs))) after
        (then_move unmoved (at_head (waiting_begins x.state same)))
  | inr miss ↦
      let rest = start-Moved id now row xs (ground arith) (ground arith) waiting in
      let after : view (update (has_id id) (start_row now) (x ∷ xs))
          ≡ (x.id, x.state) ∷ view (update (has_id id) (start_row now) xs) =
        ground arith in
      subst⁻¹ (Moved (view (x ∷ xs))) after (Moved-behind (x.id, x.state) rest)
]

view-append :
    (xs : List Job) (row : Job)
    → is_queued row.state ≡ true
    → view (xs ++ row ∷ []) ≡ view xs ++ (row.id, queued) ∷ []
unfolding view
view-append [] row h = ap (λ s. (row.id, s) ∷ []) (queued_of row.state h)
view-append (x ∷ xs) row h = ap (λ ys. (x.id, x.state) ∷ ys) (view-append xs row h)

Absent-count : (id : ℕ) (xs : List Job) → count (has_id id) xs ≡ 0 → Absent id (view xs)
unfolding view count
Absent-count id [] h = tt
Absent-count id (x ∷ xs) h = (ground arith, Absent-count id xs (ground arith))

Edit-Life :
    (own : Config) (start : List (ℕ × State)) (s t : Store)
    → Edit own s t
    → Inv own s
    → Life start (view s.jobs)
    → Life start (view t.jobs)
Edit-Life own start s t (revises h _) inv p = Moved-Life p (Revised-Moved s.jobs t.jobs h)
Edit-Life own start s t (releases _ e _) inv p = rw e p
Edit-Life own start s t (enqueues row new waiting e _) inv p =
    subst⁻¹ (λ jobs. Life start (view jobs)) e
      (subst⁻¹ (Life start) (view-append s.jobs row waiting)
        (added row.id p (Absent-count row.id s.jobs new)))
Edit-Life own start s t (starts st) inv p =
    subst⁻¹ (λ jobs. Life start (view jobs)) st.started
      (Moved-Life p
        (start-Moved st.row.id st.now st.row s.jobs (inv.ids st.row.id) st.found st.waiting))

Edits-Life :
    (own : Config) (s : Store) {t : Store}
    → Edits own s t
    → Inv own s
    → Life (view s.jobs) (view t.jobs)
Edits-Life own s here inv = begun
Edits-Life own s (next {t = t} {u = u} es e) inv =
    Edit-Life own (view s.jobs) t u e (Edits-Inv own s es inv) (Edits-Life own s es inv)

-- Under a valid configuration, every sequence of calls carries out a life of the jobs: no row is lost or
-- moved in the list, no id is used twice, a job starts only from the queue, and a job that has ended is
-- never changed again.
pub run_all-Life :
    {Repo : Type 0} (git : Git Repo) (own : Config) (own_valid : validate own ≡ ok tt)
    (w : World Repo) (calls : List (Host × Call))
    → Inv own w.store
    → Life (view w.store.jobs) (view (run_all git own w calls).store.jobs)
run_all-Life git own own_valid w calls inv =
    Edits-Life own w.store (run_all-Edits git own own_valid w calls inv) inv
