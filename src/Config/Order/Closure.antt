-- ===== src/Config/Order/Closure.antt =====
-- The search of `ordered` (internal/bitci/config.go) adds only names that were asked for and what
-- they need, directly or not.
use bitci.Prelude.{
  ℕ, zero, suc, true, Option, none, some, List, [], ◌∷◌, ◌++◌, ◌≡◌, refl, inl, inr, arith, contains,
  list_eq, nat_eq, Bool-cases,
}
use bitci.Prelude.Text.{Text}
use bitci.Prelude.Dict.{Dict, lookup}
use bitci.Prelude.Result.{Result, ok, err, ◌>>=◌}
use bitci.Config.{Task, ConfigError}
use bitci.Config.Order.{Search, visit_all, enter, leave, visit_task, visit}
use bitci.Config.Order.Relations.{contains-append, Needs}

-- The names that were asked for, and what those need.
pub data Needed (tasks : Dict Text Task) (roots : List Text) : Text → Type 0 where
  root : {x : Text} → contains roots x ≡ true → Needed tasks roots x
  need : {y x : Text} → Needed tasks roots y → Needs tasks y x → Needed tasks roots x

module _ (tasks : Dict Text Task) (roots : List Text) where
  abbrev pub AllNeeded : List Text → Type 0
  AllNeeded xs = (x : Text) → contains xs x ≡ true → Needed tasks roots x

  abbrev pub Keeps : Result ConfigError Search → Type 0
  Keeps (ok s) = AllNeeded s.ordered
  Keeps (err e) = Unit {0}

  bind-Keeps :
      (m : Result ConfigError Search) (f : Search → Result ConfigError Search)
      → Keeps m
      → ((s : Search) → AllNeeded s.ordered → Keeps (f s))
      → Keeps (m >>= f)
  bind-Keeps (ok s) f k h = h s k
  bind-Keeps (err e) f k h = tt

  pub visit_all-Keeps :
      (v : Text → Search → Result ConfigError Search)
      → ((n : Text) (s : Search) → Needed tasks roots n → AllNeeded s.ordered → Keeps (v n s))
      → (ns : List Text) (s : Search) → AllNeeded ns
      → AllNeeded s.ordered
      → Keeps (visit_all v ns s)
  unfolding visit_all
  visit_all-Keeps v h [] s want old = old
  visit_all-Keeps v h (n ∷ ns) s want old =
      bind-Keeps (v n s) (λ t. visit_all v ns t) (h n s (want n (ground arith)) old)
        (λ t k. visit_all-Keeps v h ns t (λ x m. want x (ground arith)) k)

  append-AllNeeded :
      (xs : List Text) (name : Text)
      → AllNeeded xs
      → Needed tasks roots name
      → AllNeeded (xs ++ name ∷ [])
  append-AllNeeded xs name old new x m = elim (list_eq.dec x name) [
    | yes p ↦ rw p new
    | no n ↦ old x (ground (arith, contains-append xs (name ∷ []) x))
  ]

  visit_task-Keeps :
      (v : Text → Search → Result ConfigError Search)
      → ((n : Text) (s : Search) → Needed tasks roots n → AllNeeded s.ordered → Keeps (v n s))
      → (name : Text) (s : Search) (o : Option Task) → lookup name tasks ≡ o
      → Needed tasks roots name
      → AllNeeded s.ordered
      → Keeps (visit_task v name s o)
  unfolding visit_task leave
  visit_task-Keeps v h name s none e want old = tt
  visit_task-Keeps v h name s (some task) e want old =
      bind-Keeps (visit_all v task.needs (enter name s)) (λ t. ok (leave name t))
        (visit_all-Keeps v h task.needs (enter name s) (λ x m. need want (task, e, m)) old)
        (λ t k. append-AllNeeded t.ordered name k want)

  pub visit-Keeps :
      (fuel : ℕ) (name : Text) (s : Search)
      → Needed tasks roots name
      → AllNeeded s.ordered
      → Keeps (visit tasks fuel name s)
  unfolding visit
  visit-Keeps zero name s want old = tt
  visit-Keeps (suc fuel) name s want old = elim (Bool-cases (contains s.seen name)) [
    | inl done ↦ rw done old
    | inr fresh ↦ rw fresh (elim (Bool-cases (contains s.visiting name)) [
      | inl busy ↦ rw busy tt
      | inr apart ↦ rw apart (
          visit_task-Keeps (visit tasks fuel) (visit-Keeps fuel) name s (lookup name tasks) refl
            want old)
    ])
  ]
