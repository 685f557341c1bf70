-- ===== src/Config/Validate/Orders.antt =====
-- A configuration that passed `Validate` can order any of its tasks: `Submit`, `Plan` and `Retry`
-- of internal/bitci never meet a cycle or an unknown need.
use bitci.Prelude.{
  ℕ, suc, ◌<◌, true, false, List, [], ◌∷◌, ◌≡◌, refl, inl, inr, arith, contains, ◌==◌,
  if◌then◌else◌, list_eq, nat_eq, ◌∙◌,
}
use bitci.Prelude.Text.{Text}
use bitci.Prelude.Dict.{Dict, lookup, is_some, contains-keys}
use bitci.Prelude.Result.{Result, ok, err}
use bitci.Config.{Config, Task, ConfigError, dependency_cycle, unknown_task}
use bitci.Config.Order.{ordered, task_names}
use bitci.Config.Order.Names.{task_names-lists}
use bitci.Config.Order.Relations.{Needs, NeedPath, Distinct, IsOrdered}
use bitci.Config.Order.Visit.{Explains}
use bitci.Config.Order.Correct.{IsRunOrder, ordered-IsRunOrder, ordered-Explains}
use bitci.Config.Validate.{validate}
use bitci.Config.Validate.Sound.{IsAccepted, validate-IsAccepted}

-- The place of a name in a list, or the list's length.
position : Text → List Text → ℕ
position x [] = 0
position x (y ∷ ys) = let rest = position x ys in if x == y then 0 else suc rest

module _ (tasks : Dict Text Task) where
  ready_before :
      (before xs : List Text) (y x : Text)
      → IsOrdered tasks before xs
      → contains xs y ≡ true
      → Needs tasks y x
      → Distinct xs
      → contains before x ≡ false
      → position x xs < position y xs
  unfolding position
  ready_before before [] y x o m n d f = absurd (ground arith)
  ready_before before (z ∷ xs) y x o m (task, found, needs) d f = elim (list_eq.dec y z) [
    | yes p ↦ absurd (clash p)
    | no p ↦ elim (list_eq.dec x z) [
      | yes q ↦ ground arith
      | no q ↦ ground (
        arith,
        ready_before (z ∷ before) xs y x o.1 (ground arith) (task, found, needs) d.1 (ground arith),
      )
    ]
  ]
    where
      clash : y ≡ z → ⊥
      clash p = ground (arith, (o.0).2 x)

  -- Along a chain of needs the place falls.
  NeedPath-position :
      (xs : List Text) (y x : Text)
      → IsOrdered tasks [] xs
      → Distinct xs
      → ((n : Text) → is_some (lookup n tasks) ≡ true → contains xs n ≡ true)
      → NeedPath tasks y x
      → position x xs < position y xs
  NeedPath-position xs y x o d all (NeedPath.one n) =
      ready_before [] xs y x o (all y (ground arith)) n d refl
  NeedPath-position xs z x o d all (NeedPath.more {y = y} p n) = omega (
    arith,
    NeedPath-position xs z y o d all p,
    ready_before [] xs y x o (all y (ground arith)) n d refl,
  )

-- The reasons for a failure cannot hold in an accepted configuration.
accepted-Explains :
    (config : Config) (names : List Text) (e : ConfigError)
    → IsAccepted config
    → ((n : Text) → contains names n ≡ true → is_some (lookup n config.tasks) ≡ true)
    → Explains config.tasks names e
    → ⊥
accepted-Explains config names (dependency_cycle x) a known p =
    let run = ordered-IsRunOrder config (task_names config) a.order a.ordered_all in
    let all = λ (n : Text) (h : is_some (lookup n config.tasks) ≡ true).
      run.requested n ((task_names-lists config).1 n ∙ contains-keys n config.tasks ∙ h) in
    omega (arith, NeedPath-position config.tasks a.order x x run.sorted run.distinct all p)
accepted-Explains config names (unknown_task x) a known (missing, inl asked) =
    ground (arith, known x asked)
accepted-Explains config names (unknown_task x) a known (missing, inr (y, (task, found, need))) =
    ground (arith, (a.sound y task found).needs x need)
accepted-Explains config names _ a known h = h

-- If `validate` accepts the configuration and every requested name has a task, then `ordered`
-- succeeds, and its answer is a run order of the requested names.
pub validate-ordered :
    (config : Config) (names : List Text)
    → validate config ≡ ok tt
    → ((n : Text) → contains names n ≡ true → is_some (lookup n config.tasks) ≡ true)
    → (xs : List Text) × (ordered config names ≡ ok xs) × IsRunOrder config.tasks names xs
validate-ordered config names v known = split (ordered config names) refl
  where
    split :
        (r : Result ConfigError (List Text))
        → ordered config names ≡ r
        → (xs : List Text) × (ordered config names ≡ ok xs) × IsRunOrder config.tasks names xs
    split (ok xs) e = (xs, e, ordered-IsRunOrder config names xs e)
    split (err e) h = absurd (
        accepted-Explains config names e (validate-IsAccepted config v) known
          (ordered-Explains config names e h))
