-- ===== src/Config/Order/Correct.antt =====
-- What `Ordered` (internal/bitci/config.go) returns, and why it fails.
use bitci.Prelude.{suc, true, List, [], ◌≡◌, refl, arith, contains, length, list_eq, nat_eq}
use bitci.Prelude.Text.{Text}
use bitci.Prelude.Dict.{Dict}
use bitci.Prelude.Result.{Result, ok, err, ◌>>=◌}
use bitci.Config.{Config, Task, ConfigError}
use bitci.Config.Order.{Search, start, visit_all, visit, ordered}
use bitci.Config.Order.Relations.{Distinct, IsOrdered, remaining-nil}
use bitci.Config.Order.Visit.{Valid, Visits, Explains, Ensures, visit_all-Ensures}
use bitci.Config.Order.Closure.{Needed, Keeps, visit_all-Keeps, visit-Keeps}

-- The run order of the requested names.
pub record IsRunOrder (tasks : Dict Text Task) (names xs : List Text) : Type 0 where
  pub sorted : IsOrdered tasks [] xs
  pub distinct : Distinct xs
  pub requested : (x : Text) → contains names x ≡ true → contains xs x ≡ true
  pub needed : (x : Text) → contains xs x ≡ true → Needed tasks names x

module _ (config : Config) (names : List Text) where
  start-Valid : Valid config.tasks names start
  start-Valid = record { same = λ x. refl; apart = λ x h. refl; distinct = tt; sorted = tt }

  abbrev search : Result ConfigError Search
  search = visit_all (visit config.tasks (suc (length config.tasks))) names start

  search-Ensures : Ensures config.tasks names (Visits config.tasks names names start) search
  search-Ensures =
      visit_all-Ensures config.tasks names (suc (length config.tasks)) start start-Valid refl
        (omega (arith, remaining-nil config.tasks))

  search-Keeps : Keeps config.tasks names search
  search-Keeps =
      visit_all-Keeps config.tasks names (visit config.tasks (suc (length config.tasks)))
        (visit-Keeps config.tasks names (suc (length config.tasks))) names start
        (λ x m. Needed.root m) (λ x m. absurd (ground arith))

  abbrev Answers : Result ConfigError (List Text) → Type 0
  Answers = Ensures config.tasks names (IsRunOrder config.tasks names)

  finish_search :
      (r : Result ConfigError Search)
      → Ensures config.tasks names (Visits config.tasks names names start) r
      → Keeps config.tasks names r
      → Answers (r >>= λ s. ok s.ordered)
  finish_search (ok s) v k = record {
    sorted = v.valid.sorted;
    distinct = v.valid.distinct;
    requested = λ x m. ground (arith, v.all x m, v.valid.same x);
    needed = k;
  }
  finish_search (err e) v k = v

  pub ordered-Answers : Answers (ordered config names)
  unfolding ordered
  ordered-Answers = finish_search search search-Ensures search-Keeps

-- A list that `ordered` returns holds each requested name, only requested names and what they
-- need, directly or not, each name once, and each name behind all that its task needs.
pub ordered-IsRunOrder :
    (config : Config) (names xs : List Text)
    → ordered config names ≡ ok xs
    → IsRunOrder config.tasks names xs
ordered-IsRunOrder config names xs h = rw h at (ordered-Answers config names)

-- `ordered` fails only for a name that has no task and was requested or is needed by a task, or
-- at a task that needs itself through a chain of needs; the fuel of the search never runs out.
pub ordered-Explains :
    (config : Config) (names : List Text) (e : ConfigError)
    → ordered config names ≡ err e
    → Explains config.tasks names e
ordered-Explains config names e h = rw h at (ordered-Answers config names)
