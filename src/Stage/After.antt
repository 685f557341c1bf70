-- ===== src/Stage/After.antt =====
-- What holds after a step of internal/bitci/stage.go: one predicate for a returned value, one for an
-- error, and a rule for each way to build a step.
use bitci.Prelude.{Bool, true, false, Option, none, some, List, [], ◌∷◌, ◌≡◌, refl}
use bitci.Prelude.Result.{Result, ok, err}
use bitci.Config.{Config}
use bitci.Stage.{
  Site, StageError, Step, ◌>>=◌, done, require, ask, change, clear_staged, set_config,
}

abbrev pub Holds :
    {Repo A : Type 0} (P : Site Repo → A → Type 0) (E : Site Repo → Type 0)
    → Site Repo × Result (List StageError) A
    → Type 0
Holds P E (s, ok a) = P s a
Holds P E (s, err errors) = E s

pub record After {Repo A : Type 0} (P : Site Repo → A → Type 0) (E : Site Repo → Type 0)
    (r : Site Repo × Result (List StageError) A) : Type 0 where
  pub holds : Holds P E r

module _ {Repo : Type 0} {E : Site Repo → Type 0} where
  pub After-bind :
      {A B : Type 0} {P : Site Repo → B → Type 0} (m : Step Repo A) (f : A → Step Repo B)
      (s : Site Repo)
      → After (λ t a. After P E (f a t)) E (m s)
      → After P E ((m >>= f) s)
  unfolding ◌>>=◌
  After-bind {A} {B} {P} m f s h = go (m s) h.holds
    where
      go :
          (r : Site Repo × Result (List StageError) A)
          → Holds (λ t a. After P E (f a t)) E r
          → After P E (elim r.1 as (λ x. Site Repo × Result (List StageError) B) [
            | err e ↦ (r.0, err e)
            | ok a ↦ f a r.0
          ])
      go (t, ok a) k = k
      go (t, err e) k = record { holds = k }

  pub After-done :
      {A : Type 0} {P : Site Repo → A → Type 0} (a : A) (s : Site Repo)
      → P s a
      → After P E (done a s)
  unfolding done
  After-done a s h = record { holds = h }

  pub After-require :
      {P : Site Repo → Unit {0} → Type 0} (b : Bool) (e : StageError) (s : Site Repo)
      → (b ≡ true → P s tt)
      → E s
      → After P E (require b e s)
  unfolding require
  After-require true e s h k = record { holds = h refl }
  After-require false e s h k = record { holds = k }

  pub After-ask :
      {A : Type 0} {P : Site Repo → A → Type 0} (f : Repo → Option A) (e : StageError)
      (s : Site Repo)
      → ((a : A) → f s.repo ≡ some a → P s a)
      → E s
      → After P E (ask f e s)
  unfolding ask
  After-ask {A} {P} f e s h k = go (f s.repo) h
    where
      go :
          (o : Option A)
          → ((a : A) → o ≡ some a → P s a)
          → After P E (elim o as (λ x. Site Repo × Result (List StageError) A) [
            | none ↦ (s, err (e ∷ []))
            | some a ↦ (s, ok a)
          ])
      go none j = record { holds = k }
      go (some a) j = record { holds = j a refl }

  pub After-change :
      {P : Site Repo → Unit {0} → Type 0} (f : Repo → Option Repo) (e : StageError) (s : Site Repo)
      → ((r : Repo) → f s.repo ≡ some r → P (record s { repo = r }) tt)
      → E s
      → After P E (change f e s)
  unfolding change
  After-change {P} f e s h k = go (f s.repo) h
    where
      go :
          (o : Option Repo)
          → ((r : Repo) → o ≡ some r → P (record s { repo = r }) tt)
          → After P E (elim o as (λ x. Site Repo × Result (List StageError) (Unit {0})) [
            | none ↦ (s, err (e ∷ []))
            | some r ↦ (record s { repo = r }, ok tt)
          ])
      go none j = record { holds = k }
      go (some r) j = record { holds = j r refl }

  pub After-clear_staged :
      {P : Site Repo → Unit {0} → Type 0} (s : Site Repo)
      → P (record s { staged = none }) tt
      → After P E (clear_staged s)
  unfolding clear_staged
  After-clear_staged s h = record { holds = h }

  pub After-set_config :
      {P : Site Repo → Unit {0} → Type 0} (c : Config) (s : Site Repo)
      → P (record s { config = c }) tt
      → After P E (set_config c s)
  unfolding set_config
  After-set_config c s h = record { holds = h }

pub After-map :
    {Repo A : Type 0} {P Q : Site Repo → A → Type 0} {E F : Site Repo → Type 0}
    (r : Site Repo × Result (List StageError) A)
    → ((t : Site Repo) (a : A) → P t a → Q t a)
    → ((t : Site Repo) → E t → F t)
    → After P E r
    → After Q F r
After-map (t, ok a) f g h = record { holds = f t a h.holds }
After-map (t, err e) f g h = record { holds = g t h.holds }

-- The rules for a step that others follow; a failure's state comes first.
module _ {Repo B : Type 0} {P : Site Repo → B → Type 0} {E : Site Repo → Type 0} where
  pub require-then :
      {b : Bool} {s : Site Repo} (e : StageError) (k : Unit {0} → Step Repo B)
      → E s
      → (b ≡ true → After P E (k tt s))
      → After P E ((require b e >>= k) s)
  require-then e k failed next = After-bind _ _ _ (After-require _ _ _ next failed)

  pub ask-then :
      {A : Type 0} {s : Site Repo} (f : Repo → Option A) (e : StageError) (k : A → Step Repo B)
      → E s
      → ((a : A) → f s.repo ≡ some a → After P E (k a s))
      → After P E ((ask f e >>= k) s)
  ask-then f e k failed next = After-bind _ _ _ (After-ask _ _ _ next failed)

  pub change-then :
      {s : Site Repo} (f : Repo → Option Repo) (e : StageError) (k : Unit {0} → Step Repo B)
      → E s
      → ((r : Repo) → f s.repo ≡ some r → After P E (k tt (record s { repo = r })))
      → After P E ((change f e >>= k) s)
  change-then f e k failed next = After-bind _ _ _ (After-change _ _ _ next failed)

  pub clear_staged-then :
      (s : Site Repo) (k : Unit {0} → Step Repo B)
      → After P E (k tt (record s { staged = none }))
      → After P E ((clear_staged >>= k) s)
  clear_staged-then s k next = After-bind _ _ _ (After-clear_staged _ next)

  pub set_config-then :
      (c : Config) (s : Site Repo) (k : Unit {0} → Step Repo B)
      → After P E (k tt (record s { config = c }))
      → After P E ((set_config c >>= k) s)
  set_config-then c s k next = After-bind _ _ _ (After-set_config _ _ next)
