-- ===== src/Prelude/Equality.antt =====
-- Go's `==` for every type whose equality can be decided, and membership in a list.
use Prim.Native.Nat.{ℕ}
use mathlib.Core.Path.{◌≡◌, refl, ap, ap₂}
use mathlib.Core.Logic.{ite, dite}
use mathlib.Core.Bool.{Bool, true, false, ◌||◌}
use mathlib.Core.Option.{Option, none, some}
use mathlib.Core.List.{List, [], ◌∷◌}
use native.Mathlib.Decide.{ℕ_discrete}

pub record Eq {ℓ} (A : Type ℓ) : Type ℓ where
  pub dec : Discrete A

module _ {ℓ} {A : Type ℓ} where
  pub cons_head : (a b : A) (s t : List A) → ◌≡◌ {A = List A} (a ∷ s) (b ∷ t) → a ≡ b
  cons_head a b s t p = cc

  pub cons_tail : (a b : A) (s t : List A) → ◌≡◌ {A = List A} (a ∷ s) (b ∷ t) → s ≡ t
  cons_tail a b s t p = cc

  pub nil-ne-cons : (a : A) (s : List A) → ¬ (◌≡◌ {A = List A} [] (a ∷ s))
  nil-ne-cons a s p = cc

  pub cons-ne-nil : (a : A) (s : List A) → ¬ (◌≡◌ {A = List A} (a ∷ s) [])
  cons-ne-nil a s p = cc

  pub none-ne-some : (a : A) → ¬ (◌≡◌ {A = Option A} none (some a))
  none-ne-some a p = cc

  pub some-ne-none : (a : A) → ¬ (◌≡◌ {A = Option A} (some a) none)
  some-ne-none a p = cc

  pub some_inj : (a b : A) → ◌≡◌ {A = Option A} (some a) (some b) → a ≡ b
  some_inj a b p = cc

module _ {ℓ} {A : Type ℓ} ⦃e : Eq A⦄ where
  infix 50 ◌==◌
  abbrev pub ◌==◌ : A → A → Bool
  a == b = ite (e.dec a b) true false

  abbrev pub contains : List A → A → Bool
  contains [] a = false
  contains (x ∷ xs) a = a == x || contains xs a

  pub list_dec : Discrete (List A)
  list_dec [] [] = yes refl
  list_dec [] (b ∷ t) = no (nil-ne-cons b t)
  list_dec (a ∷ s) [] = no (cons-ne-nil a s)
  list_dec (a ∷ s) (b ∷ t) =
      dite (e.dec a b)
        (λ p. dite (list_dec s t) (λ q. yes (ap₂ ◌∷◌ p q)) (λ n. no (λ r. n (cons_tail a b s t r))))
        (λ n. no (λ r. n (cons_head a b s t r)))

  pub option_dec : Discrete (Option A)
  option_dec none none = yes refl
  option_dec none (some b) = no (none-ne-some b)
  option_dec (some a) none = no (some-ne-none a)
  option_dec (some a) (some b) =
      dite (e.dec a b) (λ p. yes (ap some p)) (λ n. no (λ r. n (some_inj a b r)))

  instance unfoldable pub list_eq : Eq (List A)
  unfolding list_dec
  list_eq = record { dec = list_dec }

  instance unfoldable pub option_eq : Eq (Option A)
  unfolding option_dec
  option_eq = record { dec = option_dec }

instance unfoldable pub nat_eq : Eq ℕ
unfolding ℕ_discrete
nat_eq = record { dec = ℕ_discrete }
