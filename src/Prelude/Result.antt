-- ===== src/Prelude/Result.antt =====
-- Go's `(value, error)` pairs: a value or an error, with the sequencing of `if err != nil`.
use mathlib.Core.Path.{◌≡◌, refl}
use mathlib.Core.Logic.{◌⊎◌, inl, inr}
use mathlib.Core.Bool.{Bool, true, false}
use mathlib.Core.List.{List, [], ◌∷◌}

pub data Result {ℓ κ} (E : Type ℓ) (A : Type κ) : Type (ℓ ⊔ κ) where
  ok : A → Result E A
  err : E → Result E A

abbrev pub is_ok {ε ℓ} : {E : Type ε} {A : Type ℓ} → Result E A → Bool
is_ok (err e) = false
is_ok (ok a) = true

-- Goes on with the value, if there is one.
infixl 5 ◌>>=◌
abbrev pub ◌>>=◌ {ε ℓ κ} :
    {E : Type ε} {A : Type ℓ} {B : Type κ} → Result E A → (A → Result E B) → Result E B
err e >>= next = err e
ok a >>= next = next a

-- A loop that stops at the first error.
abbrev pub each {ε ℓ} :
    {E : Type ε} {A : Type ℓ} → (A → Result E (Unit {0})) → List A → Result E (Unit {0})
each f [] = ok tt
each f (x ∷ xs) = f x >>= λ _. each f xs

-- Returns the error unless the test holds.
abbrev pub guard {ε} : {E : Type ε} → Bool → E → Result E (Unit {0})
guard test e = elim test [ true ↦ ok tt | false ↦ err e ]

infixl 5 ◌>>◌
abbrev pub ◌>>◌ {ε ℓ} : {E : Type ε} {B : Type ℓ} → Result E (Unit {0}) → Result E B → Result E B
first >> second = first >>= λ _. second

-- A value at the end was reached through a value of the first step.
pub >>=-eq-ok {ε ℓ κ} :
    {E : Type ε} {A : Type ℓ} {B : Type κ} (first : Result E A) (next : A → Result E B) {y : B}
    → (first >>= next) ≡ ok y
    → (x : A) × (first ≡ ok x) × (next x ≡ ok y)
>>=-eq-ok (err e) next reached = cc
>>=-eq-ok (ok x) next reached = (x, refl, reached)

pub Result-cases {ε ℓ} :
    {E : Type ε} {A : Type ℓ} (r : Result E A) → ((e : E) × (r ≡ err e)) ⊎ ((a : A) × (r ≡ ok a))
Result-cases (ok a) = inr (a, refl)
Result-cases (err e) = inl (e, refl)
