-- ===== src/Config/Order/Relations.antt =====
-- What the order of config.go is about: which task needs which, and lists in which every task
-- stands behind those it needs.
use bitci.Prelude.{
  ℕ, suc, ◌<◌, true, false, some, List, [], ◌∷◌, ◌++◌, ◌≡◌, refl, arith, contains, ◌||◌,
  if◌then◌else◌, list_eq, nat_eq, Eq, length, ap,
}
use bitci.Prelude.Text.{Text}
use bitci.Prelude.Dict.{Dict, lookup}
use bitci.Config.{Task}

module _ {ℓ} {A : Type ℓ} ⦃e : Eq A⦄ where
  abbrev pub Distinct : List A → Type 0
  Distinct [] = Unit {0}
  Distinct (x ∷ xs) = (contains xs x ≡ false) × Distinct xs

  pub contains-append :
      (xs ys : List A) (a : A) → contains (xs ++ ys) a ≡ contains xs a || contains ys a
  contains-append [] ys a = refl
  contains-append (x ∷ xs) ys a = ground (arith, contains-append xs ys a)

  pub Distinct-snoc :
      (xs : List A) (a : A) → Distinct xs → contains xs a ≡ false → Distinct (xs ++ a ∷ [])
  Distinct-snoc [] a d h = (refl, tt)
  Distinct-snoc (x ∷ xs) a d h =
      ground (arith, Distinct-snoc xs a d.1, contains-append xs (a ∷ []) x)

module _ (tasks : Dict Text Task) where
  -- Task `y` is configured and lists `x` among its needs.
  abbrev pub Needs : Text → Text → Type 0
  Needs y x = (task : Task) × (lookup y tasks ≡ some task) × (contains task.needs x ≡ true)

  -- A chain of at least one need.
  pub data NeedPath : Text → Text → Type 0 where
    one : {y x : Text} → Needs y x → NeedPath y x
    more : {z y x : Text} → NeedPath z y → Needs y x → NeedPath z x

  -- Each name is needed by the one behind it.
  abbrev pub Chain : Text → List Text → Type 0
  Chain x [] = Unit {0}
  Chain x (v ∷ vs) = Needs v x × Chain v vs

  pub Chain-NeedPath :
      (x : Text) (vs : List Text) (y : Text) → Chain x vs → contains vs y ≡ true → NeedPath y x
  Chain-NeedPath x [] y c h = absurd (ground arith)
  Chain-NeedPath x (v ∷ vs) y c h = elim (nat_list_dec y v) [
    | yes p ↦ rw p (one c.0)
    | no n ↦ more (Chain-NeedPath v vs y c.1 (ground arith)) c.0
  ]
    where
      nat_list_dec : Discrete Text
      nat_list_dec = list_eq.dec

  -- `x` is configured, and all that it needs is among `before`.
  abbrev pub IsReady : List Text → Text → Type 0
  IsReady before x =
      (task : Task) × (lookup x tasks ≡ some task)
      × ((n : Text) → contains task.needs n ≡ true → contains before n ≡ true)

  -- Each name of the list is ready when those in front of it are done.
  abbrev pub IsOrdered : List Text → List Text → Type 0
  IsOrdered before [] = Unit {0}
  IsOrdered before (x ∷ xs) = IsReady before x × IsOrdered (x ∷ before) xs

  IsReady-mono :
      (before after : List Text) (x : Text)
      → ((n : Text) → contains before n ≡ true → contains after n ≡ true)
      → IsReady before x
      → IsReady after x
  IsReady-mono before after x h (task, found, needs) = (task, found, λ n m. h n (needs n m))

  pub IsOrdered-snoc :
      (before xs : List Text) (x : Text)
      → IsOrdered before xs
      → IsReady (xs ++ before) x
      → IsOrdered before (xs ++ x ∷ [])
  IsOrdered-snoc before [] x o r = (r, tt)
  IsOrdered-snoc before (y ∷ xs) x o r = (
    o.0,
    IsOrdered-snoc (y ∷ before) xs x o.1 (
        IsReady-mono ((y ∷ xs) ++ before) (xs ++ y ∷ before) x
          (λ n h. ground (arith, contains-append xs before n, contains-append xs (y ∷ before) n))
          r),
  )

-- The configured names that are not being visited: what bounds the depth of the search.
unfoldable pub remaining : List Text → Dict Text Task → ℕ
remaining visiting [] = 0
remaining visiting ((k, t) ∷ d) =
    let rest = remaining visiting d in if contains visiting k then rest else suc rest

pub remaining-le :
    (v : Text) (vs : List Text) (d : Dict Text Task) → remaining (v ∷ vs) d < suc (remaining vs d)
unfolding remaining
remaining-le v vs [] = omega arith
remaining-le v vs ((k, t) ∷ d) = ground (arith, remaining-le v vs d)

-- Marking a configured name leaves fewer.
pub remaining-lt :
    (v : Text) (vs : List Text) (d : Dict Text Task) (t : Task)
    → lookup v d ≡ some t
    → contains vs v ≡ false
    → remaining (v ∷ vs) d < remaining vs d
unfolding remaining
remaining-lt v vs [] t h a = absurd (ground arith)
remaining-lt v vs ((k, u) ∷ d) t h a = ground (arith, remaining-le v vs d, remaining-lt v vs d t)

-- At first every configured name is left.
pub remaining-nil : (d : Dict Text Task) → remaining [] d ≡ length d
unfolding remaining
remaining-nil [] = refl
remaining-nil ((k, t) ∷ d) = ap suc (remaining-nil d)
