-- ===== src/Config/Order/Names.antt =====
-- `TaskNames` of internal/bitci/config.go: the names come out in the same order whatever order
-- Go's map iteration has.
use mathlib.Core.List.{Perm, Permᴰ}
use mathlib.Core.Logic.{∥∥₁_elim}
use native.Mathlib.Nat.{ℕ_set}
use bitci.Prelude.{
  true, false, List, [], ◌∷◌, ◌≡◌, refl, ap, ◌∙◌, arith, contains, ◌==◌, ◌||◌, list_eq, nat_eq,
}
use bitci.Prelude.Text.{Text}
use bitci.Prelude.Dict.{keys}
use bitci.Config.{Config}
use bitci.Config.Order.{text_leb, insert_name, sort_strings, task_names}

text_leb-total : (s t : Text) → text_leb s t ≡ false → text_leb t s ≡ true
unfolding text_leb
text_leb-total [] t h = absurd (ground arith)
text_leb-total (a ∷ s) [] h = refl
text_leb-total (a ∷ s) (b ∷ t) h = ground (arith, text_leb-total s t)

text_leb_antisymm : (s t : Text) → text_leb s t ≡ true → text_leb t s ≡ true → s ≡ t
unfolding text_leb
text_leb_antisymm [] [] h k = refl
text_leb_antisymm [] (b ∷ t) h k = absurd (ground arith)
text_leb_antisymm (a ∷ s) [] h k = absurd (ground arith)
text_leb_antisymm (a ∷ s) (b ∷ t) h k = ground (arith, text_leb_antisymm s t)

text_leb_trans : (s t u : Text) → text_leb s t ≡ true → text_leb t u ≡ true → text_leb s u ≡ true
unfolding text_leb
text_leb_trans [] t u h k = refl
text_leb_trans (a ∷ s) [] u h k = absurd (ground arith)
text_leb_trans (a ∷ s) (b ∷ t) [] h k = absurd (ground arith)
text_leb_trans (a ∷ s) (b ∷ t) (c ∷ u) h k = ground (arith, text_leb_trans s t u)

insert_name_comm :
    (a b : Text) (ns : List Text)
    → insert_name a (insert_name b ns) ≡ insert_name b (insert_name a ns)
unfolding insert_name
insert_name_comm a b [] =
    ground (arith, text_leb-total a b, text_leb-total b a, text_leb_antisymm a b)
insert_name_comm a b (n ∷ ns) = ground (
  arith,
  text_leb-total a b,
  text_leb-total b a,
  text_leb_antisymm a b,
  text_leb_trans a b n,
  text_leb_trans b a n,
  insert_name_comm a b ns,
)

sort_strings-permᴰ : {ns ms : List Text} → Permᴰ ns ms → sort_strings ns ≡ sort_strings ms
unfolding sort_strings
sort_strings-permᴰ Permᴰ.nil = refl
sort_strings-permᴰ (Permᴰ.cons e h) = cc (sort_strings-permᴰ h)
sort_strings-permᴰ (Permᴰ.swap {a = a} {b = b} {l = l} e f) =
    cc (insert_name_comm a b (sort_strings l))
sort_strings-permᴰ (Permᴰ.trans h k) = sort_strings-permᴰ h ∙ sort_strings-permᴰ k

names_set : IsSet (List Text)
names_set = hlevel ℕ_set

-- Two configurations with the same task names, held in any two orders, list them alike.
pub task_names-perm :
    (config other : Config)
    → Perm (keys config.tasks) (keys other.tasks)
    → task_names config ≡ task_names other
unfolding task_names
task_names-perm config other h = ∥∥₁_elim h (names_set _ _) sort_strings-permᴰ

-- The names stand in byte order, each before or equal to the next.
abbrev pub IsSorted : List Text → Type 0
IsSorted [] = Unit {0}
IsSorted (n ∷ []) = Unit {0}
IsSorted (n ∷ m ∷ ms) = (text_leb n m ≡ true) × IsSorted (m ∷ ms)

insert_name-IsSorted : (a : Text) (ns : List Text) → IsSorted ns → IsSorted (insert_name a ns)
unfolding insert_name
insert_name-IsSorted a [] h = tt
insert_name-IsSorted a (n ∷ []) h = ground (arith, text_leb-total a n)
insert_name-IsSorted a (n ∷ m ∷ ms) h =
    ground (arith, text_leb-total a n, text_leb-total a m, insert_name-IsSorted a (m ∷ ms) h.1)

sort_strings-IsSorted : (ns : List Text) → IsSorted (sort_strings ns)
unfolding sort_strings
sort_strings-IsSorted [] = tt
sort_strings-IsSorted (n ∷ ns) = insert_name-IsSorted n (sort_strings ns) (sort_strings-IsSorted ns)

contains-insert_name :
    (a : Text) (ns : List Text) (x : Text)
    → contains (insert_name a ns) x ≡ (x == a || contains ns x)
unfolding insert_name
contains-insert_name a [] x = refl
contains-insert_name a (n ∷ ns) x = ground (arith, contains-insert_name a ns x)

pub contains-sort_strings :
    (ns : List Text) (x : Text) → contains (sort_strings ns) x ≡ contains ns x
unfolding sort_strings
contains-sort_strings [] x = refl
contains-sort_strings (n ∷ ns) x =
    contains-insert_name n (sort_strings ns) x ∙ ap (λ b. x == n || b) (contains-sort_strings ns x)

-- `TaskNames` lists exactly the configured names, in byte order.
pub task_names-lists :
    (config : Config)
    → IsSorted (task_names config)
      × ((x : Text) → contains (task_names config) x ≡ contains (keys config.tasks) x)
unfolding task_names
task_names-lists config =
    (sort_strings-IsSorted (keys config.tasks), contains-sort_strings (keys config.tasks))
