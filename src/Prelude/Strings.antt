-- ===== src/Prelude/Strings.antt =====
-- What the program uses of Go's package strings, over bytes. Letters are the ASCII ones.
use bitci.Prelude.Tests.{leb, ltb, if◌then◌else◌}
use bitci.Prelude.Lists.{length}
use bitci.Prelude.Equality.{◌==◌, nat_eq, list_eq}
use bitci.Prelude.Text.{Text}
use Prim.Native.Nat.{ℕ, zero, suc, ◌+◌, ◌-◌, ◌/◌, ◌%◌}
use mathlib.Core.Bool.{Bool, true, false, ◌&&◌, ◌||◌}
use mathlib.Core.Option.{Option, none, some}
use mathlib.Core.List.{List, [], ◌∷◌, ◌++◌, map, reverse}

abbrev pub is_empty {ℓ} : {A : Type ℓ} → List A → Bool
is_empty [] = true
is_empty (x ∷ xs) = false

unfoldable pub lower_byte : ℕ → ℕ
lower_byte c = if leb b'A' c && leb c b'Z' then c + 32 else c

unfoldable pub upper_byte : ℕ → ℕ
upper_byte c = if leb b'a' c && leb c b'z' then c - 32 else c

-- `strings.ToLower`, `strings.ToUpper`, `strings.EqualFold`.
unfoldable pub to_lower : Text → Text
unfolding lower_byte
to_lower s = map lower_byte s

unfoldable pub to_upper : Text → Text
unfolding upper_byte
to_upper s = map upper_byte s

unfoldable pub equal_fold : Text → Text → Bool
unfolding to_lower
equal_fold s t = to_lower s == to_lower t

unfoldable pub has_prefix : Text → Text → Bool
has_prefix s [] = true
has_prefix [] (p ∷ ps) = false
has_prefix (c ∷ s) (p ∷ ps) = c == p && has_prefix s ps

unfoldable pub has_suffix : Text → Text → Bool
unfolding has_prefix
has_suffix s t = has_prefix (reverse s) (reverse t)

-- The bytes behind a prefix, or `none`.
unfoldable pub strip_prefix : Text → Text → Option Text
strip_prefix s [] = some s
strip_prefix [] (p ∷ ps) = none
strip_prefix (c ∷ s) (p ∷ ps) = let rest = strip_prefix s ps in if c == p then rest else none

-- `strings.Cut` at one byte: the texts in front of its first place and behind it.
unfoldable pub cut : ℕ → Text → Option (Text × Text)
cut sep [] = none
cut sep (c ∷ s) =
    let rest = cut sep s in
    if c == sep
    then some ([], s)
    else elim rest [ none ↦ none | some (before, after) ↦ some (c ∷ before, after) ]

-- White space at both ends is dropped.
abbrev pub is_space : ℕ → Bool
is_space c = c == 32 || (leb 9 c && leb c 13)

unfoldable pub trim_left : Text → Text
trim_left [] = []
trim_left (c ∷ s) = let rest = trim_left s in if is_space c then rest else c ∷ s

unfoldable pub trim_space : Text → Text
unfolding trim_left
trim_space s = reverse (trim_left (reverse (trim_left s)))

-- `strings.Contains` and `strings.ReplaceAll` of a text that is not empty.
unfoldable pub contains_text : Text → Text → Bool
contains_text [] sub = is_empty sub
contains_text (c ∷ s) sub = has_prefix (c ∷ s) sub || contains_text s sub

-- The second argument counts the bytes that the last match still covers.
unfoldable pub replace_from : (old new : Text) → ℕ → Text → Text
replace_from old new skip [] = []
replace_from old new zero (c ∷ s) =
    let matched = new ++ replace_from old new (length old - 1) s in
    let kept = c ∷ replace_from old new 0 s in if has_prefix (c ∷ s) old then matched else kept
replace_from old new (suc skip) (c ∷ s) = replace_from old new skip s

abbrev pub replace_all : (s old new : Text) → Text
replace_all s old new = replace_from old new 0 s

-- The text without a suffix, if it ends in it.
abbrev pub trim_suffix : Text → Text → Text
trim_suffix s t = elim (strip_prefix (reverse s) (reverse t)) [ none ↦ s | some r ↦ reverse r ]

-- The parts between separators, as `strings.FieldsFunc` gives them: none is empty.
unfoldable pub fields : (ℕ → Bool) → Text → Text → List Text
fields sep part [] = if is_empty part then [] else reverse part ∷ []
fields sep part (c ∷ s) =
    let next = fields sep [] s in
    let same = fields sep (c ∷ part) s in
    if sep c then (if is_empty part then next else reverse part ∷ next) else same

unfoldable pub count_byte : ℕ → Text → ℕ
count_byte b [] = 0
count_byte b (c ∷ s) = let rest = count_byte b s in if c == b then suc rest else rest

-- `strings.Fields`.
abbrev pub split_space : Text → List Text
split_space s = fields is_space [] s

-- A number in decimal digits; the fuel is more than it has digits.
unfoldable pub decimal_from : (fuel n : ℕ) → Text → Text
decimal_from zero n rest = rest
decimal_from (suc fuel) n rest =
    let more = decimal_from fuel (n / 10) ((b'0' + n % 10) ∷ rest) in
    if ltb n 10 then (b'0' + n) ∷ rest else more

abbrev pub decimal : ℕ → Text
decimal n = decimal_from (suc n) n []
