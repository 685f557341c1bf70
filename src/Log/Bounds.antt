-- ===== src/Log/Bounds.antt =====
-- How much of a log one call of internal/bitci/controller.go returns, and where it leaves the cursor.
use bitci.Prelude.{
  ℕ, zero, suc, ◌-◌, ◌≤◌, Bool, List, [], ◌∷◌, ◌++◌, ◌≡◌, refl, arith, ◌==◌, if◌then◌else◌, nat_eq,
  list_eq, length, length-append, Bool-cases, inl, inr,
}
use bitci.Prelude.Text.{Text}
use bitci.Prelude.Int.{ℤ, pos, negsuc}
use bitci.Log.{log_limit, push_line, keep_lines, drop_first, redact_log_line}

-- All but the first `n` values.
abbrev pub drop {ℓ} : {A : Type ℓ} → ℕ → List A → List A
drop zero xs = xs
drop (suc n) [] = []
drop (suc n) (x ∷ xs) = drop n xs

-- The lines that the test wants, redacted.
abbrev pub wanted : (Text → Bool) → List Text → List Text → List Text
wanted include redact [] = []
wanted include redact (line ∷ lines) =
    if include line
    then redact_log_line line redact ∷ wanted include redact lines
    else wanted include redact lines

drop-nil : (n : ℕ) → drop {A = Text} n [] ≡ []
drop-nil zero = refl
drop-nil (suc n) = refl

drop-snoc :
    (n : ℕ) (xs : List Text) (x : Text)
    → n ≤ length xs
    → drop n (xs ++ x ∷ []) ≡ drop n xs ++ x ∷ []
drop-snoc zero xs x h = refl
drop-snoc (suc n) [] x h = absurd (omega arith)
drop-snoc (suc n) (y ∷ ys) x h = drop-snoc n ys x (omega arith)

drop_first-drop : (n : ℕ) (xs : List Text) → drop_first (drop n xs) ≡ drop (suc n) xs
drop_first-drop zero [] = refl
drop_first-drop zero (x ∷ xs) = refl
drop_first-drop (suc n) [] = refl
drop_first-drop (suc n) (x ∷ xs) = drop_first-drop n xs

length-drop : (n : ℕ) (xs : List Text) → length (drop n xs) ≡ length xs - n
length-drop zero xs = omega arith
length-drop (suc n) [] = omega arith
length-drop (suc n) (x ∷ xs) = omega (arith, length-drop n xs)

append_assoc : (xs : List Text) (y : Text) (ys : List Text) → (xs ++ y ∷ []) ++ ys ≡ xs ++ y ∷ ys
append_assoc [] y ys = refl
append_assoc (x ∷ xs) y ys = simp (append_assoc xs y ys) refl

append-nil : (xs : List Text) → xs ++ [] ≡ xs
append-nil [] = refl
append-nil (x ∷ xs) = simp (append-nil xs) refl

push_line-drop :
    (limit : ℕ) (before : List Text) (line : Text)
    → 1 ≤ limit
    → push_line limit (drop (length before - limit) before) line
      ≡ drop (length (before ++ line ∷ []) - limit) (before ++ line ∷ [])
unfolding push_line
push_line-drop limit before line h =
    elim (Bool-cases (length (drop (length before - limit) before) == limit)) [
      | inl full ↦
          let size : length before - (length before - limit) ≡ limit =
            ground (arith, length-drop (length before - limit) before) in
          let more : length (before ++ line ∷ []) - limit ≡ suc (length before - limit) =
            omega (arith, size, length-append before (line ∷ []), h) in
          rw (full, more, drop_first-drop (length before - limit) before)
            (simp (drop-snoc (suc (length before - limit)) before line (omega (arith, size, h)))
              refl)
      | inr room ↦
          let size : (length before - (length before - limit) ≡ limit) → ⊥ =
            λ e. absurd (ground (arith, length-drop (length before - limit) before)) in
          let none_old : length before - limit ≡ 0 = omega (arith, size) in
          let none_new : length (before ++ line ∷ []) - limit ≡ 0 =
            omega (arith, size, length-append before (line ∷ [])) in
          rw (room, none_old, none_new) refl
    ]

keep_lines-wanted :
    (limit : ℕ) (include : Text → Bool) (redact before lines : List Text)
    → 1 ≤ limit
    → keep_lines limit include redact (drop (length before - limit) before) lines
      ≡ drop
          (length (before ++ wanted include redact lines) - limit)
          (before ++ wanted include redact lines)
unfolding keep_lines
keep_lines-wanted limit include redact before [] h = simp (append-nil before) refl
keep_lines-wanted limit include redact before (line ∷ lines) h = elim (Bool-cases (include line)) [
  | inr other ↦ simp other (keep_lines-wanted limit include redact before lines h)
  | inl take ↦
      simp
        (
          take,
          push_line-drop limit before (redact_log_line line redact) h,
          keep_lines-wanted limit include redact (before ++ redact_log_line line redact ∷ []) lines
              h,
          append_assoc before (redact_log_line line redact) (wanted include redact lines),
        )
        refl
]

pub log_limit-bounds : (limit : ℤ) → (1 ≤ log_limit limit) × (log_limit limit ≤ 80)
unfolding log_limit
log_limit-bounds (pos n) = ground arith
log_limit-bounds (negsuc n) = ground arith

-- The window of lines that `scan_log` keeps is the end of the list of wanted lines: the last ones, in
-- their order, redacted, as many as the limit says and all if there are fewer. The limit is between
-- 1 and 80 for every argument.
pub keep_lines-last :
    (limit : ℤ) (include : Text → Bool) (redact lines : List Text)
    → (keep_lines (log_limit limit) include redact [] lines
        ≡ drop
            (length (wanted include redact lines) - log_limit limit)
            (wanted include redact lines))
      × (1 ≤ log_limit limit)
      × (log_limit limit ≤ 80)
keep_lines-last limit include redact lines =
    let (low, high) = log_limit-bounds limit in
    (
      rw (drop-nil (0 - log_limit limit)) at
          (keep_lines-wanted (log_limit limit) include redact [] lines low),
      low,
      high,
    )
