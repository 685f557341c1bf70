-- ===== src/Sha/Laws.antt =====
-- How the two tests of internal/bitci/controller.go for commit identifiers fit together, and with
-- the folding of letters that `resolveCommitSHA` and `pinClaimedJob` apply.
use bitci.Prelude.{ℕ, true, [], ◌∷◌, ◌≡◌, refl, length, nat_eq, list_eq, arith}
use bitci.Prelude.Text.{Text}
use bitci.Prelude.Strings.{lower_byte, to_lower, equal_fold}
use bitci.Sha.{is_hex, all_hex, is_checkout_sha, is_commit_ref}

is_hex-lower_byte : (c : ℕ) → is_hex (lower_byte c) ≡ is_hex c
unfolding is_hex lower_byte
is_hex-lower_byte c = ground arith

lower_byte_idem : (c : ℕ) → lower_byte (lower_byte c) ≡ lower_byte c
unfolding lower_byte
lower_byte_idem c = ground arith

all_hex-to_lower : (s : Text) → all_hex (to_lower s) ≡ all_hex s
unfolding all_hex to_lower
all_hex-to_lower [] = refl
all_hex-to_lower (c ∷ s) = cc (is_hex-lower_byte c, all_hex-to_lower s)

length-to_lower : (s : Text) → length (to_lower s) ≡ length s
unfolding to_lower
length-to_lower [] = refl
length-to_lower (c ∷ s) = omega (arith, length-to_lower s)

pub to_lower_idem : (s : Text) → to_lower (to_lower s) ≡ to_lower s
unfolding to_lower
to_lower_idem [] = refl
to_lower_idem (c ∷ s) = cc (lower_byte_idem c, to_lower_idem s)

-- Lower case keeps a commit identifier one, and is equal to it up to case; every full identifier
-- is one that `Submit` accepts as a requested ref.
pub is_checkout_sha-to_lower :
    (s : Text)
    → (is_checkout_sha (to_lower s) ≡ is_checkout_sha s)
      × (equal_fold (to_lower s) s ≡ true)
      × (is_checkout_sha s ≡ true → is_commit_ref s ≡ true)
unfolding is_checkout_sha is_commit_ref equal_fold
is_checkout_sha-to_lower s =
    (cc (all_hex-to_lower s, length-to_lower s), ground (arith, to_lower_idem s), λ h. ground arith)
