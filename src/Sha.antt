-- ===== src/Sha.antt =====
-- Commit identifiers: `isCheckoutSHA` and `isCommitRef` of internal/bitci/controller.go. Go walks
-- the characters of the text; outside ASCII neither a character nor a byte passes the test.
pub mod Laws
use bitci.Prelude.{ℕ, Bool, true, false, List, [], ◌∷◌, ◌&&◌, ◌||◌, leb, length, ◌==◌, nat_eq}
use bitci.Prelude.Text.{Text}

unfoldable pub is_hex : ℕ → Bool
is_hex c = (leb b'0' c && leb c b'9') || (leb b'a' c && leb c b'f') || (leb b'A' c && leb c b'F')

unfoldable pub all_hex : Text → Bool
unfolding is_hex
all_hex [] = true
all_hex (c ∷ s) = is_hex c && all_hex s

unfoldable pub is_checkout_sha : Text → Bool
unfolding all_hex
is_checkout_sha value = (length value == 40 || length value == 64) && all_hex value

unfoldable pub is_commit_ref : Text → Bool
unfolding all_hex
is_commit_ref value = leb 7 (length value) && leb (length value) 64 && all_hex value
