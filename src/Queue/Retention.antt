-- ===== src/Queue/Retention.antt =====
-- Which finished logs are kept: `pruneLogs` of internal/bitci/controller.go. The column
-- finished_at is text in Go's RFC3339Nano layout and SQL orders it as text, so the model writes
-- out the part of the text behind the seconds, where the layout drops trailing zeros.
pub mod Effects
use bitci.Prelude.{
  ℕ, zero, suc, ◌+◌, ◌/◌, ◌%◌, Bool, true, false, not, ◌&&◌, ◌||◌, Option, none, some, List, [],
  ◌∷◌, ◌++◌, ◌==◌, if◌then◌else◌, ltb, nat_eq, list_eq,
}
use bitci.Prelude.Text.{Text}
use bitci.Prelude.Int.{ℤ, pos, negsuc}
use bitci.Prelude.Strings.{is_empty}
use bitci.Config.{Config}
use bitci.Config.Order.{text_leb}
use bitci.Queue.{State, Job, Store, QueueError, log_removal_failed}
use bitci.Queue.Table.{select, update, is_active, has_id}

-- The last digits of a number below 10 ^ places, most significant first.
unfoldable pub digits_of : (places n : ℕ) → Text → Text
digits_of zero n rest = rest
digits_of (suc k) n rest = digits_of k (n / 10) ((b'0' + n % 10) ∷ rest)

unfoldable pub trim_zeros : Text → Text
trim_zeros [] = []
trim_zeros (d ∷ ds) =
    let rest = trim_zeros ds in if is_empty rest && d == b'0' then [] else d ∷ rest

-- What stands behind the seconds: `Z`, or a point, digits and `Z`.
unfoldable pub fraction_text : ℕ → Text
unfolding digits_of trim_zeros
fraction_text time =
    let digits = trim_zeros (digits_of 9 (time % 1000000000) []) in
    if is_empty digits then b'Z' ∷ [] else b'.' ∷ digits ++ b'Z' ∷ []

-- Whether the first time's text is greater. The text in front of the fraction has a fixed width
-- and orders as the whole seconds do.
unfoldable pub text_after : ℕ → ℕ → Bool
unfolding fraction_text
text_after a b =
    if a / 1000000000 == b / 1000000000
    then not (text_leb (fraction_text a) (fraction_text b))
    else ltb (b / 1000000000) (a / 1000000000)

-- Null is less than every text.
unfoldable pub finished_after : Option ℕ → Option ℕ → Bool
unfolding text_after
finished_after none b = false
finished_after (some a) none = true
finished_after (some a) (some b) = text_after a b

-- `ORDER BY finished_at DESC, id DESC`.
unfoldable pub precedes : Job → Job → Bool
unfolding finished_after
precedes a b =
    finished_after a.finished_at b.finished_at
    || (not (finished_after b.finished_at a.finished_at) && ltb b.id a.id)

unfoldable pub insert_job : Job → List Job → List Job
insert_job j [] = j ∷ []
insert_job j (k ∷ ks) = if precedes j k then j ∷ k ∷ ks else k ∷ insert_job j ks

unfoldable pub newest_first : List Job → List Job
newest_first [] = []
newest_first (j ∷ js) = insert_job j (newest_first js)

-- `OFFSET`; a negative offset counts as zero.
unfoldable pub skip_rows : ℕ → List Job → List Job
skip_rows zero js = js
skip_rows (suc n) [] = []
skip_rows (suc n) (j ∷ js) = skip_rows n js

abbrev pub offset_of : ℤ → ℕ
offset_of (pos n) = n
offset_of (negsuc n) = 0

unfoldable pub expired_logs : ℤ → List Job → List Job
expired_logs retention jobs =
    skip_rows (offset_of retention)
      (newest_first (select (λ job. not (is_active job.state) && not (is_empty job.log_path)) jobs))

-- `remove` says whether the file is gone after `os.Remove`. The first failure ends the loop.
unfoldable pub remove_logs : (Text → Bool) → List Job → Store → Store × List QueueError
remove_logs remove [] store = (store, [])
remove_logs remove (j ∷ js) store =
    let rest = remove_logs remove js (record store {
      jobs = update (has_id j.id) (λ row. record row { log_path = [] }) store.jobs;
    }) in
    if remove j.log_path then rest else (store, log_removal_failed ∷ [])

unfoldable pub prune_logs : (Text → Bool) → Config → Store → Store × List QueueError
prune_logs remove own store = elim own.log_retention [
  | pos zero ↦ (store, [])
  | other ↦ remove_logs remove (expired_logs other store.jobs) store
]
