-- ===== src/Log.antt =====
-- Reading the logs of jobs: `ReadLog`, `readLogLine`, `TailLog`, `SearchLog`, `scanLog`,
-- `logRedaction`, `redactLogLine` and `logLimit` of internal/bitci/controller.go. A file is what it
-- holds when it is opened; a log that grows in between is read up to that point.
pub mod Cursor
pub mod Bounds
pub mod Reads
pub mod Fuel
use bitci.Prelude.{
  ℕ, zero, suc, ◌+◌, ◌-◌, Bool, true, false, not, ◌&&◌, ◌||◌, Option, none, some, List, [], ◌∷◌,
  ◌++◌, ◌==◌, if◌then◌else◌, ltb, leb, nat_eq, list_eq, length,
}
use bitci.Prelude.Text.{Text, codes}
use mathlib.Core.List.{reverse}
use bitci.Prelude.Int.{ℤ, pos, negsuc, ltℤ}
use bitci.Prelude.Strings.{is_empty, replace_all, contains_text}
use bitci.Prelude.Result.{Result, ok, err, ◌>>=◌}
use bitci.Config.{Config}
use bitci.Queue.{
  State, queued, running, passed, failed, cancelled, Snapshot, Job, QueueError, Store,
}
use bitci.Queue.Table.{find, has_id}
use bitci.Queue.JobConfig.{snapshot_config}

pub data LogError : Type 0 where
  no_job no_log negative_cursor beyond_end file_missing file_unreadable empty_query : LogError
  line_too_long : LogError
  -- The model's own, for a loop whose fuel runs out.
  read_unfinished : LogError
  bad_redaction : QueueError → LogError

-- What opening a path finds.
pub data File : Type 0 where
  absent unreadable : File
  content : Text → File

unfoldable pub log_limit : ℤ → ℕ
log_limit limit =
    if ltℤ limit (pos 1)
    then 80
    else elim limit [ pos n ↦ if ltb 80 n then 80 else n | negsuc n ↦ 80 ]

abbrev pub terminal_job_state : State → Bool
terminal_job_state passed = true
terminal_job_state failed = true
terminal_job_state cancelled = true
terminal_job_state _ = false

unfoldable pub redact_log_line : Text → List Text → Text
redact_log_line line [] = line
redact_log_line line (value ∷ values) =
    redact_log_line (replace_all line value (codes "[REDACTED]")) values

-- The stable sort by length, the longest value in front.
unfoldable pub insert_by_length : Text → List Text → List Text
insert_by_length value [] = value ∷ []
insert_by_length value (v ∷ vs) =
    let later = v ∷ insert_by_length value vs in
    if ltb (length value) (length v) then later else value ∷ v ∷ vs

unfoldable pub sort_by_length : List Text → List Text
sort_by_length [] = []
sort_by_length (v ∷ vs) = insert_by_length v (sort_by_length vs)

unfoldable pub log_redaction : Config → Snapshot → Result QueueError (List Text)
log_redaction own snapshot = snapshot_config own snapshot >>= λ (config : Config).
    ok (sort_by_length (config.redact ++ own.redact))

-- `bufio.Scanner` by lines, with the buffer's limit: a line end is dropped, and a carriage return
-- in front of it. The first list is the line so far, last byte first.
abbrev pub drop_return : Text → Text
drop_return [] = []
drop_return (c ∷ s) = if c == b'\r' then s else c ∷ s

abbrev pub drop_first {ℓ} : {A : Type ℓ} → List A → List A
drop_first [] = []
drop_first (x ∷ xs) = xs

unfoldable pub scan_lines : Text → Text → List Text × Bool
scan_lines part [] =
    if leb 1048576 (length part)
    then ([], false)
    else if is_empty part
    then ([], true)
    else (reverse (drop_return part) ∷ [], true)
scan_lines part (c ∷ s) =
    let next = scan_lines [] s in
    let same = scan_lines (c ∷ part) s in
    if not (c == b'\n')
    then same
    else if leb 1048576 (length part)
    then ([], false)
    else (reverse (drop_return part) ∷ next.0, next.1)

-- One more line, when there is room or by dropping the oldest.
unfoldable pub push_line : ℕ → List Text → Text → List Text
push_line limit lines line =
    if length lines == limit then drop_first lines ++ line ∷ [] else lines ++ line ∷ []

unfoldable pub keep_lines : ℕ → (Text → Bool) → List Text → List Text → List Text → List Text
keep_lines limit include redact kept [] = kept
keep_lines limit include redact kept (line ∷ lines) =
    let skip = keep_lines limit include redact kept lines in
    let take =
      keep_lines limit include redact (push_line limit kept (redact_log_line line redact)) lines in
    if include line then take else skip

unfoldable pub scan_log : Text → ℤ → (Text → Bool) → List Text → List Text × Bool
scan_log file limit include redact =
    let (lines, complete) = scan_lines [] file in
    (keep_lines (log_limit limit) include redact [] lines, complete)

unfoldable pub log_file : Config → Store → (Text → File) → ℕ → Result LogError (Text × List Text)
log_file own store files id = elim (find (has_id id) store.jobs) [
  | none ↦ err no_job
  | some job ↦
      if is_empty job.log_path then err no_log else elim (log_redaction own job.config_json) [
        | err e ↦ err (bad_redaction e)
        | ok redact ↦ elim (files job.log_path) [
          | absent ↦ err file_missing
          | unreadable ↦ err file_unreadable
          | content file ↦ ok (file, redact)
        ]
      ]
]

-- The lines, and whether the scanner met a line that is too long.
unfoldable pub tail_log :
    Config → Store → (Text → File) → ℕ → ℤ → Result LogError (List Text × Bool)
tail_log own store files id limit =
    log_file own store files id >>= λ (file, redact). ok (scan_log file limit (λ line. true) redact)

unfoldable pub search_log :
    Config → Store → (Text → File) → ℕ → Text → ℤ → Result LogError (List Text × Bool)
search_log own store files id query limit =
    let found = log_file own store files id >>= λ (file, redact).
    ok (scan_log file limit (λ line. contains_text line query) redact) in
    if is_empty query then err empty_query else found
