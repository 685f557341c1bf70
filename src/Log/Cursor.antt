-- ===== src/Log/Cursor.antt =====
-- `ReadLog` and `readLogLine` of internal/bitci/controller.go: a log by complete lines from a byte
-- on. The reader's buffer holds 4096 bytes, one call reads at most 1 MiB. Positions are natural
-- numbers; loops run on fuel, one more than the bytes that are left, and every round takes a byte.
use bitci.Prelude.{
  ℕ, zero, suc, ◌+◌, ◌-◌, Bool, true, false, not, ◌&&◌, Option, none, some, List, [], ◌∷◌, ◌++◌,
  ◌==◌, if◌then◌else◌, ltb, leb, nat_eq, list_eq, length,
}
use bitci.Prelude.Text.{Text, codes}
use bitci.Prelude.Int.{ℤ, pos, negsuc}
use bitci.Prelude.Strings.{is_empty, trim_suffix}
use bitci.Prelude.Result.{Result, ok, err}
use bitci.Config.{Config}
use bitci.Queue.{State, Job, Store}
use bitci.Queue.Table.{find, has_id}
use bitci.Log.{
  LogError, no_job, negative_cursor, beyond_end, file_unreadable, bad_redaction, read_unfinished,
  File, absent, unreadable, content, log_limit, terminal_job_state, redact_log_line, log_redaction,
}

-- How a read ends: at a line end, with a full buffer, or at the file's end. `unfinished` is the
-- model's own, for a loop whose fuel runs out.
pub data End : Type 0 where
  at_line buffer_full at_eof unfinished : End

pub record Read : Type 0 where
  pub line : Text
  pub rest : Text
  pub end : End

-- `ReadSlice('\\n')` with room for so many bytes.
unfoldable pub read_slice : ℕ → Text → Read
read_slice zero rest = record { line = []; rest = rest; end = buffer_full }
read_slice (suc room) [] = record { line = []; rest = []; end = at_eof }
read_slice (suc room) (c ∷ rest) =
    let next = read_slice room rest in
    if c == b'\n'
    then record { line = c ∷ []; rest = rest; end = at_line }
    else record next { line = c ∷ next.line }

-- `readLogLine`: what it kept of the line, how many bytes it took, and how it ended.
pub record LogLine : Type 0 where
  pub line : Text
  pub consumed : ℕ
  pub end : End
  pub rest : Text

unfoldable pub read_log_line : ℕ → ℕ → Text → ℕ → Text → LogLine
read_log_line zero max line consumed rest = record {
  line = line;
  consumed = consumed;
  end = unfinished;
  rest = rest;
}
read_log_line (suc fuel) max line consumed rest =
    let part = read_slice 4096 rest in
    let total = consumed + length part.line in
    let longer = if leb total max then line ++ part.line else line in
    let again = read_log_line fuel max longer total part.rest in
    let stop : LogLine = record {
      line = longer;
      consumed = total;
      end = part.end;
      rest = part.rest;
    } in
    elim part.end [
      | buffer_full ↦ if leb max total then stop else again
      | at_line ↦ stop
      | at_eof ↦ stop
      | unfinished ↦ stop
    ]

pub record LogCursorOutput : Type 0 where
  pub lines : List Text
  pub cursor : ℕ
  pub state : State

abbrev pub max_log_read_bytes : ℕ
max_log_read_bytes = 1048576

abbrev pub is_at_line : End → Bool
is_at_line at_line = true
is_at_line _ = false

abbrev pub is_unfinished : End → Bool
is_unfinished unfinished = true
is_unfinished _ = false

module _ (state : State) (redact : List Text) (limit size start : ℕ) where
  abbrev pub clean_line : Text → Text
  clean_line line =
      redact_log_line (trim_suffix (trim_suffix line (codes "\n")) (codes "\r")) redact

  -- The last bytes of a job that has ended, which no line end closes.
  abbrev pub last_partial : LogLine → ℕ → ℕ → LogCursorOutput → LogCursorOutput
  last_partial read remaining after output =
      if not (is_empty read.line) && terminal_job_state state && after == size
      then record output {
        lines =
            if leb read.consumed remaining
            then output.lines ++ redact_log_line (trim_suffix read.line (codes "\r")) redact ∷ []
            else output.lines;
        cursor = after;
      }
      else output

  -- A read that is not at a line end, and ends the loop.
  unfoldable pub end_partial : LogLine → ℕ → ℕ → ℕ → LogCursorOutput → LogCursorOutput
  end_partial read remaining before after output =
      let written = last_partial read remaining after output in
      elim read.end [
        | at_line ↦ written
        | at_eof ↦ written
        | unfinished ↦ written
        | buffer_full ↦ record written {
          cursor = if terminal_job_state state then after else before;
        }
      ]

  -- The loop from a position, with the rest of the file; `none` if the fuel runs out.
  unfoldable pub read_lines : ℕ → Bool → ℕ → Text → LogCursorOutput → Option LogCursorOutput
  read_lines zero skipping position rest output = none
  read_lines (suc fuel) skipping position rest output =
      let remaining = max_log_read_bytes - (position - start) in
      let read = read_log_line (suc (length rest)) remaining [] 0 rest in
      let after = position + read.consumed in
      let moved = record output { cursor = after } in
      let skipped = read_lines fuel false after read.rest moved in
      let added = record moved { lines = output.lines ++ clean_line read.line ∷ [] } in
      let next = read_lines fuel false after read.rest added in
      if not (ltb (length output.lines) limit && ltb (position - start) max_log_read_bytes)
      then some output
      else if is_unfinished read.end
      then none
      else if read.consumed == 0
      then some output
      else if skipping
      then if is_at_line read.end then skipped else some moved
      else if not (is_at_line read.end)
      then some (end_partial read remaining position after output)
      else if ltb remaining read.consumed
      then some moved
      else next

-- The file from a byte on, and the byte in front of it.
unfoldable pub seek : ℕ → ℕ → Text → Option (ℕ × Text)
seek zero last rest = some (last, rest)
seek (suc n) last [] = none
seek (suc n) last (c ∷ rest) = seek n c rest

abbrev pub finished_read : Option LogCursorOutput → Result LogError LogCursorOutput
finished_read none = err read_unfinished
finished_read (some output) = ok output

unfoldable pub read_content : State → List Text → ℤ → ℕ → Text → Result LogError LogCursorOutput
read_content state redact limit cursor file = elim (seek cursor b'\n' file) [
  | none ↦ err beyond_end
  | some (last, rest) ↦ finished_read (
      read_lines state redact (log_limit limit) (length file) cursor (suc (length rest))
        (not (last == b'\n')) cursor rest (record { lines = []; cursor = cursor; state = state }))
]

unfoldable pub read_job : Config → (Text → File) → Job → ℤ → ℕ → Result LogError LogCursorOutput
read_job own files job limit cursor =
    let unread : LogCursorOutput = record { lines = []; cursor = cursor; state = job.state } in
    if is_empty job.log_path then ok unread else elim (log_redaction own job.config_json) [
      | err e ↦ err (bad_redaction e)
      | ok redact ↦ elim (files job.log_path) [
        | absent ↦ ok unread
        | unreadable ↦ err file_unreadable
        | content file ↦ read_content job.state redact limit cursor file
      ]
    ]

unfoldable pub read_log :
    Config → Store → (Text → File) → ℕ → ℤ → ℤ → Result LogError LogCursorOutput
read_log own store files id cursor limit = elim (find (has_id id) store.jobs) [
  | none ↦ err no_job
  | some job ↦ elim cursor [
    | negsuc n ↦ err negative_cursor
    | pos n ↦ read_job own files job limit n
  ]
]
