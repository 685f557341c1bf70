-- ===== src/Log/Reads.antt =====
-- What one call of `ReadLog` of internal/bitci/controller.go returns: how many lines, and how far the
-- cursor moves.
use bitci.Prelude.{
  ℕ, zero, suc, ◌+◌, ◌-◌, ◌≤◌, ◌<◌, Bool, true, false, not, Option, none, some_inj, none-ne-some,
  ◌&&◌, some, List, [], ◌∷◌, ◌++◌, ◌==◌, ◌≡◌, refl, arith, if◌then◌else◌, ltb, leb, nat_eq, list_eq,
  length, length-append, inl, inr, Option-cases, either, either_by,
}
use mathlib.Core.Path.{subst}
use bitci.Log.Bounds.{log_limit-bounds}
use bitci.Prelude.Text.{Text, codes}
use bitci.Prelude.Strings.{is_empty, trim_suffix}
use bitci.Prelude.Int.{ℤ}
use bitci.Prelude.Result.{ok}
use bitci.Queue.{State}
use bitci.Log.{log_limit, terminal_job_state, redact_log_line}
use bitci.Log.Cursor.{
  End, at_line, buffer_full, at_eof, unfinished, is_unfinished, Read, read_slice, LogLine,
  read_log_line, LogCursorOutput, is_at_line, last_partial, clean_line, max_log_read_bytes,
  end_partial, read_lines, seek, read_content,
}

-- A read takes its line off the front.
pub read_slice-length :
    (room : ℕ) (rest : Text)
    → length (read_slice room rest).line + length (read_slice room rest).rest ≡ length rest
unfolding read_slice
read_slice-length zero rest = omega arith
read_slice-length (suc room) [] = omega arith
read_slice-length (suc room) (c ∷ rest) = ground (arith, read_slice-length room rest)

-- Only a full buffer goes on.
pub read_slice-full :
    (room : ℕ) (rest : Text)
    → (read_slice room rest).end ≡ buffer_full
    → length (read_slice room rest).line ≡ room
unfolding read_slice
read_slice-full zero rest h = omega arith
read_slice-full (suc room) [] h = absurd ground arith
read_slice-full (suc room) (c ∷ rest) h = ground (arith, read_slice-full room rest)

unfoldable pub Counted : ℕ → LogLine → Type 0
Counted total r = r.consumed + length r.rest ≡ total

pub read_log_line-Counted :
    (fuel max : ℕ) (line : Text) (consumed : ℕ) (rest : Text)
    → Counted (consumed + length rest) (read_log_line fuel max line consumed rest)
unfolding read_log_line Counted
read_log_line-Counted zero max line consumed rest = refl
read_log_line-Counted (suc fuel) max line consumed rest =
    let part = read_slice 4096 rest in
    let total = consumed + length part.line in
    by_end part.end (
      read_log_line-Counted fuel max (if leb total max then line ++ part.line else line) total
        part.rest)
  where
    part : Read
    part = read_slice 4096 rest

    total : ℕ
    total = consumed + length part.line

    longer : Text
    longer = if leb total max then line ++ part.line else line

    stop : LogLine
    stop = record { line = longer; consumed = total; end = part.end; rest = part.rest }

    again : LogLine
    again = read_log_line fuel max longer total part.rest

    stopped : Counted (consumed + length rest) stop
    stopped = omega (arith, read_slice-length 4096 rest)

    by_end :
        (e : End)
        → Counted (total + length part.rest) again
        → Counted (consumed + length rest) (elim e as (λ x. LogLine) [
          | buffer_full ↦ if leb max total then stop else again
          | at_line ↦ stop
          | at_eof ↦ stop
          | unfinished ↦ stop
        ])
    by_end buffer_full rec =
        let repeated : Counted (consumed + length rest) again =
          omega (arith, rec, read_slice-length 4096 rest) in
        either (Counted (consumed + length rest)) (leb max total) {x = stop} {y = again} stopped
          repeated
    by_end at_line rec = stopped
    by_end at_eof rec = stopped
    by_end unfinished rec = stopped

-- What a call has put together so far, for a file of a size and a first cursor.
record Within (low limit size : ℕ) (output : LogCursorOutput) : Type 0 where
  pub few : length output.lines ≤ limit
  pub from : low ≤ output.cursor
  pub to : output.cursor ≤ size

-- Where the loop returns.
record Held (low limit size : ℕ) (returned : Option LogCursorOutput) : Type 0 where
  pub holds : (output : LogCursorOutput) → returned ≡ some output → Within low limit size output

Held-some :
    (low limit size : ℕ) (output : LogCursorOutput)
    → Within low limit size output
    → Held low limit size (some output)
Held-some low limit size output h = record {
  holds = λ found e. subst (Within low limit size) (some_inj output found e) h;
}

Held-none : (low limit size : ℕ) → Held low limit size none
Held-none low limit size = record { holds = λ found e. absurd (none-ne-some found e) }

module _ (state : State) (redact : List Text) (limit size start low : ℕ) where
  end_partial-Within :
      (read : LogLine) (remaining before after : ℕ) (output : LogCursorOutput)
      → length output.lines < limit
      → low ≤ before
      → before ≤ size
      → low ≤ after
      → after ≤ size
      → Within low limit size output
      → Within low limit size
          (end_partial state redact limit size start read remaining before after output)
  unfolding end_partial
  end_partial-Within read remaining before after output room a b c d h = by_end read.end (
      either (Within low limit size)
        (not (is_empty read.line) && terminal_job_state state && after == size) {x = ended}
        {y = output} (record { few = one_more (leb read.consumed remaining); from = c; to = d }) h)
    where
      last : Text
      last = redact_log_line (trim_suffix read.line (codes "\r")) redact

      ended : LogCursorOutput
      ended = record output {
        lines = if leb read.consumed remaining then output.lines ++ last ∷ [] else output.lines;
        cursor = after;
      }

      one_more : (b : Bool) → length (if b then output.lines ++ last ∷ [] else output.lines) ≤ limit
      one_more true = omega (arith, room, length-append output.lines (last ∷ []))
      one_more false = omega (arith, room)

      written : LogCursorOutput
      written = last_partial state redact limit size start read remaining after output

      by_end :
          (e : End)
          → Within low limit size written
          → Within low limit size (elim e as (λ x. LogCursorOutput) [
            | at_line ↦ written
            | at_eof ↦ written
            | unfinished ↦ written
            | buffer_full ↦ record written {
              cursor = if terminal_job_state state then after else before;
            }
          ])
      by_end at_line w = w
      by_end at_eof w = w
      by_end unfinished w = w
      by_end buffer_full w = record {
        few = w.few;
        from = either (λ n. low ≤ n) (terminal_job_state state) c a;
        to = either (λ n. n ≤ size) (terminal_job_state state) d b;
      }

  read_lines-Within :
      (fuel : ℕ) (skipping : Bool) (position : ℕ) (rest : Text) (output : LogCursorOutput)
      → low ≤ position
      → position + length rest ≡ size
      → Within low limit size output
      → Held low limit size
          (read_lines state redact limit size start fuel skipping position rest output)
  unfolding read_lines Counted
  read_lines-Within zero skipping position rest output a b h = Held-none low limit size
  read_lines-Within (suc fuel) skipping position rest output a b h =
      let remaining = max_log_read_bytes - (position - start) in
      let read = read_log_line (suc (length rest)) remaining [] 0 rest in
      let counted = read_log_line-Counted (suc (length rest)) remaining [] 0 rest in
      let after = position + read.consumed in
      let low_after : low ≤ after = omega (arith, a) in
      let size_after : after + length read.rest ≡ size = omega (arith, b, counted) in
      let high_after : after ≤ size = omega (arith, size_after) in
      let moved : LogCursorOutput = record output { cursor = after } in
      let moves : Within low limit size moved = record {
        few = h.few;
        from = low_after;
        to = high_after;
      } in
      let added : LogCursorOutput = record moved {
        lines = output.lines ++ clean_line state redact limit size start read.line ∷ [];
      } in
      let skips = read_lines-Within fuel false after read.rest moved low_after size_after moves in
      let returns =
        λ (o : LogCursorOutput) (w : Within low limit size o). Held-some low limit size o w in
      either_by (Held low limit size)
        (not (ltb (length output.lines) limit && ltb (position - start) max_log_read_bytes))
        (λ stop. returns output h)
        (λ go.
          let room : length output.lines < limit = ground arith in
          let adds : Within low limit size added = record {
            few = omega (
              arith,
              room,
              length-append output.lines (clean_line state redact limit size start read.line ∷ []),
            );
            from = low_after;
            to = high_after;
          } in
          either (Held low limit size) (is_unfinished read.end) (Held-none low limit size) (
            either (Held low limit size) (read.consumed == 0) (returns output h) (
              either (Held low limit size) skipping
                (either (Held low limit size) (is_at_line read.end) skips (returns moved moves))
                (either (Held low limit size) (not (is_at_line read.end))
                  (returns _ (
                    end_partial-Within read remaining position after output room a
                      (omega (arith, b)) low_after high_after h))
                  (either (Held low limit size) (ltb remaining read.consumed) (returns moved moves)
                    (read_lines-Within fuel false after read.rest added low_after size_after
                      adds))))))

seek-length :
    (n last : ℕ) (file : Text) (found : ℕ) (rest : Text)
    → seek n last file ≡ some (found, rest)
    → n + length rest ≡ length file
unfolding seek
seek-length zero last file found rest h = ground arith
seek-length (suc n) last [] found rest h = absurd ground arith
seek-length (suc n) last (c ∷ file) found rest h = omega (arith, seek-length n c file found rest h)

-- A read from a byte on gives at most as many lines as the limit allows, and no more than 80; the cursor
-- that it returns is not in front of the one that it was given, and not behind the file's end.
pub read_content-Within :
    (state : State) (redact : List Text) (limit : ℤ) (cursor : ℕ) (file : Text)
    (output : LogCursorOutput)
    → read_content state redact limit cursor file ≡ ok output
    → (length output.lines ≤ log_limit limit)
      × (log_limit limit ≤ 80)
      × (cursor ≤ output.cursor)
      × (output.cursor ≤ length file)
unfolding read_content
read_content-Within state redact limit cursor file output h =
    elim (Option-cases (seek cursor b'\n' file)) [
      | inl past ↦ absurd ground arith
      | inr ((last, rest), found) ↦
          let (low, high) = log_limit-bounds limit in
          let unread : LogCursorOutput = record { lines = []; cursor = cursor; state = state } in
          let whole = seek-length cursor b'\n' file last rest found in
          let read =
            read_lines-Within state redact (log_limit limit) (length file) cursor cursor
              (suc (length rest)) (not (last == b'\n')) cursor rest unread (omega arith) whole
              (record { few = omega arith; from = omega arith; to = omega (arith, whole) }) in
          let same : read_lines state redact (log_limit limit) (length file) cursor
                (suc (length rest)) (not (last == b'\n')) cursor rest unread
              ≡ some output =
            ground arith in
          let within = read.holds output same in (within.few, high, within.from, within.to)
    ]
