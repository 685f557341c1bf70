-- ===== src/Log/Fuel.antt =====
-- The loops of `ReadLog` and `readLogLine` of internal/bitci/controller.go end: every round that goes
-- on takes a byte, so the fuel for each byte that is left never runs out.
use bitci.Prelude.{
  ℕ, zero, suc, ◌+◌, ◌-◌, ◌≤◌, ◌<◌, Bool, false, not, ◌&&◌, Option, some, List, [], ◌∷◌, ◌++◌, ◌==◌,
  ◌≡◌, refl, arith, if◌then◌else◌, ltb, leb, nat_eq, list_eq, length, either, either_by,
}
use bitci.Prelude.Text.{Text}
use bitci.Prelude.Int.{ℤ}
use bitci.Prelude.Result.{ok}
use bitci.Queue.{State}
use bitci.Log.{log_limit}
use bitci.Log.Cursor.{
  End, at_line, buffer_full, at_eof, unfinished, is_unfinished, Read, read_slice, LogLine,
  read_log_line, LogCursorOutput, is_at_line, clean_line, max_log_read_bytes, read_lines, seek,
  read_content,
}
use bitci.Log.Reads.{read_slice-length, read_slice-full, Counted, read_log_line-Counted}

read_slice-ends : (room : ℕ) (rest : Text) → is_unfinished (read_slice room rest).end ≡ false
unfolding read_slice
read_slice-ends zero rest = refl
read_slice-ends (suc room) [] = refl
read_slice-ends (suc room) (c ∷ rest) = ground (arith, read_slice-ends room rest)

-- The loop over the fragments of a line stops by itself.
record Ends (read : LogLine) : Type 0 where
  pub ended : is_unfinished read.end ≡ false

read_log_line-Ends :
    (fuel max : ℕ) (line : Text) (consumed : ℕ) (rest : Text)
    → length rest < fuel
    → Ends (read_log_line fuel max line consumed rest)
unfolding read_log_line
read_log_line-Ends zero max line consumed rest h = absurd (omega (arith, h))
read_log_line-Ends (suc fuel) max line consumed rest h =
    by_end part.end refl (λ full. read_log_line-Ends fuel max longer total part.rest (fewer full))
  where
    part : Read
    part = read_slice 4096 rest

    total : ℕ
    total = consumed + length part.line

    longer : Text
    longer = if leb total max then line ++ part.line else line

    stop : LogLine
    stop = record { line = longer; consumed = total; end = part.end; rest = part.rest }

    again : LogLine
    again = read_log_line fuel max longer total part.rest

    fewer : part.end ≡ buffer_full → length part.rest < fuel
    fewer full = omega (arith, h, read_slice-length 4096 rest, read_slice-full 4096 rest full)

    stops : Ends stop
    stops = record { ended = read_slice-ends 4096 rest }

    by_end :
        (e : End)
        → part.end ≡ e
        → (part.end ≡ buffer_full → Ends again)
        → Ends (elim e as (λ x. LogLine) [
          | buffer_full ↦ if leb max total then stop else again
          | at_line ↦ stop
          | at_eof ↦ stop
          | unfinished ↦ stop
        ])
    by_end buffer_full p goes = either Ends (leb max total) {x = stop} {y = again} stops (goes p)
    by_end at_line p goes = stops
    by_end at_eof p goes = stops
    by_end unfinished p goes = stops

record Returns (returned : Option LogCursorOutput) : Type 0 where
  pub output : LogCursorOutput
  pub returned_it : returned ≡ some output

Returns-some : (output : LogCursorOutput) → Returns (some output)
Returns-some output = record { output = output; returned_it = refl }

module _ (state : State) (redact : List Text) (limit size start : ℕ) where
  -- The loop over the lines returns before the fuel for each byte is used up.
  read_lines-Returns :
      (fuel : ℕ) (skipping : Bool) (position : ℕ) (rest : Text) (output : LogCursorOutput)
      → length rest < fuel
      → Returns (read_lines state redact limit size start fuel skipping position rest output)
  unfolding read_lines Counted
  read_lines-Returns zero skipping position rest output h = absurd (omega (arith, h))
  read_lines-Returns (suc fuel) skipping position rest output h =
      let remaining = max_log_read_bytes - (position - start) in
      let read = read_log_line (suc (length rest)) remaining [] 0 rest in
      let counted = read_log_line-Counted (suc (length rest)) remaining [] 0 rest in
      let ends = read_log_line-Ends (suc (length rest)) remaining [] 0 rest (omega arith) in
      let after = position + read.consumed in
      let moved : LogCursorOutput = record output { cursor = after } in
      let added : LogCursorOutput = record moved {
        lines = output.lines ++ clean_line state redact limit size start read.line ∷ [];
      } in
      either Returns
        (not (ltb (length output.lines) limit && ltb (position - start) max_log_read_bytes))
        (Returns-some output)
        (either_by Returns (is_unfinished read.end)
          (λ out. absurd (ground (arith, ends.ended, out)))
          (λ fine.
            either_by Returns (read.consumed == 0) (λ nothing. Returns-some output)
              (λ taken.
                let fewer : length read.rest < fuel = ground (arith, counted, h, taken) in
                let skips = read_lines-Returns fuel false after read.rest moved fewer in
                either Returns skipping
                  (either Returns (is_at_line read.end) skips (Returns-some moved))
                  (either Returns (not (is_at_line read.end)) (Returns-some _) (
                    either Returns (ltb remaining read.consumed) (Returns-some moved)
                      (read_lines-Returns fuel false after read.rest added fewer))))))

seek-found :
    (n last : ℕ) (file : Text)
    → n ≤ length file
    → (found : ℕ) × (rest : Text) × (seek n last file ≡ some (found, rest))
unfolding seek
seek-found zero last file h = (last, file, refl)
seek-found (suc n) last [] h = absurd (omega (arith, h))
seek-found (suc n) last (c ∷ file) h = seek-found n c file (omega (arith, h))

-- A read from any place in a log returns an output: neither the loop over the lines nor the loop over
-- the fragments of a line uses up its fuel, which is one more than the bytes that are left.
pub read_content-returns :
    (state : State) (redact : List Text) (limit : ℤ) (cursor : ℕ) (file : Text)
    → cursor ≤ length file
    → (output : LogCursorOutput) × (read_content state redact limit cursor file ≡ ok output)
unfolding read_content
read_content-returns state redact limit cursor file h =
    let (last, rest, found) = seek-found cursor b'\n' file h in
    let r =
      read_lines-Returns state redact (log_limit limit) (length file) cursor (suc (length rest))
        (not (last == b'\n')) cursor rest (record { lines = []; cursor = cursor; state = state })
        (omega arith) in
    (r.output, rw (read_content, found, r.returned_it) refl)
