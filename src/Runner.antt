-- ===== src/Runner.antt =====
-- internal/runner: running a program with a limit on its output. What the program writes and how it
-- ends are arguments.
pub mod Buffer
use gotify_vps_agent.Prelude.{
  ℕ, suc, ◌-◌, ◌≡◌, Bool, true, false, List, [], ◌∷◌, ◌++◌, Option, none, some, ltb, leb, ◌==◌,
  if◌then◌else◌, length, take,
}
use gotify_vps_agent.Prelude.Int.{ℤ, pos}
use gotify_vps_agent.Prelude.Text.{Text, bytes}
use gotify_vps_agent.Strings.{trim_space}
use gotify_vps_agent.Textsafe.{sanitize}

abbrev pub max_output : ℕ
max_output = 1048576

pub record CommandResult : Type 0 where
  pub output : Text
  pub exit_code : ℤ
  pub truncated : Bool

-- A result, or the text of an error; no caller reads the result that comes with an error.
pub data Answer : Type 0 where
  answered : CommandResult → Answer
  not_run : Text → Answer

pub record LimitedBuffer : Type 0 where
  pub buffer : Text
  pub remaining : ℕ
  pub truncated : Bool

-- `Write`: the buffer after it, and the count that is returned.
unfoldable pub write : LimitedBuffer → Text → LimitedBuffer × ℕ
write w p =
    let original = length p in
    if w.remaining == 0
    then (record w { truncated = true }, original)
    else if ltb w.remaining (length p)
    then (
      record {
        buffer = w.buffer ++ take w.remaining p;
        remaining = w.remaining - length (take w.remaining p);
        truncated = true;
      },
      original,
    )
    else (record w { buffer = w.buffer ++ p; remaining = w.remaining - length p }, original)

-- The writes of a program, one after the other.
unfoldable pub write_all : LimitedBuffer → List Text → LimitedBuffer
write_all w [] = w
write_all w (p ∷ rest) = write_all (write w p).0 rest

abbrev pub fresh : ℕ → LimitedBuffer
fresh limit = record { buffer = []; remaining = limit; truncated = false }

unfoldable pub result : LimitedBuffer → Text × Bool
result w = (sanitize w.buffer (pos max_output), w.truncated)

-- How a command ends: what cmd.Run and the context answer.
pub data Exit : Type 0 where
  succeeded timed_out not_found : Exit
  context_ended other_failure : Text → Exit
  exited : ℤ → Exit

-- `Run` of a program that writes `chunks` and ends in the given way. `deadline_text` is the message
-- of an expired deadline.
unfoldable pub run : Text → Text → List Text → Exit → Answer
run path deadline_text chunks end =
    let (text, truncated) = result (write_all (fresh max_output) chunks) in
    let answer : CommandResult = record {
      output = trim_space text;
      exit_code = pos 0;
      truncated = truncated;
    } in
    elim end [
      | succeeded ↦ answered answer
      | timed_out ↦ not_run deadline_text
      | context_ended e ↦ not_run e
      | exited code ↦ answered (record answer { exit_code = code })
      | not_found ↦ not_run (bytes "command not found: " ++ path)
      | other_failure e ↦ not_run e
    ]

-- `CopyLimited` of a source that holds `text`: what is written, and whether it passes the limit.
unfoldable pub copy_limited : Text → ℕ → Text × Bool
copy_limited text limit =
    let written = take (suc limit) text in (written, ltb limit (length written))
