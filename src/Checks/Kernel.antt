-- ===== src/Checks/Kernel.antt =====
-- internal/checks: the kernel's journal, from its pages to the results of the two checks that read
-- it. `json_entry` is json.Unmarshal of a line, and `hex_digest` SHA-256 in hexadecimal.
use gotify_vps_agent.Prelude.{
  ℕ, ◌-◌, ◌*◌, Bool, true, false, not, ◌&&◌, ◌||◌, List, [], ◌∷◌, ◌++◌, map, Option, none, some,
  any, leb, ◌==◌, if◌then◌else◌, length, drop, keep,
}
use gotify_vps_agent.Prelude.Int.{pos, eqb_ℤ}
use gotify_vps_agent.Prelude.Text.{Text, bytes, is_empty, decimal}
use gotify_vps_agent.Strings.{trim_space}
use gotify_vps_agent.Strings.Search.{has_prefix, contains, split, join, among}
use gotify_vps_agent.Strings.Lines.{non_empty_lines, to_lower, lower_ascii, fold_case}
use gotify_vps_agent.Clock.{Time, is_zero, minute}
use gotify_vps_agent.Model.{status_warning, status_critical, Result}
use gotify_vps_agent.Config.Values.{atoi}
use gotify_vps_agent.Runner.{CommandResult}
use gotify_vps_agent.Checks.{ok, problem, join_limited}
use gotify_vps_agent.Checks.Host.{Host, FileText, absent, unreadable, text, unix_seconds}
use gotify_vps_agent.Checks.Journal.{
  cursor_too_long, cursor_control, validate_journal_cursor, Page, page, page_failed,
  entry_too_large, out_of_rounds, collect_journal_page,
}

pub record JournalEntry : Type 0 where
  pub cursor : Text
  pub line : Text

-- The text of an error, empty lists with it; or what was read.
pub record JournalSnapshot : Type 0 where
  pub output : Text
  pub cursor : Text
  pub err : Option Text
  pub entries : List JournalEntry

abbrev pub failed_snapshot : Text → JournalSnapshot
failed_snapshot e = record { output = []; cursor = []; err = some e; entries = [] }

-- The field MESSAGE of an entry: missing or null, a string or an array of bytes, or anything else.
pub data RawMessage : Type 0 where
  unavailable_message invalid_message : RawMessage
  message_bytes : Text → RawMessage

pub record RawEntry : Type 0 where
  pub cursor : Text
  pub timestamp : Text
  pub message : RawMessage

module _ (host : Host) (json_entry : Text → Option RawEntry) where
  -- An entry of the journal, or the text of the error that it is refused with.
  unfoldable pub render_entry : Text → JournalEntry → Option Text × JournalEntry
  render_entry trimmed nothing = elim (json_entry trimmed) [
    | none ↦ (some (bytes "journalctl returned invalid JSON"), nothing)
    | some raw ↦ elim (validate_journal_cursor raw.cursor) [
      | some e ↦ (some (bytes "journalctl returned an invalid entry cursor"), nothing)
      | none ↦
          if is_empty raw.cursor
          then (some (bytes "journalctl returned an invalid entry cursor"), nothing)
          else elim raw.message [
            | unavailable_message ↦
                (some (bytes "journalctl returned an unavailable message"), nothing)
            | invalid_message ↦ (some (bytes "journalctl returned an invalid message"), nothing)
            | message_bytes message ↦ elim (atoi raw.timestamp) [
              | none ↦ (some (bytes "journalctl returned an invalid timestamp"), nothing)
              | some stamp ↦ (
                none,
                record {
                  cursor = raw.cursor;
                  line =
                      host.micro_text stamp
                      ++ bytes " "
                      ++ join (bytes " ") (non_empty_lines message);
                },
              )
            ]
          ]
    ]
  ]

  -- The body of the loop of `parseJournalOutput`.
  unfoldable pub parse_line : Text → JournalSnapshot → JournalSnapshot
  parse_line line snapshot =
      let trimmed = trim_space line in
      let (refused, entry) = render_entry trimmed (record { cursor = []; line = [] }) in
      if has_prefix trimmed (bytes "-- cursor: ") || is_empty trimmed
      then snapshot
      else elim refused [
        | some e ↦ failed_snapshot e
        | none ↦ record snapshot { cursor = entry.cursor; entries = snapshot.entries ++ entry ∷ [] }
      ]

  unfoldable pub parse_lines : List Text → JournalSnapshot → JournalSnapshot
  parse_lines [] snapshot = snapshot
  parse_lines (line ∷ rest) snapshot =
      let next = parse_line line snapshot in
      elim next.err [ some e ↦ next | none ↦ parse_lines rest next ]

  -- `parseJournalOutput`
  unfoldable pub parse_journal_output : Text → Text → JournalSnapshot
  parse_journal_output output current_cursor =
      let s =
        parse_lines (split 10 output)
          (record { output = []; cursor = current_cursor; err = none; entries = [] }) in
      elim s.err [
        | some e ↦ s
        | none ↦ record s { output = join (10 ∷ []) (map (λ entry. entry.line) s.entries) }
      ]

  base_args : List Text
  base_args =
      bytes "--quiet"
      ∷ bytes "--no-pager"
      ∷ bytes "--all"
      ∷ bytes "--output=json"
      ∷ bytes "--output-fields=__CURSOR,__REALTIME_TIMESTAMP,MESSAGE"
      ∷ bytes "--show-cursor"
      ∷ []

  -- `lastRun`, or ten minutes ago.
  abbrev since_args : Time → List Text
  since_args last_run =
      let t = if is_zero last_run then host.now - 10 * minute else last_run in
      bytes "--since" ∷ (b'@' ∷ decimal (unix_seconds t)) ∷ []

  unfoldable pub journal_args : Text → Time → List Text
  unfolding base_args
  journal_args cursor last_run =
      base_args
      ++ (if is_empty cursor then since_args last_run else (bytes "--after-cursor=" ++ cursor) ∷ [])
      ++ bytes "_TRANSPORT=kernel" ∷ []

  unfoldable pub run_page : List Text → Page
  run_page args = collect_journal_page λ limit.
      host.run (bytes "/usr/bin/journalctl")
        (args ++ (bytes "--lines=+" ++ decimal (pos limit)) ∷ [])

  -- The snapshot of a page, or its error.
  unfoldable pub read_page : Text → (CommandResult → JournalSnapshot) → Page → JournalSnapshot
  read_page cursor next (page_failed e) = failed_snapshot e
  read_page cursor next entry_too_large =
      failed_snapshot
        (bytes "a journal entry exceeded the safe collection limit; cursor was not advanced")
  read_page cursor next out_of_rounds = failed_snapshot (bytes "journal collection failed")
  read_page cursor next (page r) = next r

  unfoldable pub finish_page : Text → CommandResult → JournalSnapshot
  finish_page cursor r =
      if eqb_ℤ r.exit_code (pos 0)
      then parse_journal_output r.output cursor
      else failed_snapshot (bytes "journalctl failed: " ++ r.output)

  -- From a valid cursor on: a page after it, or one by time if journalctl does not accept it.
  unfoldable pub collect_after : Text → Time → JournalSnapshot
  collect_after cursor last_run =
      read_page cursor
        (λ r.
          if not (eqb_ℤ r.exit_code (pos 0)) && not (is_empty cursor)
          then read_page [] (finish_page []) (run_page (journal_args [] last_run))
          else finish_page cursor r)
        (run_page (journal_args cursor last_run))

  -- `collectKernelJournalWithRunner`; the file of the cursor is given.
  unfoldable pub collect_kernel_journal : FileText → Time → JournalSnapshot
  collect_kernel_journal (unreadable e) last_run =
      failed_snapshot (bytes "read journal cursor: " ++ e)
  collect_kernel_journal absent last_run = collect_after [] last_run
  collect_kernel_journal (text s) last_run = elim (validate_journal_cursor (trim_space s)) [
    | some cursor_too_long ↦ failed_snapshot (bytes "invalid journal cursor: cursor exceeds 16 KiB")
    | some cursor_control ↦
        failed_snapshot (bytes "invalid journal cursor: cursor contains control characters")
    | none ↦ collect_after (trim_space s) last_run
  ]

-- `filterLines`; no needle has a capital letter.
unfoldable pub filter_lines : Text → List Text → List Text
filter_lines output needles =
    keep (λ line. any (contains (to_lower line)) needles) (non_empty_lines output)

abbrev is_word : ℕ → Bool
is_word b =
    (leb b'a' b && leb b b'z')
    || (leb b'A' b && leb b b'Z')
    || (leb b'0' b && leb b b'9')
    || b == b'_'

starts_word : Text → Bool
starts_word [] = false
starts_word (b ∷ s) = is_word b

-- A whole word `\bI/O error\b`; `before` tells whether the byte before is part of a word.
has_io_error : Bool → Text → Bool
unfolding starts_word
has_io_error before [] = false
has_io_error before (b ∷ s) =
    (not before && has_prefix (b ∷ s) (bytes "i/o error") && not (starts_word (drop 9 (b ∷ s))))
    || has_io_error (is_word b) s

-- Some end of the text starts with the prefix and satisfies the test behind it.
anywhere : Text → (Text → Bool) → Text → Bool
anywhere prefix test [] = false
anywhere prefix test (b ∷ s) =
    (has_prefix (b ∷ s) prefix && test (drop (length prefix) (b ∷ s))) || anywhere prefix test s

digit_then : (ℕ → Bool) → (Text → Bool) → Text → Bool
digit_then p test [] = false
digit_then p test (b ∷ s) = p b && test s

-- The eight patterns of `checkKernelErrors`.
unfoldable pub is_kernel_error : Text → Bool
unfolding has_io_error anywhere digit_then
is_kernel_error line =
    let s = fold_case line in
    has_io_error false (lower_ascii line)
    || contains s (bytes "buffer i/o error")
    || anywhere (bytes "ext")
        (digit_then (λ b. leb b'2' b && leb b b'4') (λ rest. has_prefix rest (bytes "-fs error"))) s
    || anywhere (bytes "xfs")
        (λ rest. contains rest (bytes "corruption") || contains rest (bytes "error")) s
    || contains s (bytes "blk_update_request")
    || anywhere (bytes "nvme")
        (λ rest.
          contains rest (bytes "error")
          || contains rest (bytes "timeout")
          || contains rest (bytes "reset"))
        s
    || anywhere (bytes "ata")
        (digit_then (λ b. leb b'0' b && leb b b'9') (λ rest. contains rest (bytes "error"))) s
    || contains s (bytes "read-only file system")

module _ (hex_digest : Text → Text) where
  -- What identifies the matches: the cursors of their entries, or the journal's cursor and the lines.
  unfoldable pub identities : JournalSnapshot → List Text → List Text
  identities journal matches =
      let found = map (λ e. e.cursor) (keep (λ e. among e.line matches) journal.entries) in
      if length found == 0 then journal.cursor ∷ join (10 ∷ []) matches ∷ [] else found

  unfoldable pub journal_problem : Text → Text → JournalSnapshot → List Text → Result
  journal_problem id title journal matches =
      record (problem id title status_critical (join_limited matches 4) true) {
        occurrence = hex_digest (join (0 ∷ []) (identities journal matches));
      }

  -- What both checks conclude from the lines that match.
  unfoldable pub judge_journal : Text → Text → Text → JournalSnapshot → List Text → Result
  judge_journal id title nothing journal matches = elim journal.err [
    | some e ↦ problem id title status_warning e false
    | none ↦
        if length matches == 0
        then ok id title nothing
        else journal_problem id title journal matches
  ]

  unfoldable pub check_oom : JournalSnapshot → Result
  check_oom journal =
      judge_journal (bytes "memory.oom") (bytes "OOM kills") (bytes "No new OOM events") journal (
        filter_lines journal.output
          (bytes "out of memory" ∷ bytes "oom-kill" ∷ bytes "killed process" ∷ []))

  unfoldable pub check_kernel_errors : JournalSnapshot → Result
  check_kernel_errors journal =
      judge_journal (bytes "kernel.errors") (bytes "Kernel and block-device errors")
        (bytes "No new matching kernel errors") journal
        (keep is_kernel_error (non_empty_lines journal.output))
