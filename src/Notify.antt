-- ===== src/Notify.antt =====
-- internal/notify: queued events rendered as one Gotify message. `rfc3339` is Format(time.RFC3339) of
-- a time in UTC.
pub mod Escaping
pub mod Grouping
pub mod Batches
pub mod Body
use gotify_vps_agent.Prelude.{
  ℕ, zero, suc, ◌+◌, Bool, true, false, not, ◌&&◌, ◌||◌, List, [], ◌∷◌, ◌++◌, map, ltb, ◌==◌,
  if◌then◌else◌, length, take, keep,
}
use gotify_vps_agent.Prelude.Int.{ℤ, pos, ltb_ℤ}
use gotify_vps_agent.Prelude.Text.{Text, bytes, text_eq, text_lt, decimal}
use gotify_vps_agent.Textsafe.{sanitize}
use gotify_vps_agent.Clock.{Time, is_zero, before}
use gotify_vps_agent.Model.{
  Status, status_warning, status_critical, status_eq, Result, EventKind, event_problem,
  event_escalation, event_recovery, event_reminder, event_occurrence, event_other, is_recovery,
  Event, priority,
}
use gotify_vps_agent.Queue.{QueuedEvent}

-- gotify.MaxMessageBytes
abbrev pub max_message_bytes : ℕ
max_message_bytes = 65536

pub record Message : Type 0 where
  pub title : Text
  pub body : Text
  pub priority : ℤ

-- The first replacer of `escapeMarkdown`: a line break becomes a space.
unfoldable pub flatten_lines : Text → Text
flatten_lines [] = []
flatten_lines (a ∷ []) = (if a == 10 || a == 13 then 32 else a) ∷ []
flatten_lines (a ∷ b ∷ s) =
    let after_pair = 32 ∷ flatten_lines s in
    let after_one = flatten_lines (b ∷ s) in
    if a == 13 && b == 10 then after_pair else (if a == 10 || a == 13 then 32 else a) ∷ after_one

-- The second replacer, which works byte by byte.
unfoldable pub escape_byte : ℕ → Text
escape_byte b =
    if b == b'&'
    then bytes "&amp;"
    else if b == b'<'
    then bytes "&lt;"
    else if b == b'>'
    then bytes "&gt;"
    else if b == 92 || b == b'`' || b == b'*' || b == b'_' || b == b'[' || b == b']'
    then 92 ∷ b ∷ []
    else b ∷ []

unfoldable pub escape_bytes : Text → Text
unfolding escape_byte
escape_bytes [] = []
escape_bytes (b ∷ s) = escape_byte b ++ escape_bytes s

unfoldable pub escape_markdown : Text → Text
unfolding flatten_lines escape_bytes
escape_markdown value = escape_bytes (flatten_lines value)

abbrev pub marker : EventKind → Text
marker event_reminder = bytes " (reminder)"
marker event_escalation = bytes " (escalated)"
marker event_occurrence = bytes " (new event)"
marker _ = []

-- The order of the events of a section: by title, then by time.
unfoldable pub event_less : QueuedEvent → QueuedEvent → Bool
event_less a b =
    if text_eq a.title b.title then before a.created_at b.created_at else text_lt a.title b.title

-- sort.SliceStable
unfoldable pub insert_event : QueuedEvent → List QueuedEvent → List QueuedEvent
insert_event e [] = e ∷ []
insert_event e (x ∷ xs) = if event_less x e then x ∷ insert_event e xs else e ∷ x ∷ xs

unfoldable pub sort_events : List QueuedEvent → List QueuedEvent
unfolding insert_event event_less
sort_events [] = []
sort_events (e ∷ es) = insert_event e (sort_events es)

-- The three sections.
abbrev pub is_critical_section : QueuedEvent → Bool
is_critical_section e = status_eq e.status status_critical && not (is_recovery e.kind)

abbrev pub is_warning_section : QueuedEvent → Bool
is_warning_section e = status_eq e.status status_warning && not (is_recovery e.kind)

abbrev pub is_recovery_section : QueuedEvent → Bool
is_recovery_section e = is_recovery e.kind

unfoldable pub highest_priority : ℤ → List QueuedEvent → ℤ
highest_priority best [] = best
highest_priority best (e ∷ es) =
    highest_priority (if ltb_ℤ best e.priority then e.priority else best) es

-- "[hostname] n word"
headline : Text → ℕ → Text → Text
headline hostname n word =
    bytes "[" ++ hostname ++ bytes "] " ++ decimal (pos n) ++ bytes " " ++ word

unfoldable pub build_title : Text → List QueuedEvent → Text
unfolding headline
build_title hostname events =
    let problems = length (keep (λ e. not (is_recovery e.kind)) events) in
    let recoveries = length (keep (λ e. is_recovery e.kind) events) in
    if ltb 0 problems && recoveries == 0
    then headline hostname problems (if problems == 1 then bytes "problem" else bytes "problems")
    else if ltb 0 recoveries && problems == 0
    then headline hostname recoveries
        (if recoveries == 1 then bytes "recovery" else bytes "recoveries")
    else headline hostname (length events) (bytes "VPS events")

-- What `BuildBatch` returns: a message with the number of events in it, or the check of an event
-- that does not fit a message.
pub data Batch : Type 0 where
  batch : Message → ℕ → Batch
  oversized : Text → Batch

module _ (rfc3339 : Time → Text) where
  unfoldable pub render_event : QueuedEvent → Text
  render_event e =
      let observed =
        if is_zero e.created_at then [] else bytes " [" ++ rfc3339 e.created_at ++ bytes "]" in
      bytes "- **"
      ++ escape_markdown e.title
      ++ marker e.kind
      ++ bytes "**"
      ++ observed
      ++ (32 ∷ 0xe2 ∷ 0x80 ∷ 0x94 ∷ 32 ∷ [])
      ++ escape_markdown e.message
      ++ (10 ∷ [])

  unfoldable pub render_events : List QueuedEvent → Text
  unfolding render_event
  render_events [] = []
  render_events (e ∷ es) = render_event e ++ render_events es

  -- One section, left out if it has no event.
  unfoldable pub render_section : Text → (QueuedEvent → Bool) → List QueuedEvent → Text
  unfolding render_events
  render_section name match events =
      let items = keep match events in
      if ltb 0 (length items)
      then bytes "## " ++ name ++ (10 ∷ []) ++ render_events (sort_events items) ++ (10 ∷ [])
      else []

  unfoldable pub build : Text → List QueuedEvent → Time → Message
  unfolding render_section
  build hostname events now = record {
    title = build_title hostname events;
    body =
        render_section (bytes "CRITICAL") is_critical_section events
        ++ render_section (bytes "WARNING") is_warning_section events
        ++ render_section (bytes "RECOVERY") is_recovery_section events
        ++ bytes "Checked: `"
        ++ rfc3339 now
        ++ bytes "`";
    priority = highest_priority (pos 3) events;
  }

  -- The loop of `BuildBatch`; `index` and `count` are the same number in every round.
  unfoldable pub batch_from :
      Text → List QueuedEvent → Time → List QueuedEvent → ℕ → Message → Batch
  batch_from hostname events now [] count message = batch message count
  batch_from hostname events now (e ∷ rest) count message =
      let next = build hostname (take (suc count) events) now in
      let later = batch_from hostname events now rest (suc count) next in
      if ltb max_message_bytes (length next.body)
      then (if count == 0 then oversized e.check_id else batch message count)
      else later

  unfoldable pub build_batch : Text → List QueuedEvent → Time → Batch
  build_batch hostname events now =
      batch_from hostname events now events 0 (record { title = []; body = []; priority = pos 0 })

  storage_event : Text → Event
  storage_event message = record {
    check_id = bytes "agent.storage";
    title = bytes "Agent persistence failure";
    status = status_critical;
    kind = event_problem;
    message = message;
    priority = pos 10;
    fingerprint = [];
  }

  result_event : Result → Time → QueuedEvent
  result_event r now = record {
    event = record {
      check_id = r.id;
      title = sanitize r.title (pos 256);
      status = r.status;
      kind = event_problem;
      message = sanitize r.message (pos 512);
      priority = priority r.status event_problem;
      fingerprint = [];
    };
    created_at = now;
  }

  -- The inner loop of `StorageFailure`.
  unfoldable pub add_results : Status → List Result → Time → List QueuedEvent → List QueuedEvent
  unfolding result_event
  add_results wanted [] now events = events
  add_results wanted (r ∷ rs) now events = add_results wanted rs now (
      if not (status_eq r.status wanted) || not (ltb (length events) 8)
      then events
      else events ++ result_event r now ∷ [])

  unfoldable pub storage_events : Text → Text → List Result → Time → List QueuedEvent
  unfolding storage_event add_results
  storage_events stage cause results now =
      let first : QueuedEvent = record {
        event = storage_event (
            bytes "Unable to persist "
            ++ stage
            ++ bytes ": "
            ++ sanitize cause (pos 512)
            ++ bytes ". This emergency alert was not recorded and may be repeated.");
        created_at = now;
      } in
      add_results status_warning results now (add_results status_critical results now (first ∷ []))

  unfoldable pub storage_failure : Text → Text → Text → List Result → Time → Message
  storage_failure hostname stage cause results now =
      let message = build hostname (storage_events stage cause results now) now in
      record message { title = bytes "[" ++ hostname ++ bytes "] Agent persistence failure" }
