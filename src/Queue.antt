-- ===== src/Queue.antt =====
-- internal/queue: the notifications that wait for delivery. `marshal` is json.MarshalIndent of a
-- queue, which fails on a time that JSON cannot show; `decode` is the strict JSON decoder.
pub mod Backoff
pub mod Trim
pub mod Adding
pub mod Files
use gotify_vps_agent.Prelude.{
  ℕ, zero, suc, ◌+◌, ◌-◌, ◌*◌, Bool, true, false, not, ◌&&◌, ◌||◌, List, [], ◌∷◌, ◌++◌, Option,
  none, some, ltb, leb, if◌then◌else◌, length, drop, any, keep,
}
use gotify_vps_agent.Prelude.Int.{ℤ, pos, negsuc, inc, ltb_ℤ, eqb_ℤ}
use gotify_vps_agent.Prelude.Text.{Text, is_empty, text_eq}
use gotify_vps_agent.Textsafe.{sanitize}
use gotify_vps_agent.Clock.{Time, is_zero, before, minute, hour}
use gotify_vps_agent.Model.{Event, Result, is_occurrence, is_reminder, is_escalation, is_recovery}
use gotify_vps_agent.File.{
  ReadOutcome, missing, unopened, unread, contents, Decoded, Outcome, done, failed, ◌>>=◌, ◌>>◌,
  refuse, read_limited, decoded, open_failed, read_failed, too_large, unsupported_version,
  metadata_invalid, invalid_event, encode_failed,
}

abbrev pub max_events : ℕ
max_events = 100

abbrev pub max_bytes : ℕ
max_bytes = 1048576

pub record QueuedEvent : Type 0 where
  pub event : Event
  pub open event use *
  pub created_at : Time

pub record Queue : Type 0 where
  pub version : ℤ
  pub events : List QueuedEvent
  pub attempts : ℤ
  pub last_attempt_at : Time
  pub next_attempt_at : Time

unfoldable pub new : Queue
new = record {
  version = pos 1;
  events = [];
  attempts = pos 0;
  last_attempt_at = 0;
  next_attempt_at = 0;
}

-- The test of one event in the loop of `Load`.
unfoldable pub is_invalid : QueuedEvent → Bool
is_invalid e =
    is_empty e.check_id
    || ltb 128 (length e.check_id)
    || is_empty e.fingerprint
    || ltb 128 (length e.fingerprint)

unfoldable pub sanitize_event : QueuedEvent → QueuedEvent
sanitize_event e = record {
  event = record (e.event) {
    title = sanitize e.title (pos 256);
    message = sanitize e.message (pos 4096);
  };
  created_at = e.created_at;
}

unfoldable pub load_events : List QueuedEvent → Outcome (List QueuedEvent)
load_events [] = done []
load_events (e ∷ es) = do
  refuse (is_invalid e) invalid_event
  rest ← load_events es
  done (sanitize_event e ∷ rest)

unfoldable pub load_value : Queue → Outcome Queue
unfolding load_events
load_value value = do
  refuse (not (eqb_ℤ value.version (pos 1))) unsupported_version
  refuse (ltb max_events (length value.events) || ltb_ℤ value.attempts (pos 0)) metadata_invalid
  events ← load_events value.events
  done (record value { events = events })

unfoldable pub load : (Text → Decoded Queue) → ReadOutcome → Outcome Queue
unfolding new load_value
load decode missing = done new
load decode unopened = failed open_failed
load decode unread = failed read_failed
load decode (contents text) = do
  bytes ← read_limited max_bytes text
  value ← decoded (decode bytes)
  load_value value

abbrev pub same_check : Text → QueuedEvent → Bool
same_check id e = text_eq e.check_id id

-- The inner loop of `Add` for occurrences.
abbrev pub duplicate : List QueuedEvent → Event → Bool
duplicate events incoming =
    any (λ e. same_check incoming.check_id e && text_eq e.fingerprint incoming.fingerprint) events

-- The search from the end of the queue for an event of the check.
unfoldable pub last_of : Text → List QueuedEvent → Option QueuedEvent
last_of id [] = none
last_of id (e ∷ es) = elim (last_of id es) [
  | some later ↦ some later
  | none ↦ if same_check id e then some e else none
]

-- `q.Events[last].Event = incoming`
unfoldable pub replace_last : Event → List QueuedEvent → List QueuedEvent
replace_last incoming [] = []
replace_last incoming (e ∷ es) =
    if any (same_check incoming.check_id) es
    then e ∷ replace_last incoming es
    else if same_check incoming.check_id e
    then record { event = incoming; created_at = e.created_at } ∷ es
    else e ∷ es

-- A reminder or an escalation takes the place of an undelivered event of its incident.
abbrev pub supersedes : Event → QueuedEvent → Bool
supersedes incoming last =
    (is_reminder incoming.kind || is_escalation incoming.kind)
    && not (is_recovery last.kind)
    && not (is_occurrence last.kind)

-- One round of the loop of `Add`: the events, and whether they changed.
unfoldable pub add_one : Time → Event → List QueuedEvent → List QueuedEvent × Bool
add_one now incoming events =
    let appended = events ++ record { event = incoming; created_at = now } ∷ [] in
    if is_empty incoming.check_id || is_empty incoming.fingerprint
    then (events, false)
    else if is_occurrence incoming.kind && duplicate events incoming
    then (events, false)
    else elim (last_of incoming.check_id events) [
      | none ↦ (appended, true)
      | some last ↦
          if text_eq last.fingerprint incoming.fingerprint
          then (events, false)
          else if supersedes incoming last
          then (replace_last incoming events, true)
          else (appended, true)
    ]

unfoldable pub add_from : Time → List Event → List QueuedEvent → Bool → List QueuedEvent × Bool
add_from now [] events changed = (events, changed)
add_from now (incoming ∷ rest) events changed =
    let (next, grew) = add_one now incoming events in add_from now rest next (changed || grew)

unfoldable pub ready : Queue → Time → Bool
ready q now =
    ltb 0 (length q.events) && (is_zero q.next_attempt_at || not (before now q.next_attempt_at))

abbrev pub longest_delay : ℕ
longest_delay = 21600000000000

-- The loop of `MarkFailure` over the rounds that are left.
double_delay : ℕ → ℕ → ℕ
double_delay zero delay = delay
double_delay (suc rounds) delay = elim (ltb delay longest_delay) [
  | true ↦ double_delay rounds (delay * 2)
  | false ↦ delay
]

-- `i` runs from 1 to below the number of attempts.
abbrev rounds_of : ℤ → ℕ
rounds_of (pos n) = n - 1
rounds_of (negsuc n) = 0

retry_delay : ℤ → ℕ
unfolding double_delay
retry_delay attempts =
    let delay = double_delay (rounds_of attempts) (5 * minute) in
    if ltb longest_delay delay then longest_delay else delay

unfoldable pub mark_failure : Queue → Time → Queue
unfolding retry_delay
mark_failure q now =
    let attempts = inc q.attempts in
    record q {
      attempts = attempts;
      last_attempt_at = now;
      next_attempt_at = now + retry_delay attempts;
    }

unfoldable pub clear : Queue → Queue
clear q = record q { events = []; attempts = pos 0; last_attempt_at = 0; next_attempt_at = 0 }

unfoldable pub retain_checks : Queue → List Result → Queue
unfolding clear
retain_checks q results =
    let kept = keep (λ e. any (λ r. text_eq r.id e.check_id) results) q.events in
    if ltb 0 (length kept) then record q { events = kept } else clear q

module _ (marshal : Queue → Option Text) where
  -- `len(data)`, where data is nil if the encoder fails.
  unfoldable pub encoded_length : Queue → ℕ
  encoded_length q = elim (marshal q) [ none ↦ 0 | some text ↦ length text ]

  -- The loop of `trim`: the oldest event goes as long as the file would be too large.
  unfoldable pub trim_bytes : Queue → List QueuedEvent → List QueuedEvent
  trim_bytes q [] = []
  trim_bytes q (e ∷ es) =
      if leb (encoded_length (record q { events = e ∷ es }) + 1) max_bytes
      then e ∷ es
      else trim_bytes q es

  unfoldable pub trim : Queue → Queue
  trim q =
      let newest = drop (length q.events - max_events) q.events in
      record q { events = trim_bytes q newest }

  unfoldable pub add : Queue → List Event → Time → Queue × Bool
  add q incoming now =
      let (events, changed) = add_from now incoming q.events false in
      let next =
        if changed
        then record q { events = events; attempts = pos 0; next_attempt_at = 0 }
        else record q { events = events } in
      (trim next, changed)

  -- `Save` up to the call of securefile.Write, which gets these bytes.
  unfoldable pub save : Queue → Outcome Text
  save value = elim (marshal (trim (record value { version = pos 1 }))) [
    | none ↦ failed encode_failed
    | some text ↦
        if ltb max_bytes (length (text ++ 10 ∷ []))
        then failed too_large
        else done (text ++ 10 ∷ [])
  ]
