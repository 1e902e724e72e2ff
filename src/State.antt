-- ===== src/State.antt =====
-- internal/state: what the agent remembers of each check between two runs. `marshal` is
-- json.MarshalIndent of a state, `decode` the strict JSON decoder.
pub mod Files
use gotify_vps_agent.Prelude.{
  ℕ, Bool, true, false, not, ◌&&◌, ◌||◌, List, [], ◌∷◌, ◌++◌, Option, none, some, ltb, length,
  if◌then◌else◌,
}
use gotify_vps_agent.Prelude.Int.{ℤ, pos, eqb_ℤ, ltb_ℤ}
use gotify_vps_agent.Prelude.Text.{Text, is_empty}
use gotify_vps_agent.Prelude.Dict.{Dict}
use gotify_vps_agent.Textsafe.{sanitize}
use gotify_vps_agent.Clock.{Time, is_zero}
use gotify_vps_agent.Model.{
  Status, status_ok, status_warning, status_critical, status_other, status_eq,
}
use gotify_vps_agent.File.{
  ReadOutcome, missing, unopened, unread, contents, Decoded, Outcome, done, failed, ◌>>=◌, ◌>>◌,
  refuse, read_limited, decoded, open_failed, read_failed, too_large, unsupported_version,
  too_many_checks, invalid_check_id, invalid_status, invalid_counters, encode_failed,
}

abbrev pub max_state_bytes : ℕ
max_state_bytes = 2097152

pub record CheckState : Type 0 where
  pub title : Text
  pub current : Status
  pub last_observed : Status
  pub consecutive_failures : ℤ
  pub consecutive_successes : ℤ
  pub first_failure_at : Time
  pub last_notification_at : Time
  pub last_recovery_at : Time
  pub fingerprint : Text
  pub message : Text
  pub notified : Bool

-- The zero value `CheckState{}`.
abbrev pub zero_check : CheckState
zero_check = record {
  title = [];
  current = status_other [];
  last_observed = status_other [];
  consecutive_failures = pos 0;
  consecutive_successes = pos 0;
  first_failure_at = 0;
  last_notification_at = 0;
  last_recovery_at = 0;
  fingerprint = [];
  message = [];
  notified = false;
}

-- A nil map of checks is the empty one: every function that writes to the map makes it first.
pub record State : Type 0 where
  pub version : ℤ
  pub initialized : Bool
  pub last_run : Time
  pub checks : Dict CheckState

unfoldable pub new : State
new = record { version = pos 1; initialized = false; last_run = 0; checks = [] }

unfoldable pub valid_status : Status → Bool
valid_status s = status_eq s status_ok || status_eq s status_warning || status_eq s status_critical

-- The entry that `Load` keeps: texts sanitized, and an old entry with a notification marked so.
unfoldable pub clean_check : CheckState → CheckState
clean_check check = record check {
  title = sanitize check.title (pos 256);
  message = sanitize check.message (pos 4096);
  notified =
      check.notified
      || (not (is_zero check.last_notification_at) && not (status_eq check.current status_ok));
}

-- The tests of one entry.
unfoldable pub accept_check : Text → CheckState → Outcome CheckState
accept_check id check = do
  refuse (is_empty id || ltb 128 (length id)) invalid_check_id
  refuse (not (valid_status check.current) || not (valid_status check.last_observed)) invalid_status
  refuse (ltb_ℤ check.consecutive_failures (pos 0) || ltb_ℤ check.consecutive_successes (pos 0))
      invalid_counters
  done (clean_check check)

-- Go visits a map in no fixed order, which can only change the error reported.
unfoldable pub load_checks : Dict CheckState → Outcome (Dict CheckState)
load_checks [] = done []
load_checks ((id, check) ∷ rest) = do
  kept ← accept_check id check
  others ← load_checks rest
  done ((id, kept) ∷ others)

unfoldable pub load_value : State → Outcome State
load_value value = do
  refuse (not (eqb_ℤ value.version (pos 1))) unsupported_version
  refuse (ltb 512 (length value.checks)) too_many_checks
  checks ← load_checks value.checks
  done (record value { checks = checks })

unfoldable pub load : (Text → Decoded State) → ReadOutcome → Outcome State
load decode missing = done new
load decode unopened = failed open_failed
load decode unread = failed read_failed
load decode (contents text) = do
  read ← read_limited max_state_bytes text
  value ← decoded (decode read)
  load_value value

-- `Save` up to the call of securefile.Write, which gets these bytes.
unfoldable pub save : (State → Option Text) → State → Outcome Text
save marshal value = elim (marshal (record value { version = pos 1 })) [
  | none ↦ failed encode_failed
  | some text ↦
      if ltb max_state_bytes (length (text ++ 10 ∷ []))
      then failed too_large
      else done (text ++ 10 ∷ [])
]
