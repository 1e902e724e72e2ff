-- ===== src/Storage.antt =====
-- internal/app/storage.go: the order in which a run is made persistent, and how the next run makes
-- up for one that was cut off between two files.
pub mod Restore
pub mod Crash
pub mod Writes
use gotify_vps_agent.Prelude.{
  ℕ, Bool, true, false, not, ◌&&◌, ◌||◌, List, [], ◌∷◌, ◌++◌, Option, none, some, if◌then◌else◌,
}
use gotify_vps_agent.Prelude.Int.{ℤ, pos, max_ℤ}
use gotify_vps_agent.Prelude.Text.{Text, bytes}
use gotify_vps_agent.Prelude.Dict.{Dict, lookup, insert}
use gotify_vps_agent.Clock.{Time, is_zero, before}
use gotify_vps_agent.Model.{
  Status, status_ok, status_warning, status_critical, status_eq, EventKind, event_recovery,
  is_problem, is_escalation, is_recovery, is_reminder, is_occurrence,
}
use gotify_vps_agent.State.{CheckState, zero_check, State}
use gotify_vps_agent.Queue.{Queue, QueuedEvent}

-- `latest`: the last queued event of each check.
unfoldable pub latest_from : Dict QueuedEvent → List QueuedEvent → Dict QueuedEvent
latest_from latest [] = latest
latest_from latest (e ∷ es) = latest_from (insert e.check_id e latest) es

-- A check whose recovery is queued: closed, if the state has it open.
abbrev recovered : CheckState → Option CheckState
recovered check =
    if check.notified
    then some (record check {
      current = status_ok;
      last_observed = status_ok;
      notified = false;
      consecutive_failures = pos 0;
      consecutive_successes = max_ℤ check.consecutive_successes (pos 1);
    })
    else none

-- A check whose problem is queued: open, unless the state has it open or has seen it recover since.
abbrev reopened : CheckState → QueuedEvent → Option CheckState
reopened check e =
    if not (is_zero check.last_recovery_at) && not (before check.last_recovery_at e.created_at)
    then none
    else if check.notified
        || (not (status_eq e.status status_warning) && not (status_eq e.status status_critical))
    then none
    else some (record check {
      title = e.title;
      message = e.message;
      current = e.status;
      last_observed = e.status;
      notified = true;
      last_notification_at = e.created_at;
      first_failure_at = e.created_at;
      consecutive_failures = max_ℤ check.consecutive_failures (pos 1);
      consecutive_successes = pos 0;
    })

-- The body of the loop over `latest`: the entry that is stored, if any.
unfoldable pub restore_check : CheckState → QueuedEvent → Option CheckState
restore_check check e =
    if is_occurrence e.kind
    then none
    else if is_recovery e.kind
    then recovered check
    else if not (is_problem e.kind) && not (is_escalation e.kind) && not (is_reminder e.kind)
    then none
    else reopened check e

-- `current.Checks[id]`, which is the zero value for a missing key.
abbrev pub or_zero : Option CheckState → CheckState
or_zero none = zero_check
or_zero (some check) = check

abbrev pub store : Text → Option CheckState → Dict CheckState → Dict CheckState
store id none checks = checks
store id (some check) checks = insert id check checks

-- The order of the keys does not matter: each round reads and writes the entry of its own key.
unfoldable pub restore_from : Dict CheckState → Dict QueuedEvent → Dict CheckState
restore_from checks [] = checks
restore_from checks ((id, e) ∷ rest) =
    restore_from (store id (restore_check (or_zero (lookup id checks)) e) checks) rest

unfoldable pub restore_pending_state : State → Queue → State
restore_pending_state current pending = record current {
  checks = restore_from current.checks (latest_from [] pending.events);
}
