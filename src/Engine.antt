-- ===== src/Engine.antt =====
-- internal/engine: from the results of one run to the next state of each check and the events to
-- send. `hex_digest` is hex.EncodeToString of sha256.Sum256.
pub mod History
pub mod Protocol
pub mod Thresholds
pub mod Journal
pub mod Refinement
use gotify_vps_agent.Prelude.{
  ℕ, ◌+◌, Bool, true, false, not, ◌&&◌, ◌||◌, List, [], ◌∷◌, ◌++◌, Option, none, some,
  if◌then◌else◌, any,
}
use gotify_vps_agent.Prelude.Int.{ℤ, pos, inc, leb_ℤ, eqb_ℤ, scale64}
use gotify_vps_agent.Prelude.Text.{Text, bytes, is_empty, text_eq, decimal}
use gotify_vps_agent.Prelude.Dict.{Dict, lookup, insert, restrict}
use gotify_vps_agent.Clock.{Time, is_zero, hour, unix_nano, sub_time}
use gotify_vps_agent.Model.{
  Status, status_ok, status_warning, status_critical, status_eq, status_text, Result, EventKind,
  event_problem, event_escalation, event_recovery, event_reminder, event_occurrence, kind_text,
  Event, with_occurrence, fingerprint, priority,
}
use gotify_vps_agent.Config.{Agent}
use gotify_vps_agent.State.{CheckState, zero_check, State}

abbrev pub is_ok : Status → Bool
is_ok s = status_eq s status_ok

-- `result.ID == "memory.oom" || result.ID == "kernel.errors"`
unfoldable pub journal_check : Text → Bool
journal_check id = text_eq id (bytes "memory.oom") || text_eq id (bytes "kernel.errors")

unfoldable pub reminder_due : CheckState → Agent → Time → Bool
reminder_due check agent now =
    let hours =
      if status_eq check.current status_critical
      then agent.critical_reminder_hours
      else agent.warning_reminder_hours in
    if is_zero check.last_notification_at
    then false
    else if eqb_ℤ hours (pos 0)
    then false
    else leb_ℤ (scale64 hours hour) (sub_time now check.last_notification_at)

-- The entry that a result starts from: the stored one, or a healthy one.
abbrev pub opened : Option CheckState → Result → CheckState
opened none r = record zero_check {
  title = r.title;
  current = status_ok;
  last_observed = status_ok;
}
opened (some check) r = check

-- The reset of a journal check that reports no new occurrence.
abbrev pub rearmed : CheckState → Bool → CheckState
rearmed check journal =
    if journal && status_eq check.current status_critical
    then record check {
      current = status_ok;
      last_observed = status_ok;
      notified = false;
      consecutive_failures = pos 0;
    }
    else check

-- A failing result, counted.
abbrev pub counted : CheckState → Result → Time → CheckState
counted check r now = record check {
  consecutive_failures =
      if not (is_ok check.last_observed)
        && (not check.notified || status_eq check.last_observed r.status)
      then inc check.consecutive_failures
      else pos 1;
  first_failure_at = if is_zero check.first_failure_at then now else check.first_failure_at;
  consecutive_successes = pos 0;
  last_observed = r.status;
}

abbrev required : Agent → Result → ℤ
required agent r = if r.immediate then pos 1 else agent.warning_failures

-- `active[id]`
abbrev pub active : List Result → Text → Bool
active results id = any (λ r. text_eq r.id id) results

module _ (hex_digest : Text → Text) where
  unfoldable pub new_event : Result → EventKind → Status → Text → Event
  new_event r kind status message = record {
    check_id = r.id;
    title = r.title;
    status = status;
    kind = kind;
    message = message;
    priority = priority status kind;
    fingerprint = hex_digest (
        with_occurrence (r.id ++ 0 ∷ kind_text kind ++ 0 ∷ status_text status ++ 0 ∷ message)
          r.occurrence);
  }

  -- The problem event of an incident carries the time of its first failure.
  unfoldable pub problem_event : Result → Time → Event
  unfolding new_event
  problem_event r first_failure_at =
      let event = new_event r event_problem r.status r.message in
      record event {
        fingerprint = event.fingerprint ++ b'-' ∷ decimal (unix_nano first_failure_at);
      }

  -- Title, message and, unless a journal check reports nothing new, fingerprint of the result.
  abbrev pub described : CheckState → Result → CheckState
  described check r = record check {
    title = r.title;
    message = r.message;
    fingerprint =
        if not (journal_check r.id) || not (is_empty r.occurrence)
        then fingerprint hex_digest r
        else check.fingerprint;
  }

  -- A result with an occurrence: one event, unless the fingerprint is the one already seen.
  unfoldable pub occurred : Text → CheckState → Result → Time → CheckState × List Event
  occurred previous_fingerprint check r now =
      let seen = text_eq previous_fingerprint check.fingerprint in
      (
        record check {
          last_notification_at = if seen then check.last_notification_at else now;
          current = r.status;
          last_observed = r.status;
          consecutive_failures = pos 1;
          consecutive_successes = pos 0;
          notified = true;
        },
        if seen then [] else new_event r event_occurrence r.status r.message ∷ [],
      )

  -- A result with status OK.
  unfoldable pub succeeded : Agent → Time → CheckState → Result → CheckState × List Event
  succeeded agent now check r =
      let again = if is_ok check.last_observed then inc check.consecutive_successes else pos 1 in
      let enough = leb_ℤ agent.recovery_successes again in
      let cleared = record check {
        consecutive_successes = again;
        consecutive_failures = pos 0;
        first_failure_at = 0;
        last_observed = status_ok;
      } in
      if not (is_ok check.current) && check.notified && enough
      then (
        record cleared {
          last_notification_at = if agent.notify_recovery then now else check.last_notification_at;
          current = status_ok;
          last_recovery_at = now;
          notified = false;
        },
        if agent.notify_recovery
            then new_event r event_recovery status_ok (bytes "Recovered: " ++ r.message) ∷ []
            else [],
      )
      else if not (is_ok check.current) && not check.notified && enough
      then (record cleared { current = status_ok }, [])
      else (cleared, [])

  -- The `switch` of a failing result that has been counted.
  unfoldable pub notified_of : Agent → Time → CheckState → Result → CheckState × List Event
  notified_of agent now check r =
      let reached = leb_ℤ (required agent r) check.consecutive_failures in
      if not check.notified && reached
      then (
        record check { current = r.status; last_notification_at = now; notified = true },
        problem_event r check.first_failure_at ∷ [],
      )
      else if status_eq check.current status_warning
          && status_eq r.status status_critical
          && reached
      then (
        record check { current = status_critical; last_notification_at = now; notified = true },
        new_event r event_escalation r.status r.message ∷ [],
      )
      else if status_eq check.current r.status && check.notified && reminder_due check agent now
      then (
        record check { last_notification_at = now },
        new_event r event_reminder r.status r.message ∷ [],
      )
      else (check, [])

  -- One round of the loop of `Evaluate`, on the entry that the result starts from.
  unfoldable pub evaluate_check : Agent → Time → CheckState → Result → CheckState × List Event
  unfolding occurred succeeded notified_of
  evaluate_check agent now check r =
      let told = described check r in
      let armed = rearmed told (journal_check r.id) in
      if not (is_empty r.occurrence)
      then occurred check.fingerprint told r now
      else if is_ok r.status
      then succeeded agent now armed r
      else notified_of agent now (counted armed r now) r

  unfoldable pub evaluate_from :
      Agent → Time → Dict CheckState → List Event → List Result → Dict CheckState × List Event
  evaluate_from agent now checks events [] = (checks, events)
  evaluate_from agent now checks events (r ∷ rs) =
      let (check, raised) = evaluate_check agent now (opened (lookup r.id checks) r) r in
      evaluate_from agent now (insert r.id check checks) (events ++ raised) rs

  unfoldable pub evaluate : State → List Result → Agent → Time → State × List Event
  evaluate current results agent now =
      let (checks, events) =
        evaluate_from agent now (restrict (active results) current.checks) [] results in
      (record current { checks = checks; initialized = true; last_run = now }, events)

  unfoldable pub baseline_check : Result → Time → CheckState
  baseline_check r now = record {
    title = r.title;
    current = r.status;
    last_observed = r.status;
    consecutive_failures = if is_ok r.status then pos 0 else pos 1;
    consecutive_successes = if is_ok r.status then pos 1 else pos 0;
    first_failure_at = if is_ok r.status then 0 else now;
    last_notification_at = 0;
    last_recovery_at = 0;
    fingerprint = fingerprint hex_digest r;
    message = r.message;
    notified = false;
  }

  unfoldable pub baseline_from : Time → Dict CheckState → List Result → Dict CheckState
  baseline_from now checks [] = checks
  baseline_from now checks (r ∷ rs) =
      baseline_from now (insert r.id (baseline_check r now) checks) rs

  unfoldable pub baseline : State → List Result → Time → State
  baseline current results now = record current {
    checks = baseline_from now [] results;
    initialized = true;
    last_run = now;
  }
