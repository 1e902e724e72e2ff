-- ===== src/Tests/Fixtures.antt =====
-- The values that the tests share. A digest that returns its text stands for SHA-256.
use gotify_vps_agent.Prelude.{true, false, List, [], ◌∷◌}
use gotify_vps_agent.Prelude.Int.{pos}
use gotify_vps_agent.Prelude.Text.{Text, bytes}
use gotify_vps_agent.Clock.{Time}
use gotify_vps_agent.Model.{
  Status, status_ok, status_warning, status_critical, Result, EventKind, event_problem,
  event_recovery, Event,
}
use gotify_vps_agent.Config.{Agent}
use gotify_vps_agent.State.{CheckState, zero_check}
use gotify_vps_agent.Queue.{Queue, QueuedEvent}

abbrev pub digest : Text → Text
digest t = t

abbrev pub clock_text : Time → Text
clock_text t = bytes "T"

abbrev pub agent : Agent
agent = record {
  hostname = bytes "vps";
  interval = bytes "5m";
  state_dir = bytes "/var/lib/gotify-vps-agent";
  warning_failures = pos 2;
  recovery_successes = pos 2;
  notify_recovery = true;
  warning_reminder_hours = pos 0;
  critical_reminder_hours = pos 6;
}

abbrev pub healthy : CheckState
healthy = record zero_check { current = status_ok; last_observed = status_ok }

-- An open incident of the check.
abbrev pub failing : CheckState
failing = record healthy {
  current = status_warning;
  last_observed = status_warning;
  consecutive_failures = pos 3;
  first_failure_at = 1000;
  last_notification_at = 2000;
  notified = true;
}

abbrev pub disk_result : Status → Result
disk_result s = record {
  id = bytes "disk";
  title = bytes "Disk";
  status = s;
  message = bytes "usage";
  immediate = false;
  occurrence = [];
}

abbrev pub oom_result : Text → Result
oom_result occurrence = record {
  id = bytes "memory.oom";
  title = bytes "OOM kills";
  status = status_critical;
  message = bytes "killed process";
  immediate = true;
  occurrence = occurrence;
}

abbrev pub disk_event : EventKind → Status → Text → Event
disk_event kind s fp = record {
  check_id = bytes "disk";
  title = bytes "Disk";
  status = s;
  kind = kind;
  message = bytes "usage";
  priority = pos 5;
  fingerprint = fp;
}

abbrev pub at : Time → Event → QueuedEvent
at t e = record { event = e; created_at = t }

abbrev pub two_events : List QueuedEvent
two_events =
    at 5 (disk_event event_problem status_warning (bytes "p"))
    ∷ at 6 (disk_event event_recovery status_ok (bytes "r"))
    ∷ []

abbrev pub waiting : Queue
waiting = record {
  version = pos 1;
  events = two_events;
  attempts = pos 3;
  last_attempt_at = 7;
  next_attempt_at = 8;
}
