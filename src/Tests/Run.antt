-- ===== src/Tests/Run.antt =====
-- A machine that is ready to send, and the two runs that leave the queue alone.
use gotify_vps_agent.Prelude.{ℕ, refl, true, false, [], ◌∷◌, Option, none, some, All}
use gotify_vps_agent.Prelude.Text.{Text, bytes}
use gotify_vps_agent.Model.{status_critical}
use gotify_vps_agent.Config.{token_value}
use gotify_vps_agent.Config.Reader.{loaded}
use gotify_vps_agent.State.{new}
use gotify_vps_agent.Queue.{Queue}
use gotify_vps_agent.Storage.Writes.{DiskError, no_space}
use gotify_vps_agent.Run.{CheckOptions, LockAnswers, lock_missing, Machine, got, run_check}
use gotify_vps_agent.Run.Dry.{IsQuiet, IsLocking, run_check-dry, run_check-IsQuiet}
use gotify_vps_agent.Tests.Config.{settings}
use gotify_vps_agent.Tests.Fixtures.{digest, clock_text, disk_result, waiting}

-- No lock file yet, and no other process.
abbrev pub free_lock : LockAnswers
free_lock = record {
  lock_directory = none;
  lock_file = lock_missing;
  lock_create = none;
  lock_busy = false;
}

abbrev pub machine : Machine ℕ
machine = record {
  config = loaded settings;
  debian = true;
  root = true;
  lock = free_lock;
  state_read = got new;
  queue_read = got waiting;
  checks_run =
      λ cfg t. record { results = disk_result status_critical ∷ []; journal_cursor = bytes "c" };
  cancelled = false;
  directory_error = none;
  mode_error = none;
  now = 100;
  since = 101;
  queue_error = λ q. none;
  state_error = λ s. none;
  cursor_error = λ c. some no_space;
  token = token_value (bytes "t");
  client_accepted = λ cfg t. true;
  send = λ actions m. true;
  save = λ actions q. true;
  save_error = no_space;
  emergency_send = λ m. none;
}

abbrev pub encode : Queue → Option Text
encode q = some (bytes "queue")

abbrev pub error_text : DiskError → Text
error_text e = bytes "error"

abbrev dry : CheckOptions
dry = record { dry_run = true; baseline_only = false }

abbrev pub first_run : CheckOptions
first_run = record { dry_run = false; baseline_only = true }

run_check-dry_example :
    All IsLocking (run_check digest clock_text encode error_text dry machine).effects
run_check-dry_example = run_check-dry digest clock_text encode error_text dry machine refl

run_check-IsQuiet_example :
    All IsQuiet (run_check digest clock_text encode error_text first_run machine).effects
run_check-IsQuiet_example =
    run_check-IsQuiet digest clock_text encode error_text first_run machine refl
