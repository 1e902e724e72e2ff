-- ===== src/App/Doctor.antt =====
-- internal/app/app.go, Doctor: its entries, in order, and whether one of them is a failure.
pub mod Ready
use gotify_vps_agent.Prelude.{
  ℕ, ◌+◌, ◌/◌, ◌%◌, Bool, true, false, not, ◌&&◌, ◌||◌, List, [], ◌∷◌, ◌++◌, map, Option, none,
  some, ltb, ◌==◌, if◌then◌else◌, length,
}
use gotify_vps_agent.Prelude.Int.{ℤ, pos, ltb_ℤ, eqb_ℤ, scale64, inc}
use gotify_vps_agent.Prelude.Text.{Text, bytes, is_empty, decimal}
use gotify_vps_agent.Strings.Search.{replace}
use gotify_vps_agent.Clock.{Time, is_zero, sub_time}
use gotify_vps_agent.File.{Outcome, done, failed}
use gotify_vps_agent.Config.{
  Config, TokenResult, token_value, token_error, state_path, queue_path, journal_cursor_path,
}
use gotify_vps_agent.Config.Reader.{Loaded, loaded, unavailable, too_big, unparsed, invalid}
use gotify_vps_agent.State.{State}
use gotify_vps_agent.State
use gotify_vps_agent.Queue.{Queue}
use gotify_vps_agent.Queue
use gotify_vps_agent.Runner.{CommandResult, Answer, answered, not_run}
use gotify_vps_agent.Systemd.{timer_healthy}
use gotify_vps_agent.Gotify.{NewClient, client, no_client, health}
use gotify_vps_agent.App.{
  World, FileInfo, no_info, info, load_config, read_token, debian, client_for,
}

pub data Level : Type 0 where
  entry_pass entry_warn entry_fail : Level

pub record DoctorEntry : Type 0 where
  pub level : Level
  pub name : Text
  pub detail : Text

pub record Report : Type 0 where
  pub entries : List DoctorEntry
  pub failed : Bool

abbrev pub fails : DoctorEntry → Bool
fails entry = elim entry.level [ entry_fail ↦ true | entry_warn ↦ false | entry_pass ↦ false ]

-- `add`
unfoldable pub add : Report → DoctorEntry → Report
add r entry = record {
  entries = r.entries ++ entry ∷ [];
  failed = if fails entry then true else r.failed;
}

unfoldable pub add_all : Report → List DoctorEntry → Report
add_all r [] = r
add_all r (entry ∷ rest) = add_all (add r entry) rest

abbrev pass : Text → Text → DoctorEntry
pass name detail = record { level = entry_pass; name = name; detail = detail }

abbrev warn : Text → Text → DoctorEntry
warn name detail = record { level = entry_warn; name = name; detail = detail }

abbrev fail : Text → Text → DoctorEntry
fail name detail = record { level = entry_fail; name = name; detail = detail }

-- fmt.Sprintf("%04o", mode) of permission bits.
abbrev octal : ℕ → Text
octal mode =
    (48 + mode / 512 % 8) ∷ (48 + mode / 64 % 8) ∷ (48 + mode / 8 % 8) ∷ (48 + mode % 8) ∷ []

abbrev pub owned_by_root : Option (ℕ × ℕ) → Bool
owned_by_root none = false
owned_by_root (some (user, group)) = user == 0 && group == 0

-- `checkFile` of what os.Lstat answers.
unfoldable pub file_entry : Text → ℕ → FileInfo → DoctorEntry
file_entry path expected (no_info gone e) =
    fail (bytes "File permissions") (path ++ bytes ": " ++ e)
file_entry path expected (info regular directory symlink mode owner) =
    if not regular || symlink
    then fail (bytes "File type") (path ++ bytes " must be a regular file")
    else if not (mode == expected)
    then fail (bytes "File permissions")
        (path ++ bytes " mode is " ++ octal mode ++ bytes ", expected " ++ octal expected)
    else if not (owned_by_root owner)
    then fail (bytes "File ownership") (path ++ bytes " must be root:root")
    else pass (bytes "File permissions") (path ++ bytes " " ++ octal expected ++ bytes " root:root")

-- The state directory, of what os.Lstat answers.
unfoldable pub directory_entry : Text → FileInfo → DoctorEntry
directory_entry path (no_info gone e) = fail (bytes "State directory") e
directory_entry path (info regular directory symlink mode owner) =
    let name = bytes "State directory" in
    if not directory || symlink
    then fail name (path ++ bytes " must be a real directory")
    else if not (mode == 0o700)
    then fail name (bytes "mode is " ++ octal mode ++ bytes ", expected 0700")
    else if not (owned_by_root owner)
    then fail name (path ++ bytes " must be root:root")
    else pass name (path ++ bytes " 0700 root:root")

module _ {F : Type 0} (w : World F) where
  unfoldable pub check_file : Text → ℕ → DoctorEntry
  check_file path expected = file_entry path expected (w.lstat path)

  abbrev pub runtime_entry : Text → FileInfo → List DoctorEntry
  unfolding check_file
  runtime_entry path (info regular directory symlink mode owner) = check_file path 0o600 ∷ []
  runtime_entry path (no_info true e) = []
  runtime_entry path (no_info false e) = fail (bytes "Runtime file") (path ++ bytes ": " ++ e) ∷ []

  -- The loop over the files that may be missing.
  unfoldable pub runtime_entries : List Text → List DoctorEntry
  runtime_entries [] = []
  runtime_entries (path ∷ rest) = runtime_entry path (w.stat path) ++ runtime_entries rest

  abbrev command_entry : Text → FileInfo → DoctorEntry
  command_entry path (no_info gone e) = fail (bytes "Command") (path ++ bytes " not found")
  command_entry path (info regular directory symlink mode owner) = pass (bytes "Command") path

  unfoldable pub command_entries : List Text → List DoctorEntry
  command_entries [] = []
  command_entries (path ∷ rest) = command_entry path (w.stat path) ∷ command_entries rest

  abbrev needrestart_entry : FileInfo → DoctorEntry
  needrestart_entry (no_info gone e) =
      warn (bytes "needrestart") (bytes "not installed; the kernel check will warn")
  needrestart_entry (info regular directory symlink mode owner) =
      pass (bytes "needrestart") (bytes "/usr/sbin/needrestart")

  unfoldable pub cursor_entry : Text → FileInfo → DoctorEntry
  cursor_entry path (info regular directory symlink mode owner) = check_file path 0o600
  cursor_entry path (no_info true e) =
      warn (bytes "Journal cursor") (bytes "not initialized; create a baseline or run a check")
  cursor_entry path (no_info false e) = fail (bytes "Journal cursor") e

  unfoldable pub timer_entry : Answer → DoctorEntry
  timer_entry (not_run e) = fail (bytes "Agent timer") e
  timer_entry (answered r) =
      if not (eqb_ℤ r.exit_code (pos 0))
      then fail (bytes "Agent timer")
          (if is_empty r.output then bytes "unable to inspect timer" else r.output)
      else if not r.truncated && timer_healthy r.output
      then pass (bytes "Agent timer") (bytes "loaded, active, enabled and operational")
      else warn (bytes "Agent timer") (replace ((10 ∷ [], bytes "; ") ∷ []) r.output)

  -- The last run; an interval that is not parsed counts as 0.
  unfoldable pub state_entry : Option ℤ → Outcome State → DoctorEntry
  state_entry interval (failed e) = fail (bytes "Runtime state") (w.file_text e)
  state_entry interval (done current) =
      let name = bytes "Last completed run" in
      let age = sub_time w.since current.last_run in
      let limit : ℤ = elim interval [ none ↦ pos 0 | some d ↦ scale64 d 3 ] in
      let detail = w.age_text age ++ bytes " ago" in
      if is_zero current.last_run
      then warn name (bytes "no completed run is recorded")
      else if ltb_ℤ limit age
      then warn name detail
      else pass name detail

  unfoldable pub queue_entry : Outcome Queue → DoctorEntry
  queue_entry (failed e) = fail (bytes "Notification queue") (w.file_text e)
  queue_entry (done pending) =
      let name = bytes "Notification queue" in
      let waiting = decimal (pos (length pending.events)) ++ bytes " events waiting" in
      if ltb 0 (length pending.events)
      then warn name (
          if ltb_ℤ (pos 0) pending.attempts
          then waiting
            ++ bytes "; retry "
            ++ decimal (inc pending.attempts)
            ++ bytes " scheduled for "
            ++ w.rfc3339 pending.next_attempt_at
          else waiting)
      else pass name (bytes "empty")

  unfoldable pub health_entry : NewClient → DoctorEntry
  health_entry (no_client e) = fail (bytes "Gotify URL") (w.client_text e)
  health_entry (client c) = elim (health w.exchange w.acknowledgement c) [
    | some e ↦ fail (bytes "Gotify health") (w.send_text e)
    | none ↦ pass (bytes "Gotify health") (bytes "server is reachable; no message was sent")
  ]

  -- The health of the server, which is asked only if the token and the timeout are there.
  unfoldable pub server_entries : Config F → TokenResult → Option ℤ → List DoctorEntry
  server_entries cfg (token_error e) timeout = []
  server_entries cfg (token_value value) none = []
  server_entries cfg (token_value value) (some timeout) =
      health_entry (client_for w cfg value timeout) ∷ []

  abbrev pub token_entry : TokenResult → DoctorEntry
  token_entry (token_error e) = fail (bytes "Application token") (w.token_text e)
  token_entry (token_value value) =
      pass (bytes "Application token") (bytes "present and not displayed")

  abbrev proxy_entry : Text → DoctorEntry
  proxy_entry url =
      if is_empty url
      then pass (bytes "SOCKS5 proxy") (bytes "disabled")
      else pass (bytes "SOCKS5 proxy") url

  unfoldable pub system_entries : List DoctorEntry
  unfolding debian
  system_entries =
      (if debian w
        then pass (bytes "Operating system") (bytes "Debian 13")
        else fail (bytes "Operating system") w.release_text)
      ∷ (if w.root
          then pass (bytes "Privileges") (bytes "running as root")
          else fail (bytes "Privileges") (bytes "doctor must run as root"))
      ∷ []

  -- The files with a fixed place and mode.
  unfoldable pub installed_entries : Text → Config F → List DoctorEntry
  installed_entries path cfg =
      check_file (bytes "/usr/local/bin/gotify-vps-agent") 0o755
      ∷ check_file (bytes "/usr/local/lib/gotify-vps-agent/uninstall.sh") 0o750
      ∷ check_file (bytes "/etc/systemd/system/gotify-vps-agent.service") 0o644
      ∷ check_file (bytes "/etc/systemd/system/gotify-vps-agent.timer") 0o644
      ∷ check_file path 0o644
      ∷ check_file cfg.gotify.token_file 0o600
      ∷ []

  abbrev pub commands : List Text
  commands =
      bytes "/usr/bin/systemctl"
      ∷ bytes "/usr/bin/journalctl"
      ∷ bytes "/usr/bin/apt-get"
      ∷ bytes "/usr/bin/dpkg"
      ∷ bytes "/usr/bin/dpkg-query"
      ∷ bytes "/usr/bin/timedatectl"
      ∷ []

  abbrev show_arguments : List Text
  show_arguments =
      bytes "show"
      ∷ bytes "gotify-vps-agent.timer"
      ∷ bytes
          "--property=LoadState,ActiveState,SubState,UnitFileState,NextElapseUSecRealtime,NextElapseUSecMonotonic"
      ∷ []

  -- What the agent has stored, and the server.
  unfoldable pub stored_entries : Config F → List DoctorEntry
  stored_entries cfg =
      state_entry (w.go.parse_duration cfg.agent.interval)
        (State.load w.decode_state (w.state_file (state_path cfg)))
      ∷ queue_entry (Queue.load w.decode_queue (w.queue_file (queue_path cfg)))
      ∷ server_entries cfg (read_token w cfg) (w.go.parse_duration cfg.gotify.timeout)

  -- From the commands on.
  unfoldable pub machine_entries : Config F → List DoctorEntry
  machine_entries cfg =
      needrestart_entry (w.stat (bytes "/usr/sbin/needrestart"))
      ∷ cursor_entry (journal_cursor_path cfg) (w.stat (journal_cursor_path cfg))
      ∷ timer_entry (w.run (bytes "/usr/bin/systemctl") show_arguments)
      ∷ stored_entries cfg

  -- The files that may be missing.
  abbrev pub runtime_paths : Config F → List Text
  runtime_paths cfg =
      state_path cfg ∷ queue_path cfg ∷ (cfg.agent.state_dir ++ bytes "/install-manifest") ∷ []

  -- From the token on.
  unfoldable pub token_entries : Config F → List DoctorEntry
  token_entries cfg =
      token_entry (read_token w cfg)
      ∷ directory_entry cfg.agent.state_dir (w.lstat cfg.agent.state_dir)
      ∷ (runtime_entries (runtime_paths cfg) ++ (command_entries commands ++ machine_entries cfg))

  -- The entries that follow the settings.
  unfoldable pub loaded_entries : Text → Config F → List DoctorEntry
  loaded_entries path cfg =
      pass (bytes "Configuration") path
        ∷ proxy_entry cfg.gotify.proxy_url
        ∷ installed_entries path cfg
      ++ token_entries cfg

  abbrev pub refused_config : Loaded F → Report → Report
  refused_config result r = record {
    entries = (add r (fail (bytes "Configuration") (w.config_text result))).entries;
    failed = true;
  }

  unfoldable pub doctor_loaded : Text → Loaded F → Report → Report
  doctor_loaded path (loaded cfg) r = add_all r (loaded_entries path cfg)
  doctor_loaded path unavailable r = refused_config unavailable r
  doctor_loaded path too_big r = refused_config too_big r
  doctor_loaded path (unparsed e) r = refused_config (unparsed e) r
  doctor_loaded path (invalid e) r = refused_config (invalid e) r

  -- `Doctor`
  unfoldable pub doctor : Text → Report
  doctor path =
      doctor_loaded path (load_config w path)
        (add_all (record { entries = []; failed = false }) system_entries)
