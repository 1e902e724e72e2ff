-- ===== src/Tests/App.antt =====
-- A machine on which the agent is installed, its server on the loopback address, and command lines
-- on it.
use gotify_vps_agent.Prelude.{
  ℕ, ◌≡◌, refl, Bool, true, false, List, [], ◌∷◌, ◌++◌, Option, none, some, All, any, if◌then◌else◌,
}
use gotify_vps_agent.Prelude.Int.{pos}
use gotify_vps_agent.Prelude.Text.{Text, bytes, text_eq}
use gotify_vps_agent.Strings.Search.{has_prefix}
use gotify_vps_agent.File.{missing, contents, malformed, whole}
use gotify_vps_agent.Config.Reader.{loaded}
use gotify_vps_agent.Engine.Refinement.{Distinct}
use gotify_vps_agent.Runner.{answered}
use gotify_vps_agent.Storage.Writes.{no_space}
use gotify_vps_agent.Gotify.{response}
use gotify_vps_agent.Run.{all_results}
use gotify_vps_agent.App.{load_config, World, FileInfo, no_info, info, removed}
use gotify_vps_agent.App.Doctor.{doctor}
use gotify_vps_agent.App.Doctor.Ready.{IsReady, doctor-IsReady}
use gotify_vps_agent.App.Agent.{Surroundings, agent_machine}
use gotify_vps_agent.App.Agent.Apart.{all_results-Distinct}
use gotify_vps_agent.Cli.{Shell, done_acts}
use gotify_vps_agent.Cli.Proxy.{proxy_command}
use gotify_vps_agent.Cli.Configure.{configure_command}
use gotify_vps_agent.Cli.Commands.{run_line}
use gotify_vps_agent.Cli.Sound.{IsSound}
use gotify_vps_agent.Cli.Sound.Line.{acts_of, run_line-AllSound}
use gotify_vps_agent.Cli.Tested.{IsTested, settings-IsTested}
use gotify_vps_agent.Platform
use gotify_vps_agent.Gotify
use gotify_vps_agent.Proxy
use gotify_vps_agent.Net
use gotify_vps_agent.Strings.Search
use gotify_vps_agent.Strings.Lines
use gotify_vps_agent.Strings
use gotify_vps_agent.Systemd
use gotify_vps_agent.Config
use gotify_vps_agent.State
use gotify_vps_agent.Queue
use gotify_vps_agent.Prelude.Dict
use gotify_vps_agent.Prelude.Text
use gotify_vps_agent.App
use gotify_vps_agent.App.Doctor
use gotify_vps_agent.Gotify.{
  no_client, bad_token, no_token, new_client, new_with, validate_url, judge_base, judge_url,
  is_onion_host, validate_token,
}
use gotify_vps_agent.Proxy.{parse}
use gotify_vps_agent.Net.{is_loopback_host}
use gotify_vps_agent.Strings.{trim_space}
use gotify_vps_agent.Strings.Search.{trim_right_byte, contains, split, has_suffix, replace}
use gotify_vps_agent.Strings.Lines.{to_lower, fold_case}
use gotify_vps_agent.Config.{default}
use gotify_vps_agent.App.{client_for, or_zero}
use gotify_vps_agent.App.Doctor.{fails}
use gotify_vps_agent.App.Faults.{is_server_fault, client_for-fault}
use gotify_vps_agent.Tests.Config.{go, settings_file, settings, reads}
use gotify_vps_agent.Tests.Client.{net}
use gotify_vps_agent.Tests.Machine.{float, silent, no_entry}
use gotify_vps_agent.Tests.Run.{free_lock, machine, encode, error_text, first_run}
use gotify_vps_agent.Tests.Fixtures.{digest, clock_text, waiting}

abbrev mode_of : Text → ℕ
mode_of path =
    if text_eq path (bytes "/usr/local/bin/gotify-vps-agent")
    then 0o755
    else if text_eq path (bytes "/usr/local/lib/gotify-vps-agent/uninstall.sh")
    then 0o750
    else if text_eq path (bytes "/etc/gotify-vps-agent/gotify.token")
    then 0o600
    else 0o644

abbrev installed_file : Text → FileInfo
installed_file path =
    if text_eq path (bytes "/var/lib/gotify-vps-agent")
    then info false true false 0o700 (some (0, 0))
    else info true false false (mode_of path) (some (0, 0))

abbrev found_file : Text → FileInfo
found_file path =
    if has_prefix path (bytes "/usr")
    then info true false false 0o755 (some (0, 0))
    else no_info true (bytes "no such file")

abbrev world : World ℕ
world = record {
  go = go;
  net = net;
  exchange = λ r. response 200 (some (bytes "1"));
  acknowledgement = λ text. whole (pos 1);
  hostname = bytes "vps";
  config_file = λ path. contents settings_file;
  token_file = λ path. some (bytes "t");
  state_file = λ path. missing;
  decode_state = λ text. malformed;
  queue_file = λ path. missing;
  decode_queue = λ text. malformed;
  os_release = some (bytes "ID=debian" ++ 10 ∷ bytes "VERSION_ID=13");
  lstat = installed_file;
  stat = found_file;
  file_written = λ path text. true;
  remove = λ path. removed;
  lock_taken = true;
  root = true;
  run = λ path args. answered (record { output = []; exit_code = pos 0; truncated = false });
  since = 1000;
  rfc3339 = clock_text;
  age_text = λ age. [];
  release_text = [];
  config_text = λ l. [];
  token_text = λ e. [];
  file_text = λ e. [];
  client_text = λ e. [];
  send_text = λ e. [];
}

loads : load_config world (bytes "c") ≡ loaded settings
unfolding load_config
loads = reads

passes : any fails (doctor world (bytes "c")).entries ≡ false
unfolding gotify_vps_agent.App.Doctor.add gotify_vps_agent.App.Doctor.add_all
    gotify_vps_agent.App.Doctor.file_entry gotify_vps_agent.App.Doctor.directory_entry
    gotify_vps_agent.App.Doctor.check_file gotify_vps_agent.App.Doctor.runtime_entries
    gotify_vps_agent.App.Doctor.command_entries gotify_vps_agent.App.Doctor.cursor_entry
    gotify_vps_agent.App.Doctor.timer_entry gotify_vps_agent.App.Doctor.state_entry
    gotify_vps_agent.App.Doctor.queue_entry gotify_vps_agent.App.Doctor.health_entry
    gotify_vps_agent.App.Doctor.server_entries gotify_vps_agent.App.Doctor.system_entries
    gotify_vps_agent.App.Doctor.installed_entries gotify_vps_agent.App.Doctor.stored_entries
    gotify_vps_agent.App.Doctor.machine_entries gotify_vps_agent.App.Doctor.token_entries
    gotify_vps_agent.App.Doctor.loaded_entries gotify_vps_agent.App.Doctor.doctor_loaded
    gotify_vps_agent.App.Doctor.doctor gotify_vps_agent.App.load_config
    gotify_vps_agent.App.read_token gotify_vps_agent.App.client_for
    gotify_vps_agent.Platform.release_line gotify_vps_agent.Platform.release_lines
    gotify_vps_agent.Platform.read_os_release gotify_vps_agent.Platform.require_debian13
    gotify_vps_agent.Gotify.is_onion_host gotify_vps_agent.Gotify.validate_token
    gotify_vps_agent.Gotify.judge_url gotify_vps_agent.Gotify.judge_base
    gotify_vps_agent.Gotify.validate_url gotify_vps_agent.Gotify.new_with
    gotify_vps_agent.Gotify.new_client gotify_vps_agent.Gotify.health gotify_vps_agent.Proxy.parse
    gotify_vps_agent.Net.is_loopback_host gotify_vps_agent.Strings.Search.has_suffix
    gotify_vps_agent.Strings.Search.cut gotify_vps_agent.Strings.Search.split
    gotify_vps_agent.Strings.Search.replace gotify_vps_agent.Strings.Search.trim_byte
    gotify_vps_agent.Strings.Lines.scan gotify_vps_agent.Strings.Lines.to_lower
    gotify_vps_agent.Strings.Lines.fold_case gotify_vps_agent.Strings.trim_space
    gotify_vps_agent.Systemd.properties gotify_vps_agent.Systemd.timer_healthy
    gotify_vps_agent.Systemd.healthy_values gotify_vps_agent.Config.token
    gotify_vps_agent.Config.state_path gotify_vps_agent.Config.queue_path
    gotify_vps_agent.Config.journal_cursor_path gotify_vps_agent.Config.default
    gotify_vps_agent.Config.trim_slashes gotify_vps_agent.State.new gotify_vps_agent.State.load
    gotify_vps_agent.Queue.load gotify_vps_agent.Prelude.Dict.lookup
    gotify_vps_agent.Prelude.Dict.insert gotify_vps_agent.Prelude.Text.text_eq
passes = rw (reads) refl

doctor-IsReady_example : ((doctor world (bytes "c")).failed ≡ false) × IsReady world (bytes "c")
doctor-IsReady_example = doctor-IsReady world (bytes "c") passes

abbrev surroundings : Surroundings ℕ
surroundings = record {
  float = float;
  host = silent;
  hex_digest = digest;
  json_entry = no_entry;
  lock = free_lock;
  disk_error = λ e. no_space;
  cancelled = false;
  directory_error = none;
  mode_error = none;
  now = 1000;
  queue_error = λ q. none;
  state_error = λ s. none;
  cursor_error = λ c. none;
  exchange = λ actions r. response 200 (some (bytes "1"));
  save = λ actions q. true;
  save_error = no_space;
  not_ready_text = [];
}

all_results-Distinct_example :
    let m = agent_machine world surroundings (bytes "c") in
    Distinct (
      all_results digest clock_text encode error_text first_run m settings
        (m.checks_run settings 0).results
        waiting)
all_results-Distinct_example =
    all_results-Distinct world surroundings (bytes "c") settings 0 waiting digest clock_text encode
      error_text first_run loads

abbrev shell : Shell ℕ
shell = record {
  world = world;
  probe = record { run = world.run; glob = λ pattern. []; executable = λ path. false };
  env_config = [];
  input = bytes "u" ∷ [];
  password = some (bytes "t");
  made_directory = true;
  set_mode = true;
  override_saved = λ text. true;
  machine = λ acts path. machine;
  hex_digest = digest;
  marshal_queue = encode;
  disk_text = error_text;
}

abbrev proxy_line : List Text
proxy_line = bytes "proxy" ∷ bytes "disable" ∷ []

run_line-AllSound_example : All (IsSound shell) (acts_of shell (run_line shell proxy_line))
run_line-AllSound_example = run_line-AllSound shell proxy_line

settings-IsTested_example :
    IsTested (done_acts (configure_command shell (bytes "c") (bytes "disable" ∷ [])))
    × IsTested (done_acts (proxy_command shell (bytes "c") (bytes "disable" ∷ [])))
settings-IsTested_example = settings-IsTested shell (bytes "c") (bytes "disable" ∷ [])

has_no_token :
    client_for world settings [] (or_zero (go.parse_duration settings.gotify.timeout))
    ≡ no_client (bad_token no_token)
unfolding client_for new_client new_with validate_url judge_base judge_url is_onion_host
    validate_token parse is_loopback_host trim_space trim_right_byte contains split has_suffix
    to_lower fold_case text_eq default replace
has_no_token = refl

client_for-fault_example : is_server_fault (bad_token no_token) ≡ true
client_for-fault_example =
    client_for-fault world (bytes "c") settings [] (bad_token no_token) loads has_no_token
