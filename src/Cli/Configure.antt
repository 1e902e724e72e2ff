-- ===== src/Cli/Configure.antt =====
-- internal/cli/cli.go, configure: the questions, and then the test, the files and the timer.
use gotify_vps_agent.Prelude.{
  Bool, true, false, not, List, [], ◌∷◌, Option, none, some, if◌then◌else◌,
}
use gotify_vps_agent.Prelude.Text.{Text, bytes, is_empty}
use gotify_vps_agent.Prelude.Dict.{Dict, insert}
use gotify_vps_agent.File.{ReadOutcome, missing, unopened, unread, contents}
use gotify_vps_agent.Config.{Config, TokenResult, token_value, token_error, default}
use gotify_vps_agent.Config.Validity.{ConfigError, validate}
use gotify_vps_agent.Config.Reader.{Loaded, loaded, unavailable, too_big, unparsed, invalid}
use gotify_vps_agent.Services.{Detection, detect}
use gotify_vps_agent.Systemd.{TimerError, write_timer_override, enable_timer}
use gotify_vps_agent.Run.{CheckOptions}
use gotify_vps_agent.App.{go_of, load_config, read_token, debian, token_bytes}
use gotify_vps_agent.Cli.Flags.{bool_flag, Flags, flags, bad_flags, parse_flags, is_set}
use gotify_vps_agent.Cli.Prompts.{prompt_string, prompt_float, prompt_yes_no}
use gotify_vps_agent.Cli.{
  when◌then◌otherwise◌, Act, directory_made, mode_set, timer_enabled, timer_disabled, token_written,
  override_written, Done, Shell, finish, fail, step, run_agent, save_config, bad_arguments,
  unexpected_arguments, wrong_platform, not_root, not_loaded, unreadable_password, token_required,
  cancelled, directory_not_made, mode_not_set, token_unsaved, invalid_config, timer_failed,
}
use gotify_vps_agent.Cli.Proxy.{offered_proxy, test_then}

-- The answers about the server and the proxy, and the input that is left.
unfoldable pub ask_server : {F : Type 0} → Bool → Config F → List Text → Config F × List Text
ask_server allow_http cfg input =
    let (url, after_url) = prompt_string cfg.gotify.url input in
    let (use_proxy, after_use) = prompt_yes_no (not (is_empty cfg.gotify.proxy_url)) after_url in
    let (address, after_address) = prompt_string (offered_proxy cfg.gotify.proxy_url) after_use in
    let gotify = record (cfg.gotify) {
      url = url;
      allow_insecure_http = if allow_http then true else cfg.gotify.allow_insecure_http;
      proxy_url = if use_proxy then address else [];
    } in
    (record cfg { gotify = gotify }, if use_proxy then after_address else after_use)

-- The answers about the host and the disk.
unfoldable pub ask_agent :
    {F : Type 0} → (Text → Option F) → Config F → List Text → Config F × List Text
ask_agent parse_float cfg input =
    let (hostname, after_host) = prompt_string cfg.agent.hostname input in
    let (interval, after_interval) = prompt_string cfg.agent.interval after_host in
    let (warning, after_warning) =
      prompt_float parse_float cfg.thresholds.disk_warning after_interval in
    let (critical, rest) = prompt_float parse_float cfg.thresholds.disk_critical after_warning in
    let agent = record (cfg.agent) { hostname = hostname; interval = interval } in
    let thresholds = record (cfg.thresholds) { disk_warning = warning; disk_critical = critical } in
    (record cfg { agent = agent; thresholds = thresholds }, rest)

-- Every detected service, for the answer yes.
unfoldable pub select_all : List Detection → Dict Text → Dict Text
select_all [] selected = selected
select_all (d ∷ rest) selected = select_all rest (insert d.profile.id d.unit selected)

-- One question for each detected service.
unfoldable pub select_each : List Detection → Dict Text → List Text → Dict Text × List Text
select_each [] selected input = (selected, input)
select_each (d ∷ rest) selected input =
    let (wanted, left) = prompt_yes_no true input in
    select_each rest (if wanted then insert d.profile.id d.unit selected else selected) left

unfoldable pub select_services : List Detection → List Text → Dict Text × List Text
select_services [] input = ([], input)
select_services (d ∷ rest) input =
    let (all, left) = prompt_yes_no true input in
    if all then (select_all (d ∷ rest) [], left) else select_each (d ∷ rest) [] left

abbrev baseline_run : CheckOptions
baseline_run = record { dry_run = false; baseline_only = true }

-- The token that is used: the one that is typed, or else the one that is stored.
unfoldable pub chosen_token : Text → Text → Text
chosen_token typed existing = if is_empty typed then existing else typed

abbrev pub stored_token : TokenResult → Text
stored_token (token_value value) = value
stored_token (token_error e) = []

module _ {F : Type 0} (sh : Shell F) where
  -- The last two questions.
  unfoldable pub ask_baseline : Text → List Text → List (Act F) → Done F
  ask_baseline path input acts =
      let (wanted, rest) = prompt_yes_no true input in
      if wanted then run_agent sh path baseline_run acts else finish acts

  unfoldable pub after_enable : Option TimerError → (List (Act F) → Done F) → List (Act F) → Done F
  after_enable (some e) next acts = fail (timer_failed e) acts
  after_enable none next acts = next (timer_enabled ∷ acts)

  unfoldable pub ask_timer : Text → List Text → List (Act F) → Done F
  ask_timer path input acts =
      let (wanted, rest) = prompt_yes_no true input in
      let enabled = after_enable (enable_timer sh.world.run) (ask_baseline path rest) acts in
      if wanted then enabled else ask_baseline path rest (timer_disabled ∷ acts)

  -- systemd.WriteTimerOverride: what it writes and its error are given. A write that fails leaves the
  -- override as it was.
  unfoldable pub after_override :
      Option Text × Option TimerError → (List (Act F) → Done F) → List (Act F) → Done F
  after_override (none, none) next acts = next acts
  after_override (none, some e) next acts = fail (timer_failed e) acts
  after_override (some text, none) next acts = next (override_written text ∷ acts)
  after_override (some text, some e) next acts =
      fail (timer_failed e) (override_written text ∷ acts)

  unfoldable pub override_then : Text → (List (Act F) → Done F) → List (Act F) → Done F
  override_then interval next acts =
      after_override
        (write_timer_override sh.world.run sh.world.go.parse_duration sh.override_saved interval)
        next acts

  -- What follows a connection test without an error.
  unfoldable pub install_files : Text → Config F → Text → List Text → List (Act F) → Done F
  install_files path cfg value input =
      let text = token_bytes sh.world value in
      let token_file = cfg.gotify.token_file in
      step sh.made_directory directory_made directory_not_made (
        step sh.set_mode mode_set mode_not_set (
          step (sh.world.file_written token_file text) (token_written token_file text) token_unsaved
            (save_config sh path cfg (override_then cfg.agent.interval (ask_timer path input)))))

  -- From the connection test on.
  unfoldable pub install : Text → Config F → Text → List Text → Done F
  install path cfg value input = test_then sh cfg value (install_files path cfg value input) []

  -- What `Validate` answers is given.
  unfoldable pub confirm_install : Text → Config F → Text → List Text → Option ConfigError → Done F
  confirm_install path cfg value input (some e) = fail (invalid_config e) []
  confirm_install path cfg value input none =
      let (wanted, rest) = prompt_yes_no true input in
      if wanted then install path cfg value rest else fail cancelled []

  -- From the token on: what is typed is given.
  unfoldable pub ask_rest : Text → Text → Config F → List Text → Option Text → Done F
  ask_rest path existing cfg input none = fail unreadable_password []
  ask_rest path existing cfg input (some typed) =
      let value = chosen_token typed existing in
      let (named, after_agent) = ask_agent sh.world.go.parse_float cfg input in
      let (selected, rest) = select_services (detect sh.probe) after_agent in
      let complete = record named { services = selected } in
      when is_empty value
      then fail token_required []
      otherwise confirm_install path complete value rest (validate (go_of sh.world) complete)

  unfoldable pub ask_all : Text → Bool → Text → Config F → Done F
  ask_all path allow_http existing cfg =
      let (served, rest) = ask_server allow_http cfg sh.input in
      ask_rest path existing served rest sh.password

  abbrev is_missing : ReadOutcome → Bool
  is_missing missing = true
  is_missing unopened = false
  is_missing unread = false
  is_missing (contents text) = false

  unfoldable pub start_from : Text → Bool → Bool → Loaded F → Done F
  start_from path allow_http absent (loaded cfg) =
      ask_all path allow_http (stored_token (read_token sh.world cfg)) cfg
  start_from path allow_http true unavailable =
      ask_all path allow_http [] (default (go_of sh.world) sh.world.hostname)
  start_from path allow_http false unavailable = fail not_loaded []
  start_from path allow_http absent too_big = fail not_loaded []
  start_from path allow_http absent (unparsed e) = fail not_loaded []
  start_from path allow_http absent (invalid e) = fail not_loaded []

  unfoldable pub configure_parsed : Text → Flags → Done F
  configure_parsed path bad_flags = fail bad_arguments []
  configure_parsed path (flags values (arg ∷ rest)) = fail unexpected_arguments []
  configure_parsed path (flags values []) =
      when not (debian sh.world)
      then fail wrong_platform []
      otherwise when not sh.world.root
      then fail not_root []
      otherwise start_from path (is_set (bytes "allow-insecure-http") values)
          (is_missing (sh.world.config_file path)) (load_config sh.world path)

  -- `configure`
  unfoldable pub configure_command : Text → List Text → Done F
  configure_command path args =
      configure_parsed path (parse_flags ((bytes "allow-insecure-http", bool_flag) ∷ []) args)
