-- ===== src/Cli/Proxy.antt =====
-- internal/cli/cli.go, proxy: the settings are tested before they are saved.
use gotify_vps_agent.Prelude.{Bool, not, ◌&&◌, List, [], ◌∷◌, Option, none, some, if◌then◌else◌}
use gotify_vps_agent.Prelude.Text.{Text, bytes, text_eq, is_empty}
use gotify_vps_agent.Prelude.Dict.{Dict, lookup}
use gotify_vps_agent.Strings.{trim_space}
use gotify_vps_agent.Config.{Config, TokenResult, token_value, token_error}
use gotify_vps_agent.Config.Validity.{ConfigError, validate}
use gotify_vps_agent.Config.Reader.{Loaded, loaded, unavailable, too_big, unparsed, invalid}
use gotify_vps_agent.Systemd.{or_empty}
use gotify_vps_agent.Proxy.{default_url}
use gotify_vps_agent.App.{go_of, TestError, load_config, read_token, debian, send_test_with_values}
use gotify_vps_agent.Cli.Flags.{FlagKind, string_flag, Flags, flags, bad_flags, parse_flags}
use gotify_vps_agent.Cli.Prompts.{prompt_string}
use gotify_vps_agent.Cli.{
  when◌then◌otherwise◌, Act, test_passed, Done, Shell, finish, fail, save_config, bad_arguments,
  unexpected_arguments, unknown_command, wrong_platform, not_root, not_loaded, proxy_without_enable,
  invalid_config, no_token, test_failed,
}

abbrev proxy_flags : Dict FlagKind
proxy_flags = (bytes "server", string_flag) ∷ (bytes "proxy", string_flag) ∷ []

-- The address that is offered: the current one, or the default.
abbrev pub offered_proxy : Text → Text
offered_proxy current = if is_empty current then default_url else current

module _ {F : Type 0} (sh : Shell F) where
  unfoldable pub after_test :
      Config F → Text → Option TestError → (List (Act F) → Done F) → List (Act F) → Done F
  after_test cfg value (some e) next acts = fail (test_failed e) acts
  after_test cfg value none next acts = next (test_passed cfg value ∷ acts)

  -- app.SendTestWithValues, and what follows it.
  unfoldable pub test_then : Config F → Text → (List (Act F) → Done F) → List (Act F) → Done F
  test_then cfg value next acts =
      after_test cfg value (send_test_with_values sh.world cfg value) next acts

  -- From the settings that result on: what `Validate` and `Token` answer is given.
  unfoldable pub test_and_save : Text → Config F → Option ConfigError → TokenResult → Done F
  test_and_save path cfg (some e) t = fail (invalid_config e) []
  test_and_save path cfg none (token_error e) = fail (no_token e) []
  test_and_save path cfg none (token_value value) =
      test_then cfg value (save_config sh path cfg finish) []

  -- The settings that result; empty values are asked for.
  unfoldable pub proxy_settings : Bool → Text → Text → Config F → Config F
  proxy_settings enable server given cfg =
      let (asked, rest) = prompt_string cfg.gotify.url sh.input in
      let url = if is_empty server then asked else server in
      let left = if is_empty server then rest else sh.input in
      let (address, ignored) = prompt_string (offered_proxy cfg.gotify.proxy_url) left in
      let chosen = if is_empty given then address else given in
      record cfg {
        gotify = record (cfg.gotify) {
          url = trim_space url;
          proxy_url = if enable then trim_space chosen else [];
        };
      }

  unfoldable pub proxy_loaded : Text → Bool → Text → Text → Loaded F → Done F
  proxy_loaded path enable server given unavailable = fail not_loaded []
  proxy_loaded path enable server given too_big = fail not_loaded []
  proxy_loaded path enable server given (unparsed e) = fail not_loaded []
  proxy_loaded path enable server given (invalid e) = fail not_loaded []
  proxy_loaded path enable server given (loaded current) =
      let cfg = proxy_settings enable server given current in
      test_and_save path cfg (validate (go_of sh.world) cfg) (read_token sh.world cfg)

  unfoldable pub proxy_parsed : Text → Bool → Flags → Done F
  proxy_parsed path enable bad_flags = fail bad_arguments []
  proxy_parsed path enable (flags values (arg ∷ rest)) = fail unexpected_arguments []
  proxy_parsed path enable (flags values []) =
      let server = or_empty (lookup (bytes "server") values) in
      let given = or_empty (lookup (bytes "proxy") values) in
      when not enable && not (is_empty given)
      then fail proxy_without_enable []
      otherwise proxy_loaded path enable server given (load_config sh.world path)

  abbrev pub status_loaded : Loaded F → Done F
  status_loaded (loaded cfg) = finish []
  status_loaded unavailable = fail not_loaded []
  status_loaded too_big = fail not_loaded []
  status_loaded (unparsed e) = fail not_loaded []
  status_loaded (invalid e) = fail not_loaded []

  unfoldable pub proxy_status : Text → List Text → Done F
  proxy_status path (arg ∷ rest) = fail bad_arguments []
  proxy_status path [] = status_loaded (load_config sh.world path)

  -- `proxy`
  unfoldable pub proxy_command : Text → List Text → Done F
  proxy_command path [] = fail bad_arguments []
  proxy_command path (command ∷ rest) =
      let enable = text_eq command (bytes "enable") in
      when text_eq command (bytes "status")
      then proxy_status path rest
      otherwise when not enable && not (text_eq command (bytes "disable"))
      then fail unknown_command []
      otherwise when not (debian sh.world)
      then fail wrong_platform []
      otherwise when not sh.world.root
      then fail not_root []
      otherwise proxy_parsed path enable (parse_flags proxy_flags rest)
