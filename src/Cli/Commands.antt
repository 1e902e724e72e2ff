-- ===== src/Cli/Commands.antt =====
-- internal/cli/cli.go: the other commands, and the choice between all of them.
use gotify_vps_agent.Prelude.{
  ℕ, Bool, true, false, not, ◌&&◌, List, [], ◌∷◌, Option, none, some, if◌then◌else◌, length, ◌==◌,
}
use gotify_vps_agent.Prelude.Text.{Text, bytes, text_eq, is_empty}
use gotify_vps_agent.Prelude.Dict.{lookup, insert, restrict}
use gotify_vps_agent.Strings.Search.{among}
use gotify_vps_agent.Config.{Config, default_config_path}
use gotify_vps_agent.Config.Reader.{Loaded, loaded, unavailable, too_big, unparsed, invalid}
use gotify_vps_agent.Services.{Detected, detected, undetected, detect_by_id}
use gotify_vps_agent.Run.{CheckOptions}
use gotify_vps_agent.App.{TestError, load_config, debian, send_test, reset_state}
use gotify_vps_agent.App.Doctor.{doctor}
use gotify_vps_agent.App.Status.{status}
use gotify_vps_agent.Cli.Flags.{
  bool_flag, string_flag, Flags, flags, bad_flags, parse_flags, is_set,
}
use gotify_vps_agent.Cli.Proxy.{proxy_command}
use gotify_vps_agent.Cli.Configure.{configure_command, override_then}
use gotify_vps_agent.Cli.{
  when◌then◌otherwise◌, files_removed, Done, done_error, Shell, finish, fail, run_agent,
  save_config, CliError, bad_arguments, unexpected_arguments, exclusive_options, not_confirmed,
  unknown_command, wrong_platform, not_root, not_loaded, not_enabled, status_failed, doctor_failed,
  reset_failed, test_failed, detect_failed,
}

-- What a command line does: its acts and an error, or a refusal with the exit code 2, or help.
pub data Outcome (F : Type 0) : Type 0 where
  acted : Done F → Outcome F
  misused helped : Outcome F

module _ {F : Type 0} (sh : Shell F) where
  unfoldable pub check_parsed : Text → Flags → Done F
  check_parsed path bad_flags = fail bad_arguments []
  check_parsed path (flags values (arg ∷ rest)) = fail unexpected_arguments []
  check_parsed path (flags values []) =
      let options : CheckOptions = record {
        dry_run = is_set (bytes "dry-run") values;
        baseline_only = is_set (bytes "baseline") values;
      } in
      if options.dry_run && options.baseline_only
      then fail exclusive_options []
      else run_agent sh path options []

  -- `check`
  unfoldable pub check_command : Text → List Text → Done F
  check_command path args =
      check_parsed path
        (parse_flags ((bytes "dry-run", bool_flag) ∷ (bytes "baseline", bool_flag) ∷ []) args)

  unfoldable pub after_reset : List Text × Bool → Done F
  after_reset (paths, true) = fail reset_failed (files_removed paths ∷ [])
  after_reset (paths, false) = finish (files_removed paths ∷ [])

  unfoldable pub reset_parsed : Text → Flags → Done F
  reset_parsed path bad_flags = fail bad_arguments []
  reset_parsed path (flags values (arg ∷ rest)) = fail unexpected_arguments []
  reset_parsed path (flags values []) =
      when not (is_set (bytes "yes") values)
      then fail not_confirmed []
      otherwise when not sh.world.root
      then fail not_root []
      otherwise after_reset (reset_state sh.world path)

  -- `resetState`
  unfoldable pub reset_command : Text → List Text → Done F
  reset_command path args = reset_parsed path (parse_flags ((bytes "yes", bool_flag) ∷ []) args)

  -- The commands that go on from loaded settings; every other answer of Load is an error.
  unfoldable pub with_config : Loaded F → (Config F → Done F) → Done F
  with_config (loaded cfg) next = next cfg
  with_config unavailable next = fail not_loaded []
  with_config too_big next = fail not_loaded []
  with_config (unparsed e) next = fail not_loaded []
  with_config (invalid e) next = fail not_loaded []

  unfoldable pub sync_timer : Text → Done F
  sync_timer path =
      with_config (load_config sh.world path) λ cfg. override_then sh cfg.agent.interval finish []

  -- `timer`
  unfoldable pub timer_command : Text → List Text → Done F
  timer_command path args =
      let sync : Bool = elim args [
        | [] ↦ false
        | word ∷ rest ↦
            text_eq word (bytes "sync") && elim rest [ [] ↦ true | more ∷ others ↦ false ]
      ] in
      when not (debian sh.world)
      then fail wrong_platform []
      otherwise when not sh.world.root
      then fail not_root []
      otherwise when not sync
      then fail bad_arguments []
      otherwise sync_timer path

  unfoldable pub enable_detected : Text → Config F → Detected → Done F
  enable_detected path cfg (undetected e) = fail (detect_failed e) []
  enable_detected path cfg (detected d) =
      save_config sh path (record cfg { services = insert d.profile.id d.unit cfg.services }) finish
        []

  unfoldable pub disable_found : Text → Text → Config F → Option Text → Done F
  disable_found path id cfg none = fail not_enabled []
  disable_found path id cfg (some unit) =
      save_config sh path
        (record cfg { services = restrict (λ k. not (text_eq k id)) cfg.services }) finish []

  unfoldable pub enable_service : Text → List Text → Done F
  enable_service path (id ∷ []) =
      when not sh.world.root
      then fail not_root []
      otherwise with_config (load_config sh.world path)
          λ cfg. enable_detected path cfg (detect_by_id sh.probe id)
  enable_service path [] = fail bad_arguments []
  enable_service path (id ∷ more ∷ rest) = fail bad_arguments []

  unfoldable pub disable_service : Text → List Text → Done F
  disable_service path (id ∷ []) =
      when not sh.world.root
      then fail not_root []
      otherwise with_config (load_config sh.world path)
          λ cfg. disable_found path id cfg (lookup id cfg.services)
  disable_service path [] = fail bad_arguments []
  disable_service path (id ∷ more ∷ rest) = fail bad_arguments []

  -- `services list` and `services detect` only print.
  unfoldable pub services_word : Text → Text → List Text → Done F
  services_word path word rest =
      when text_eq word (bytes "detect")
      then elim rest [ [] ↦ finish [] | more ∷ others ↦ fail bad_arguments [] ]
      otherwise when text_eq word (bytes "list")
      then elim rest [
        | [] ↦ with_config (load_config sh.world path) λ cfg. finish []
        | more ∷ others ↦ fail bad_arguments []
      ]
      otherwise when text_eq word (bytes "enable")
      then enable_service path rest
      otherwise when text_eq word (bytes "disable")
      then disable_service path rest
      otherwise fail unknown_command []

  -- `services`
  unfoldable pub services_command : Text → List Text → Done F
  services_command path args =
      when not (debian sh.world) then fail wrong_platform [] otherwise elim args [
        | [] ↦ services_word path (bytes "list") []
        | word ∷ rest ↦ services_word path word rest
      ]

  abbrev pub done_unless : Bool → CliError → Done F
  done_unless true e = fail e []
  done_unless false e = finish []

  -- `doctor`
  unfoldable pub doctor_command : Text → Done F
  doctor_command path = done_unless (doctor sh.world path).failed doctor_failed

  abbrev pub after_status : Option (List Text) → Done F
  after_status none = fail status_failed []
  after_status (some lines) = finish []

  abbrev pub after_send : Option TestError → Done F
  after_send (some e) = fail (test_failed e) []
  after_send none = finish []

  -- The commands that take no argument.
  unfoldable pub stands_alone : Text → Bool
  stands_alone word = among word (
      bytes "status"
      ∷ bytes "doctor"
      ∷ bytes "test-notification"
      ∷ bytes "version"
      ∷ bytes "help"
      ∷ bytes "-h"
      ∷ bytes "--help"
      ∷ [])

  unfoldable pub dispatch : Text → Text → List Text → Outcome F
  dispatch path word rest =
      when stands_alone word && not (length rest == 0)
      then misused
      otherwise when text_eq word (bytes "configure")
      then acted (configure_command sh path rest)
      otherwise when text_eq word (bytes "check")
      then acted (check_command path rest)
      otherwise when text_eq word (bytes "status")
      then acted (after_status (status sh.world path))
      otherwise when text_eq word (bytes "doctor")
      then acted (doctor_command path)
      otherwise when text_eq word (bytes "test-notification")
      then acted (after_send (send_test sh.world path))
      otherwise when text_eq word (bytes "services")
      then acted (services_command path rest)
      otherwise when text_eq word (bytes "proxy")
      then acted (proxy_command sh path rest)
      otherwise when text_eq word (bytes "timer")
      then acted (timer_command path rest)
      otherwise when text_eq word (bytes "reset-state")
      then acted (reset_command path rest)
      otherwise when text_eq word (bytes "version")
      then acted (finish [])
      otherwise when among word (bytes "help" ∷ bytes "-h" ∷ bytes "--help" ∷ [])
      then helped
      otherwise misused

  unfoldable pub config_path : Text
  config_path = if is_empty sh.env_config then default_config_path else sh.env_config

  unfoldable pub run_parsed : Flags → Outcome F
  run_parsed bad_flags = misused
  run_parsed (flags values []) = misused
  run_parsed (flags values (word ∷ rest)) =
      dispatch (elim (lookup (bytes "config") values) [ none ↦ config_path | some path ↦ path ])
        word rest

  -- `Run`
  unfoldable pub run_line : List Text → Outcome F
  run_line args = run_parsed (parse_flags ((bytes "config", string_flag) ∷ []) args)

-- The exit code of a command line.
unfoldable pub exit_code : {F : Type 0} → Outcome F → ℕ
exit_code misused = 2
exit_code helped = 0
exit_code (acted d) = elim (done_error d) [ none ↦ 0 | some e ↦ 1 ]
