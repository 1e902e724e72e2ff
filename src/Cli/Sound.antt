-- ===== src/Cli/Sound.antt =====
-- internal/cli: what every command keeps to, whatever the arguments, the input and the machine.
pub mod Line
use gotify_vps_agent.Prelude.{
  ◌≡◌, refl, Bool, true, false, not, ◌&&◌, ◌||◌, List, [], ◌∷◌, Option, none, some, All, arith, inl,
  inr, Option-cases, Bool-cases, if◌then◌else◌, length, ◌==◌,
}
use gotify_vps_agent.Prelude.Text.{Text, bytes, text_eq}
use gotify_vps_agent.Prelude.Dict.{lookup}
use gotify_vps_agent.Strings.Search.{among}
use gotify_vps_agent.Config.{Config, TokenResult, token_value, token_error}
use gotify_vps_agent.Config.Validity.{ConfigError, validate}
use gotify_vps_agent.Config.Writer.{write}
use gotify_vps_agent.Config.Reader.{Loaded, loaded, unavailable, too_big, unparsed, invalid}
use gotify_vps_agent.Run.{CheckOptions, Run}
use gotify_vps_agent.Services.{Detected, detected, undetected, detect_by_id}
use gotify_vps_agent.App.{go_of, send_test_with_values, debian, load_config, reset_state}
use gotify_vps_agent.Cli.Flags.{Flags, flags, bad_flags, is_set, parse_flags}
use gotify_vps_agent.Cli.{
  when◌then◌otherwise◌, Act, test_passed, directory_made, mode_set, timer_enabled, timer_disabled,
  token_written, config_written, override_written, files_removed, ran, Done, ended, done_acts,
  Shell, finish, fail, save_config, CliError,
}
use gotify_vps_agent.Cli.Prompts.{prompt_yes_no}
use gotify_vps_agent.Cli.Proxy.{
  test_then, test_and_save, status_loaded, proxy_loaded, proxy_parsed, proxy_status, proxy_command,
}
use gotify_vps_agent.Cli.Configure.{
  install, confirm_install, ask_rest, ask_all, start_from, configure_parsed, configure_command,
}
use gotify_vps_agent.Cli.Commands.{
  Outcome, acted, misused, helped, check_parsed, check_command, after_reset, reset_parsed,
  reset_command, with_config, sync_timer, timer_command, enable_detected, disable_found,
  enable_service, disable_service, services_word, services_command, doctor_command, dispatch,
  run_parsed, run_line,
}
use gotify_vps_agent.Cli.Keeps.{
  Keeps, test_then-Keeps, save_config-Keeps, run_agent-Keeps, override_then-Keeps,
  install_files-Keeps,
}

module _ {F : Type 0} (sh : Shell F) where
  -- What is written as settings is the text of valid settings, a test that passed is one that
  -- `SendTestWithValues` gives no error for, and no run is a dry run and a baseline at once.
  abbrev pub IsSound : Act F → Type 0
  IsSound (test_passed cfg value) = send_test_with_values sh.world cfg value ≡ none
  IsSound (config_written path cfg text) =
      (validate (go_of sh.world) cfg ≡ none) × (text ≡ write (go_of sh.world) cfg)
  IsSound (ran options r) = (options.dry_run && options.baseline_only) ≡ false
  IsSound _ = Unit

  abbrev pub AllSound : List (Act F) → Type 0
  AllSound acts = All IsSound acts

  pub record SoundDone (d : Done F) : Type 0 where
    pub sound : AllSound (done_acts d)

  pub nothing : (e : Option CliError) → SoundDone (ended [] e)
  nothing e = record { sound = tt }

  pub save-AllSound :
      (path : Text) (cfg : Config F) (next : List (Act F) → Done F)
      → Keeps AllSound next
      → Keeps AllSound (save_config sh path cfg next)
  save-AllSound path cfg next keeps =
      save_config-Keeps AllSound sh path cfg next (λ text v e acts i. ((v, e), i)) keeps

  install-SoundDone :
      (path : Text) (cfg : Config F) (value : Text) (input : List Text)
      → SoundDone (install sh path cfg value input)
  unfolding install
  install-SoundDone path cfg value input = record {
    sound =
        test_then-Keeps AllSound sh cfg value _ (λ e acts i. (e, i))
          (install_files-Keeps AllSound sh (λ acts i. (tt, i)) (λ acts i. (tt, i))
            (λ options r e acts i. (e, i)) path cfg value input (λ acts i. (tt, i))
            (λ acts i. (tt, i)) (λ text acts i. (tt, i)) (λ text v e acts i. ((v, e), i))
            (λ text acts i. (tt, i)))
          [] tt;
  }

  confirm_install-SoundDone :
      (path : Text) (cfg : Config F) (value : Text) (input : List Text) (e : Option ConfigError)
      → SoundDone (confirm_install sh path cfg value input e)
  unfolding confirm_install
  confirm_install-SoundDone path cfg value input (some e) = nothing _
  confirm_install-SoundDone path cfg value input none =
      elim (Bool-cases (prompt_yes_no true input).0) [
        | inl e ↦ rw (e) (install-SoundDone path cfg value _)
        | inr e ↦ rw (e) (nothing _)
      ]

  test_and_save-AllSound :
      (path : Text) (cfg : Config F) (e : Option ConfigError) (t : TokenResult)
      → SoundDone (test_and_save sh path cfg e t)
  unfolding test_and_save
  test_and_save-AllSound path cfg (some e) t = nothing _
  test_and_save-AllSound path cfg none (token_error e) = nothing _
  test_and_save-AllSound path cfg none (token_value value) = record {
    sound =
        test_then-Keeps AllSound sh cfg value _ (λ e acts i. (e, i))
          (save-AllSound path cfg finish (λ acts i. i)) [] tt;
  }

  -- A test in a command, both of whose branches keep to it.
  pub when-SoundDone :
      (b : Bool) (this that : Done F)
      → SoundDone this
      → SoundDone that
      → SoundDone (when b then this otherwise that)
  unfolding when◌then◌otherwise◌
  when-SoundDone true this that h k = h
  when-SoundDone false this that h k = k

  ask_rest-SoundDone :
      (path existing : Text) (cfg : Config F) (input : List Text) (password : Option Text)
      → SoundDone (ask_rest sh path existing cfg input password)
  unfolding ask_rest
  ask_rest-SoundDone path existing cfg input none = nothing _
  ask_rest-SoundDone path existing cfg input (some typed) =
      when-SoundDone _ _ _ (nothing _) (confirm_install-SoundDone path _ _ _ _)

  start_from-SoundDone :
      (path : Text) (allow absent : Bool) (l : Loaded F)
      → SoundDone (start_from sh path allow absent l)
  unfolding start_from ask_all
  start_from-SoundDone path allow absent (loaded cfg) = ask_rest-SoundDone path _ _ _ _
  start_from-SoundDone path allow true unavailable = ask_rest-SoundDone path _ _ _ _
  start_from-SoundDone path allow false unavailable = nothing _
  start_from-SoundDone path allow absent too_big = nothing _
  start_from-SoundDone path allow absent (unparsed e) = nothing _
  start_from-SoundDone path allow absent (invalid e) = nothing _

  pub configure_parsed-SoundDone :
      (path : Text) (f : Flags) → SoundDone (configure_parsed sh path f)
  unfolding configure_parsed
  configure_parsed-SoundDone path bad_flags = nothing _
  configure_parsed-SoundDone path (flags values (arg ∷ rest)) = nothing _
  configure_parsed-SoundDone path (flags values []) =
      when-SoundDone _ _ _ (nothing _)
        (when-SoundDone _ _ _ (nothing _) (start_from-SoundDone path _ _ _))

  proxy_loaded-SoundDone :
      (path : Text) (enable : Bool) (server given : Text) (l : Loaded F)
      → SoundDone (proxy_loaded sh path enable server given l)
  unfolding proxy_loaded
  proxy_loaded-SoundDone path enable server given (loaded cfg) = test_and_save-AllSound path _ _ _
  proxy_loaded-SoundDone path enable server given unavailable = nothing _
  proxy_loaded-SoundDone path enable server given too_big = nothing _
  proxy_loaded-SoundDone path enable server given (unparsed e) = nothing _
  proxy_loaded-SoundDone path enable server given (invalid e) = nothing _

  proxy_parsed-SoundDone :
      (path : Text) (enable : Bool) (f : Flags) → SoundDone (proxy_parsed sh path enable f)
  unfolding proxy_parsed
  proxy_parsed-SoundDone path enable bad_flags = nothing _
  proxy_parsed-SoundDone path enable (flags values (arg ∷ rest)) = nothing _
  proxy_parsed-SoundDone path enable (flags values []) =
      when-SoundDone _ _ _ (nothing _) (proxy_loaded-SoundDone path enable _ _ _)

  proxy_status-SoundDone : (path : Text) (args : List Text) → SoundDone (proxy_status sh path args)
  unfolding proxy_status
  proxy_status-SoundDone path (arg ∷ rest) = nothing _
  proxy_status-SoundDone path [] = each (load_config sh.world path)
    where
      each : (l : Loaded F) → SoundDone (status_loaded sh l)
      each (loaded cfg) = nothing _
      each unavailable = nothing _
      each too_big = nothing _
      each (unparsed e) = nothing _
      each (invalid e) = nothing _

  pub proxy_command-SoundDone :
      (path : Text) (args : List Text) → SoundDone (proxy_command sh path args)
  unfolding proxy_command
  proxy_command-SoundDone path [] = nothing _
  proxy_command-SoundDone path (word ∷ rest) =
      when-SoundDone _ _ _ (proxy_status-SoundDone path rest) (
        when-SoundDone _ _ _ (nothing _) (
          when-SoundDone _ _ _ (nothing _)
            (when-SoundDone _ _ _ (nothing _) (proxy_parsed-SoundDone path _ _))))
