-- ===== src/Cli/Tested.antt =====
-- internal/cli: `configure` and `proxy` test the settings before they write anything.
use gotify_vps_agent.Prelude.{
  ◌≡◌, refl, Bool, true, false, List, [], ◌∷◌, Option, none, some, inl, inr, ◌⊎◌, Bool-cases,
  Option-cases,
}
use gotify_vps_agent.Prelude.Text.{Text}
use gotify_vps_agent.Config.{Config, TokenResult, token_value, token_error}
use gotify_vps_agent.Config.Validity.{ConfigError}
use gotify_vps_agent.Config.Reader.{Loaded, loaded, unavailable, too_big, unparsed, invalid}
use gotify_vps_agent.App.{load_config, send_test_with_values}
use gotify_vps_agent.Cli.Flags.{Flags, flags, bad_flags}
use gotify_vps_agent.Cli.Prompts.{prompt_yes_no}
use gotify_vps_agent.Cli.{
  when◌then◌otherwise◌, Act, test_passed, directory_made, mode_set, timer_enabled, timer_disabled,
  token_written, config_written, override_written, files_removed, ran, Done, ended, done_acts,
  Shell, finish, CliError, save_config,
}
use gotify_vps_agent.Cli.Proxy.{
  test_then, after_test, test_and_save, status_loaded, proxy_loaded, proxy_parsed, proxy_status,
  proxy_command,
}
use gotify_vps_agent.Cli.Configure.{
  install, install_files, confirm_install, ask_rest, ask_all, start_from, configure_parsed,
  configure_command,
}
use gotify_vps_agent.Cli.Keeps.{Keeps, save_config-Keeps, install_files-Keeps}

module _ {F : Type 0} where
  -- One of the acts is a passed test of the settings.
  abbrev pub HasTest : Config F → List (Act F) → Type 0
  HasTest cfg [] = ⊥
  HasTest cfg (act ∷ earlier) =
      ((value : Text) × (act ≡ test_passed cfg value)) ⊎ HasTest cfg earlier

  -- Something was tested.
  abbrev pub HasAnyTest : List (Act F) → Type 0
  HasAnyTest acts = (cfg : Config F) × HasTest cfg acts

  -- Behind every act that changes the machine lies a passed test: of the same settings where it
  -- writes settings, of some settings otherwise.
  abbrev pub IsTested : List (Act F) → Type 0
  IsTested [] = Unit
  IsTested (config_written path cfg text ∷ earlier) = HasTest cfg earlier × IsTested earlier
  IsTested (test_passed cfg value ∷ earlier) = IsTested earlier
  IsTested (directory_made ∷ earlier) = HasAnyTest earlier × IsTested earlier
  IsTested (mode_set ∷ earlier) = HasAnyTest earlier × IsTested earlier
  IsTested (timer_enabled ∷ earlier) = HasAnyTest earlier × IsTested earlier
  IsTested (timer_disabled ∷ earlier) = HasAnyTest earlier × IsTested earlier
  IsTested (token_written path text ∷ earlier) = HasAnyTest earlier × IsTested earlier
  IsTested (override_written text ∷ earlier) = HasAnyTest earlier × IsTested earlier
  IsTested (files_removed paths ∷ earlier) = HasAnyTest earlier × IsTested earlier
  IsTested (ran options r ∷ earlier) = HasAnyTest earlier × IsTested earlier

  -- What holds from the test of the settings on.
  abbrev After : Config F → List (Act F) → Type 0
  After cfg acts = HasTest cfg acts × IsTested acts

module _ {F : Type 0} (sh : Shell F) where
  pub record TestedDone (d : Done F) : Type 0 where
    pub tested : IsTested (done_acts d)

  nothing : (e : Option CliError) → TestedDone (ended [] e)
  nothing e = record { tested = tt }

  when-TestedDone :
      (b : Bool) (this that : Done F)
      → TestedDone this
      → TestedDone that
      → TestedDone (when b then this otherwise that)
  unfolding when◌then◌otherwise◌
  when-TestedDone true this that h k = h
  when-TestedDone false this that h k = k

  finish-After : (cfg : Config F) → Keeps (After cfg) finish
  finish-After cfg acts i = i

  install_files-After :
      (path : Text) (cfg : Config F) (value : Text) (input : List Text)
      → Keeps (After cfg) (install_files sh path cfg value input)
  install_files-After path cfg value input =
      install_files-Keeps (After cfg) sh (λ acts i. (inr i.0, ((cfg, i.0), i.1)))
        (λ acts i. (inr i.0, ((cfg, i.0), i.1)))
        (λ options r e acts i. (inr i.0, ((cfg, i.0), i.1))) path cfg value input
        (λ acts i. (inr i.0, ((cfg, i.0), i.1))) (λ acts i. (inr i.0, ((cfg, i.0), i.1)))
        (λ text acts i. (inr i.0, ((cfg, i.0), i.1))) (λ text v e acts i. (inr i.0, i))
        (λ text acts i. (inr i.0, ((cfg, i.0), i.1)))

  test_then-TestedDone :
      (cfg : Config F) (value : Text) (next : List (Act F) → Done F)
      → Keeps (After cfg) next
      → TestedDone (test_then sh cfg value next [])
  unfolding test_then after_test
  test_then-TestedDone cfg value next keeps =
      elim (Option-cases (send_test_with_values sh.world cfg value)) [
        | inl e ↦
            rw (e)
              (record { tested = (keeps (test_passed cfg value ∷ []) (inl (value, refl), tt)).1 })
        | inr (why, e) ↦ rw (e) (nothing _)
      ]

  save-After : (path : Text) (cfg : Config F) → Keeps (After cfg) (save_config sh path cfg finish)
  save-After path cfg =
      save_config-Keeps (After cfg) sh path cfg finish (λ text v e acts i. (inr i.0, i))
        (finish-After cfg)

  confirm_install-TestedDone :
      (path : Text) (cfg : Config F) (value : Text) (input : List Text) (e : Option ConfigError)
      → TestedDone (confirm_install sh path cfg value input e)
  unfolding confirm_install install
  confirm_install-TestedDone path cfg value input (some e) = nothing _
  confirm_install-TestedDone path cfg value input none =
      elim (Bool-cases (prompt_yes_no true input).0) [
        | inl e ↦ rw (e) (test_then-TestedDone cfg value _ (install_files-After path cfg value _))
        | inr e ↦ rw (e) (nothing _)
      ]

  ask_rest-TestedDone :
      (path existing : Text) (cfg : Config F) (input : List Text) (password : Option Text)
      → TestedDone (ask_rest sh path existing cfg input password)
  unfolding ask_rest
  ask_rest-TestedDone path existing cfg input none = nothing _
  ask_rest-TestedDone path existing cfg input (some typed) =
      when-TestedDone _ _ _ (nothing _) (confirm_install-TestedDone path _ _ _ _)

  start_from-TestedDone :
      (path : Text) (allow absent : Bool) (l : Loaded F)
      → TestedDone (start_from sh path allow absent l)
  unfolding start_from ask_all
  start_from-TestedDone path allow absent (loaded cfg) = ask_rest-TestedDone path _ _ _ _
  start_from-TestedDone path allow true unavailable = ask_rest-TestedDone path _ _ _ _
  start_from-TestedDone path allow false unavailable = nothing _
  start_from-TestedDone path allow absent too_big = nothing _
  start_from-TestedDone path allow absent (unparsed e) = nothing _
  start_from-TestedDone path allow absent (invalid e) = nothing _

  configure_parsed-TestedDone : (path : Text) (f : Flags) → TestedDone (configure_parsed sh path f)
  unfolding configure_parsed
  configure_parsed-TestedDone path bad_flags = nothing _
  configure_parsed-TestedDone path (flags values (arg ∷ rest)) = nothing _
  configure_parsed-TestedDone path (flags values []) =
      when-TestedDone _ _ _ (nothing _)
        (when-TestedDone _ _ _ (nothing _) (start_from-TestedDone path _ _ _))

  test_and_save-TestedDone :
      (path : Text) (cfg : Config F) (e : Option ConfigError) (t : TokenResult)
      → TestedDone (test_and_save sh path cfg e t)
  unfolding test_and_save
  test_and_save-TestedDone path cfg (some e) t = nothing _
  test_and_save-TestedDone path cfg none (token_error e) = nothing _
  test_and_save-TestedDone path cfg none (token_value value) =
      test_then-TestedDone cfg value _ (save-After path cfg)

  proxy_loaded-TestedDone :
      (path : Text) (enable : Bool) (server given : Text) (l : Loaded F)
      → TestedDone (proxy_loaded sh path enable server given l)
  unfolding proxy_loaded
  proxy_loaded-TestedDone path enable server given (loaded cfg) =
      test_and_save-TestedDone path _ _ _
  proxy_loaded-TestedDone path enable server given unavailable = nothing _
  proxy_loaded-TestedDone path enable server given too_big = nothing _
  proxy_loaded-TestedDone path enable server given (unparsed e) = nothing _
  proxy_loaded-TestedDone path enable server given (invalid e) = nothing _

  proxy_parsed-TestedDone :
      (path : Text) (enable : Bool) (f : Flags) → TestedDone (proxy_parsed sh path enable f)
  unfolding proxy_parsed
  proxy_parsed-TestedDone path enable bad_flags = nothing _
  proxy_parsed-TestedDone path enable (flags values (arg ∷ rest)) = nothing _
  proxy_parsed-TestedDone path enable (flags values []) =
      when-TestedDone _ _ _ (nothing _) (proxy_loaded-TestedDone path enable _ _ _)

  proxy_status-TestedDone :
      (path : Text) (args : List Text) → TestedDone (proxy_status sh path args)
  unfolding proxy_status
  proxy_status-TestedDone path (arg ∷ rest) = nothing _
  proxy_status-TestedDone path [] = each (load_config sh.world path)
    where
      each : (l : Loaded F) → TestedDone (status_loaded sh l)
      each (loaded cfg) = nothing _
      each unavailable = nothing _
      each too_big = nothing _
      each (unparsed e) = nothing _
      each (invalid e) = nothing _

  proxy_command-TestedDone :
      (path : Text) (args : List Text) → TestedDone (proxy_command sh path args)
  unfolding proxy_command
  proxy_command-TestedDone path [] = nothing _
  proxy_command-TestedDone path (word ∷ rest) =
      when-TestedDone _ _ _ (proxy_status-TestedDone path rest) (
        when-TestedDone _ _ _ (nothing _) (
          when-TestedDone _ _ _ (nothing _)
            (when-TestedDone _ _ _ (nothing _) (proxy_parsed-TestedDone path _ _))))

  -- `configure` and `proxy` change nothing on the machine before a connection test has passed, and
  -- the settings that they write are settings that passed the test.
  pub settings-IsTested :
      (path : Text) (args : List Text)
      → IsTested (done_acts (configure_command sh path args))
        × IsTested (done_acts (proxy_command sh path args))
  unfolding configure_command
  settings-IsTested path args =
      ((configure_parsed-TestedDone path _).tested, (proxy_command-TestedDone path args).tested)
