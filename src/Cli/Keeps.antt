-- ===== src/Cli/Keeps.antt =====
-- internal/cli: how what holds of the acts so far is kept by each part of a command.
use gotify_vps_agent.Prelude.{
  ◌≡◌, refl, Bool, true, false, ◌&&◌, List, ◌∷◌, Option, none, some, arith, inl, inr, Option-cases,
  Bool-cases,
}
use gotify_vps_agent.Prelude.Text.{Text}
use gotify_vps_agent.Config.{Config}
use gotify_vps_agent.Config.Validity.{validate}
use gotify_vps_agent.Config.Writer.{marshal, write}
use gotify_vps_agent.Run.{CheckOptions, Run}
use gotify_vps_agent.Systemd.{TimerError}
use gotify_vps_agent.App.{
  go_of, Saved, saved, save_refused, save_failed, write_config, send_test_with_values,
}
use gotify_vps_agent.Cli.{
  Act, test_passed, directory_made, mode_set, timer_enabled, timer_disabled, token_written,
  config_written, override_written, ran, Done, done_acts, Shell, CliError, step, run_agent,
  after_save, save_config,
}
use gotify_vps_agent.Cli.Prompts.{prompt_yes_no}
use gotify_vps_agent.Cli.Proxy.{after_test, test_then}
use gotify_vps_agent.Cli.Configure.{
  ask_baseline, after_enable, ask_timer, after_override, override_then, install_files,
}

module _ {F : Type 0} (I : List (Act F) → Type 0) where
  -- The continuation keeps what holds of the acts.
  abbrev pub Keeps : (List (Act F) → Done F) → Type 0
  Keeps next = (acts : List (Act F)) → I acts → I (done_acts (next acts))

  abbrev pub Allows : Act F → Type 0
  Allows act = (acts : List (Act F)) → I acts → I (act ∷ acts)

  pub step-Keeps :
      (b : Bool) (act : Act F) (e : CliError) (next : List (Act F) → Done F)
      → Allows act
      → Keeps next
      → Keeps (step b act e next)
  unfolding step
  step-Keeps true act e next allows keeps acts i = keeps (act ∷ acts) (allows acts i)
  step-Keeps false act e next allows keeps acts i = i

  module _ (sh : Shell F) where
    pub test_then-Keeps :
        (cfg : Config F) (value : Text) (next : List (Act F) → Done F)
        → (send_test_with_values sh.world cfg value ≡ none → Allows (test_passed cfg value))
        → Keeps next
        → Keeps (test_then sh cfg value next)
    unfolding test_then after_test
    test_then-Keeps cfg value next allows keeps acts i =
        elim (Option-cases (send_test_with_values sh.world cfg value)) [
          | inl e ↦ rw (e) (keeps (test_passed cfg value ∷ acts) (allows e acts i))
          | inr (why, e) ↦ rw (e) i
        ]

    write_config-saved :
        (path : Text) (cfg : Config F) (text : Text)
        → write_config sh.world path cfg ≡ saved text
        → (validate (go_of sh.world) cfg ≡ none) × (text ≡ write (go_of sh.world) cfg)
    unfolding write_config marshal
    write_config-saved path cfg text h = (ground (arith, h), ground (arith, h))

    after_save-Keeps :
        (path : Text) (cfg : Config F) (s : Saved) (next : List (Act F) → Done F)
        → ((text : Text) → s ≡ saved text → Allows (config_written path cfg text))
        → Keeps next
        → Keeps (after_save sh path cfg s next)
    unfolding after_save
    after_save-Keeps path cfg (saved text) next allows keeps acts i =
        keeps (config_written path cfg text ∷ acts) (allows text refl acts i)
    after_save-Keeps path cfg (save_refused e) next allows keeps acts i = i
    after_save-Keeps path cfg save_failed next allows keeps acts i = i

    pub save_config-Keeps :
        (path : Text) (cfg : Config F) (next : List (Act F) → Done F)
        → ((text : Text)
            → validate (go_of sh.world) cfg ≡ none
            → text ≡ write (go_of sh.world) cfg
            → Allows (config_written path cfg text))
        → Keeps next
        → Keeps (save_config sh path cfg next)
    unfolding save_config
    save_config-Keeps path cfg next allows keeps =
        after_save-Keeps path cfg (write_config sh.world path cfg) next
          (λ text h.
            let (valid, same) = write_config-saved path cfg text h in allows text valid same)
          keeps

    pub run_agent-Keeps :
        (path : Text) (options : CheckOptions)
        → ((r : Run) → Allows (ran options r))
        → Keeps (run_agent sh path options)
    unfolding run_agent
    run_agent-Keeps path options allows acts i = allows _ acts i

    after_override-Keeps :
        (o : Option Text × Option TimerError) (next : List (Act F) → Done F)
        → ((text : Text) → Allows (override_written text))
        → Keeps next
        → Keeps (after_override sh o next)
    unfolding after_override
    after_override-Keeps (none, none) next allows keeps acts i = keeps acts i
    after_override-Keeps (none, some e) next allows keeps acts i = i
    after_override-Keeps (some text, none) next allows keeps acts i =
        keeps (override_written text ∷ acts) (allows text acts i)
    after_override-Keeps (some text, some e) next allows keeps acts i = allows text acts i

    pub override_then-Keeps :
        (interval : Text) (next : List (Act F) → Done F)
        → ((text : Text) → Allows (override_written text))
        → Keeps next
        → Keeps (override_then sh interval next)
    unfolding override_then
    override_then-Keeps interval next allows keeps = after_override-Keeps _ next allows keeps

    module _ (enables : Allows timer_enabled) (disables : Allows timer_disabled)
        (runs : (options : CheckOptions) (r : Run)
          → (options.dry_run && options.baseline_only) ≡ false
          → Allows (ran options r)) where
      ask_baseline-Keeps : (path : Text) (input : List Text) → Keeps (ask_baseline sh path input)
      unfolding ask_baseline
      ask_baseline-Keeps path input acts i = elim (Bool-cases (prompt_yes_no true input).0) [
        | inl e ↦ rw (e) (run_agent-Keeps path _ (λ r. runs _ r refl) acts i)
        | inr e ↦ rw (e) i
      ]

      after_enable-Keeps :
          (o : Option TimerError) (next : List (Act F) → Done F)
          → Keeps next
          → Keeps (after_enable sh o next)
      unfolding after_enable
      after_enable-Keeps (some e) next keeps acts i = i
      after_enable-Keeps none next keeps acts i = keeps (timer_enabled ∷ acts) (enables acts i)

      ask_timer-Keeps : (path : Text) (input : List Text) → Keeps (ask_timer sh path input)
      unfolding ask_timer
      ask_timer-Keeps path input acts i = elim (Bool-cases (prompt_yes_no true input).0) [
        | inl e ↦ rw (e) (after_enable-Keeps _ _ (ask_baseline-Keeps path _) acts i)
        | inr e ↦ rw (e) (ask_baseline-Keeps path _ (timer_disabled ∷ acts) (disables acts i))
      ]

      pub install_files-Keeps :
          (path : Text) (cfg : Config F) (value : Text) (input : List Text)
          → Allows directory_made
          → Allows mode_set
          → ((text : Text) → Allows (token_written cfg.gotify.token_file text))
          → ((text : Text)
              → validate (go_of sh.world) cfg ≡ none
              → text ≡ write (go_of sh.world) cfg
              → Allows (config_written path cfg text))
          → ((text : Text) → Allows (override_written text))
          → Keeps (install_files sh path cfg value input)
      unfolding install_files
      install_files-Keeps path cfg value input makes sets tokens writes overrides =
          step-Keeps _ directory_made _ _ makes (
            step-Keeps _ mode_set _ _ sets (
              step-Keeps _ (token_written _ _) _ _ (tokens _) (
                save_config-Keeps path cfg _ writes (
                  override_then-Keeps cfg.agent.interval _ overrides
                    (ask_timer-Keeps path input)))))
