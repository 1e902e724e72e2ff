-- ===== src/Cli/Sound/Line.antt =====
-- internal/cli: whole command lines keep to it.
use gotify_vps_agent.Prelude.{
  Bool, true, false, ◌&&◌, List, [], ◌∷◌, Option, none, some, All, inl, inr, Bool-cases,
  if◌then◌else◌,
}
use gotify_vps_agent.Prelude.Text.{Text, bytes}
use gotify_vps_agent.Config.{Config}
use gotify_vps_agent.Config.Reader.{Loaded, loaded, unavailable, too_big, unparsed, invalid}
use gotify_vps_agent.Services.{Detected, detected, undetected}
use gotify_vps_agent.App.{TestError, reset_state}
use gotify_vps_agent.Cli.Flags.{Flags, flags, bad_flags, is_set, parse_flags, string_flag}
use gotify_vps_agent.Cli.{when◌then◌otherwise◌, Act, Done, done_acts, Shell, finish, CliError}
use gotify_vps_agent.Cli.Configure.{configure_command}
use gotify_vps_agent.Cli.Commands.{
  Outcome, acted, misused, helped, check_parsed, check_command, after_reset, reset_parsed,
  reset_command, with_config, sync_timer, timer_command, enable_detected, disable_found,
  enable_service, disable_service, services_word, services_command, doctor_command, after_status,
  after_send, done_unless, dispatch, run_parsed, run_line,
}
use gotify_vps_agent.Cli.Keeps.{run_agent-Keeps, override_then-Keeps}
use gotify_vps_agent.Cli.Sound.{
  IsSound, AllSound, SoundDone, nothing, save-AllSound, when-SoundDone, configure_parsed-SoundDone,
  proxy_command-SoundDone,
}

module _ {F : Type 0} (sh : Shell F) where
  check_parsed-SoundDone : (path : Text) (f : Flags) → SoundDone sh (check_parsed sh path f)
  unfolding check_parsed
  check_parsed-SoundDone path bad_flags = nothing sh _
  check_parsed-SoundDone path (flags values (arg ∷ rest)) = nothing sh _
  check_parsed-SoundDone path (flags values []) =
      elim (Bool-cases (is_set (bytes "dry-run") values && is_set (bytes "baseline") values)) [
        | inl e ↦ rw (e) (nothing sh _)
        | inr e ↦
            rw (e) (record {
              sound = run_agent-Keeps (AllSound sh) sh path _ (λ r acts i. (e, i)) [] tt;
            })
      ]

  reset_parsed-SoundDone : (path : Text) (f : Flags) → SoundDone sh (reset_parsed sh path f)
  unfolding reset_parsed after_reset
  reset_parsed-SoundDone path bad_flags = nothing sh _
  reset_parsed-SoundDone path (flags values (arg ∷ rest)) = nothing sh _
  reset_parsed-SoundDone path (flags values []) =
      when-SoundDone sh _ _ _ (nothing sh _)
        (when-SoundDone sh _ _ _ (nothing sh _) (each (reset_state sh.world path)))
    where
      each : (r : List Text × Bool) → SoundDone sh (after_reset sh r)
      each (paths, true) = record { sound = (tt, tt) }
      each (paths, false) = record { sound = (tt, tt) }

  with_config-SoundDone :
      (l : Loaded F) (next : Config F → Done F)
      → ((cfg : Config F) → SoundDone sh (next cfg))
      → SoundDone sh (with_config sh l next)
  unfolding with_config
  with_config-SoundDone (loaded cfg) next h = h cfg
  with_config-SoundDone unavailable next h = nothing sh _
  with_config-SoundDone too_big next h = nothing sh _
  with_config-SoundDone (unparsed e) next h = nothing sh _
  with_config-SoundDone (invalid e) next h = nothing sh _

  timer_command-SoundDone :
      (path : Text) (args : List Text) → SoundDone sh (timer_command sh path args)
  unfolding timer_command sync_timer
  timer_command-SoundDone path args = when-SoundDone sh _ _ _ (nothing sh _) (
      when-SoundDone sh _ _ _ (nothing sh _) (
        when-SoundDone sh _ _ _ (nothing sh _) (
          with_config-SoundDone _ _ λ cfg. record {
            sound =
                override_then-Keeps (AllSound sh) sh cfg.agent.interval finish
                  (λ text acts i. (tt, i)) (λ acts i. i) [] tt;
          })))

  enable_detected-SoundDone :
      (path : Text) (cfg : Config F) (d : Detected) → SoundDone sh (enable_detected sh path cfg d)
  unfolding enable_detected
  enable_detected-SoundDone path cfg (undetected e) = nothing sh _
  enable_detected-SoundDone path cfg (detected d) = record {
    sound = save-AllSound sh path _ finish (λ acts i. i) [] tt;
  }

  disable_found-SoundDone :
      (path id : Text) (cfg : Config F) (o : Option Text)
      → SoundDone sh (disable_found sh path id cfg o)
  unfolding disable_found
  disable_found-SoundDone path id cfg none = nothing sh _
  disable_found-SoundDone path id cfg (some unit) = record {
    sound = save-AllSound sh path _ finish (λ acts i. i) [] tt;
  }

  enable_service-SoundDone :
      (path : Text) (args : List Text) → SoundDone sh (enable_service sh path args)
  unfolding enable_service
  enable_service-SoundDone path [] = nothing sh _
  enable_service-SoundDone path (id ∷ []) =
      when-SoundDone sh _ _ _ (nothing sh _)
        (with_config-SoundDone _ _ λ cfg. enable_detected-SoundDone path cfg _)
  enable_service-SoundDone path (id ∷ more ∷ rest) = nothing sh _

  disable_service-SoundDone :
      (path : Text) (args : List Text) → SoundDone sh (disable_service sh path args)
  unfolding disable_service
  disable_service-SoundDone path [] = nothing sh _
  disable_service-SoundDone path (id ∷ []) =
      when-SoundDone sh _ _ _ (nothing sh _)
        (with_config-SoundDone _ _ λ cfg. disable_found-SoundDone path id cfg _)
  disable_service-SoundDone path (id ∷ more ∷ rest) = nothing sh _

  services_word-SoundDone :
      (path word : Text) (rest : List Text) → SoundDone sh (services_word sh path word rest)
  unfolding services_word
  services_word-SoundDone path word [] = when-SoundDone sh _ _ _ (nothing sh _) (
      when-SoundDone sh _ _ _ (with_config-SoundDone _ _ λ cfg. nothing sh _) (
        when-SoundDone sh _ _ _ (enable_service-SoundDone path [])
          (when-SoundDone sh _ _ _ (disable_service-SoundDone path []) (nothing sh _))))
  services_word-SoundDone path word (arg ∷ rest) = when-SoundDone sh _ _ _ (nothing sh _) (
      when-SoundDone sh _ _ _ (nothing sh _) (
        when-SoundDone sh _ _ _ (enable_service-SoundDone path (arg ∷ rest))
          (when-SoundDone sh _ _ _ (disable_service-SoundDone path (arg ∷ rest)) (nothing sh _))))

  services_command-SoundDone :
      (path : Text) (args : List Text) → SoundDone sh (services_command sh path args)
  unfolding services_command
  services_command-SoundDone path [] =
      when-SoundDone sh _ _ _ (nothing sh _) (services_word-SoundDone path (bytes "list") [])
  services_command-SoundDone path (word ∷ rest) =
      when-SoundDone sh _ _ _ (nothing sh _) (services_word-SoundDone path word rest)

  -- What a whole command line does.
  abbrev pub acts_of : Outcome F → List (Act F)
  acts_of (acted d) = done_acts d
  acts_of misused = []
  acts_of helped = []

  record SoundLine (o : Outcome F) : Type 0 where
    sound : All (IsSound sh) (acts_of o)

  when-SoundLine :
      (b : Bool) (this that : Outcome F)
      → SoundLine this
      → SoundLine that
      → SoundLine (when b then this otherwise that)
  unfolding when◌then◌otherwise◌
  when-SoundLine true this that h k = h
  when-SoundLine false this that h k = k

  acted-SoundLine : (d : Done F) → SoundDone sh d → SoundLine (acted d)
  acted-SoundLine d h = record { sound = h.sound }

  misused-SoundLine : SoundLine misused
  misused-SoundLine = record { sound = tt }

  helped-SoundLine : SoundLine helped
  helped-SoundLine = record { sound = tt }

  after_status-SoundDone : (o : Option (List Text)) → SoundDone sh (after_status sh o)
  after_status-SoundDone none = nothing sh _
  after_status-SoundDone (some lines) = nothing sh _

  after_send-SoundDone : (o : Option TestError) → SoundDone sh (after_send sh o)
  after_send-SoundDone none = nothing sh _
  after_send-SoundDone (some e) = nothing sh _

  done_unless-SoundDone : (b : Bool) (e : CliError) → SoundDone sh (done_unless sh b e)
  done_unless-SoundDone true e = nothing sh _
  done_unless-SoundDone false e = nothing sh _

  dispatch-SoundLine :
      (path word : Text) (rest : List Text) → SoundLine (dispatch sh path word rest)
  unfolding dispatch configure_command check_command reset_command doctor_command
  dispatch-SoundLine path word rest = when-SoundLine _ _ _ misused-SoundLine (
      when-SoundLine _ _ _ (acted-SoundLine _ (configure_parsed-SoundDone sh path _)) (
        when-SoundLine _ _ _ (acted-SoundLine _ (check_parsed-SoundDone path _)) (
          when-SoundLine _ _ _ (acted-SoundLine _ (after_status-SoundDone _)) (
            when-SoundLine _ _ _ (acted-SoundLine _ (done_unless-SoundDone _ _)) (
              when-SoundLine _ _ _ (acted-SoundLine _ (after_send-SoundDone _)) (
                when-SoundLine _ _ _ (acted-SoundLine _ (services_command-SoundDone path rest)) (
                  when-SoundLine _ _ _ (acted-SoundLine _ (proxy_command-SoundDone sh path rest)) (
                    when-SoundLine _ _ _ (acted-SoundLine _ (timer_command-SoundDone path rest)) (
                      when-SoundLine _ _ _ (acted-SoundLine _ (reset_parsed-SoundDone path _)) (
                        when-SoundLine _ _ _ (acted-SoundLine _ (nothing sh _))
                          (when-SoundLine _ _ _ helped-SoundLine misused-SoundLine)))))))))))

  -- Whatever the command line, the input and the machine: the settings that are written are the text
  -- of valid settings, a connection test that counts as passed is one that `SendTestWithValues` gives
  -- no error for, and no run of the agent is a dry run and a baseline at once.
  pub run_line-AllSound : (args : List Text) → All (IsSound sh) (acts_of (run_line sh args))
  unfolding run_line run_parsed
  run_line-AllSound args = each (parse_flags ((bytes "config", string_flag) ∷ []) args)
    where
      each : (f : Flags) → All (IsSound sh) (acts_of (run_parsed sh f))
      each bad_flags = tt
      each (flags values []) = tt
      each (flags values (word ∷ rest)) = (dispatch-SoundLine _ word rest).sound
