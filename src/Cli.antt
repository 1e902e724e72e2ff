-- ===== src/Cli.antt =====
-- internal/cli: the command line, as the list of what a command does to the outside, the last first,
-- and its error. What is printed is left out, except where a command reads it.
pub mod Flags
pub mod Prompts
pub mod Proxy
pub mod Configure
pub mod Commands
pub mod Keeps
pub mod Sound
pub mod Tested
use gotify_vps_agent.Prelude.{
  ℕ, Bool, true, false, not, ◌&&◌, ◌||◌, List, [], ◌∷◌, Option, none, some, if◌then◌else◌,
}
use gotify_vps_agent.Prelude.Int.{ℤ, pos}
use gotify_vps_agent.Prelude.Text.{Text}
use gotify_vps_agent.Clock.{Time}
use gotify_vps_agent.Config.{Config, TokenError}
use gotify_vps_agent.Config.Validity.{ConfigError}
use gotify_vps_agent.Queue.{Queue}
use gotify_vps_agent.Storage.Writes.{DiskError}
use gotify_vps_agent.Delivery.{
  DeliveryResult, delivered, retry_later, retry_unsaved, unacknowledged, out_of_fuel, not_built,
}
use gotify_vps_agent.Run.{
  CheckOptions, Machine, Run, Ending, dry_run_ended, baseline_ended, nothing_queued, not_ready,
  delivery_ended, refused_run, reported, run_check,
}
use gotify_vps_agent.Services.{Probe, DetectError}
use gotify_vps_agent.Systemd.{TimerError}
use gotify_vps_agent.App.{World, TestError, Saved, saved, save_refused, save_failed, write_config}

pub data CliError : Type 0 where
  bad_arguments unexpected_arguments exclusive_options not_confirmed unknown_command : CliError
  wrong_platform not_root not_loaded unreadable_password token_required cancelled : CliError
  proxy_without_enable not_enabled directory_not_made mode_not_set token_unsaved : CliError
  config_unsaved run_failed status_failed doctor_failed reset_failed : CliError
  invalid_config : ConfigError → CliError
  no_token : TokenError → CliError
  test_failed : TestError → CliError
  detect_failed : DetectError → CliError
  timer_failed : TimerError → CliError

-- What a command does without an error, each run of the agent, the try to disable the timer, whose
-- error is dropped, and the files that os.Remove is called for.
pub data Act (F : Type 0) : Type 0 where
  test_passed : Config F → Text → Act F
  directory_made mode_set timer_enabled timer_disabled : Act F
  token_written : Text → Text → Act F
  config_written : Text → Config F → Text → Act F
  override_written : Text → Act F
  files_removed : List Text → Act F
  ran : CheckOptions → Run → Act F

-- The end of a command: its acts, the last first, and its error.
pub data Done (F : Type 0) : Type 0 where
  ended : List (Act F) → Option CliError → Done F

abbrev pub done_acts : {F : Type 0} → Done F → List (Act F)
done_acts (ended acts e) = acts

abbrev pub done_error : {F : Type 0} → Done F → Option CliError
done_error (ended acts e) = e

pub record Shell (F : Type 0) : Type 0 where
  pub world : World F
  pub probe : Probe
  -- GOTIFY_VPS_AGENT_CONFIG, and the lines of the input
  pub env_config : Text
  pub input : List Text
  -- terminal.ReadPassword, and strconv.ParseFloat
  pub password : Option Text
  -- os.MkdirAll and os.Chmod of the state directory, and the directory and the file of the override
  pub made_directory : Bool
  pub set_mode : Bool
  pub override_saved : Text → Bool
  -- what a run of the agent meets after the acts so far
  pub machine : List (Act F) → Text → Machine F
  pub hex_digest : Text → Text
  pub marshal_queue : Queue → Option Text
  pub disk_text : DiskError → Text

-- The conditional as a function of its own, which keeps its form in a goal.
infix 1 when◌then◌otherwise◌
unfoldable pub when◌then◌otherwise◌ {ℓ} : {A : Type ℓ} → Bool → A → A → A
when true then x otherwise y = x
when false then x otherwise y = y

abbrev pub finish : {F : Type 0} → List (Act F) → Done F
finish acts = ended acts none

abbrev pub fail : {F : Type 0} → CliError → List (Act F) → Done F
fail e acts = ended acts (some e)

-- `if err := ...; err != nil { return err }` of one act.
unfoldable pub step :
    {F : Type 0} → Bool → Act F → CliError → (List (Act F) → Done F) → List (Act F) → Done F
step true act e next acts = next (act ∷ acts)
step false act e next acts = fail e acts

-- Whether RunCheck returns an error.
unfoldable pub is_error : Ending → Bool
is_error dry_run_ended = false
is_error baseline_ended = false
is_error nothing_queued = false
is_error not_ready = false
is_error (delivery_ended delivered) = false
is_error (delivery_ended retry_later) = false
is_error (delivery_ended retry_unsaved) = true
is_error (delivery_ended unacknowledged) = true
is_error (delivery_ended out_of_fuel) = true
is_error (delivery_ended (not_built id)) = true
is_error (refused_run why) = true
is_error (reported r) = true

module _ {F : Type 0} (sh : Shell F) where
  -- app.RunCheck
  unfoldable pub run_agent : Text → CheckOptions → List (Act F) → Done F
  run_agent path options acts =
      let r =
        run_check sh.hex_digest sh.world.rfc3339 sh.marshal_queue sh.disk_text options
          (sh.machine acts path) in
      ended (ran options r ∷ acts) (if is_error r.ending then some run_failed else none)

  unfoldable pub after_save :
      Text → Config F → Saved → (List (Act F) → Done F) → List (Act F) → Done F
  after_save path cfg (saved text) next acts = next (config_written path cfg text ∷ acts)
  after_save path cfg (save_refused e) next acts = fail (invalid_config e) acts
  after_save path cfg save_failed next acts = fail config_unsaved acts

  -- app.WriteConfig, and what follows it.
  unfoldable pub save_config : Text → Config F → (List (Act F) → Done F) → List (Act F) → Done F
  save_config path cfg next acts = after_save path cfg (write_config sh.world path cfg) next acts
