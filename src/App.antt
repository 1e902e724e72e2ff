-- ===== src/App.antt =====
-- internal/app/app.go: the commands besides the run itself, over what the machine answers. The text
-- of an error that comes from outside the program, or is put together by fmt, is an answer too.
pub mod Doctor
pub mod Status
pub mod Agent
pub mod Faults
use gotify_vps_agent.Prelude.{
  ℕ, Bool, true, false, not, ◌&&◌, ◌||◌, List, [], ◌∷◌, ◌++◌, Option, none, some, if◌then◌else◌,
}
use gotify_vps_agent.Prelude.Int.{ℤ, pos}
use gotify_vps_agent.Prelude.Text.{Text, bytes}
use gotify_vps_agent.Strings.{trim_space}
use gotify_vps_agent.Clock.{Time}
use gotify_vps_agent.File.{ReadOutcome, Decoded, FileError}
use gotify_vps_agent.Config.{
  Config, Go, TokenError, TokenResult, token, state_path, queue_path, journal_cursor_path,
}
use gotify_vps_agent.Config.Validity.{ConfigError}
use gotify_vps_agent.Config.Writer.{Marshalled, marshalled, marshal_refused, marshal}
use gotify_vps_agent.Config.Reader.{Loaded, loaded, unavailable, too_big, unparsed, invalid, load}
use gotify_vps_agent.State.{State}
use gotify_vps_agent.Queue.{Queue}
use gotify_vps_agent.Runner.{Answer}
use gotify_vps_agent.Platform.{read_os_release, require_debian13}
use gotify_vps_agent.Net.{Net}
use gotify_vps_agent.Proxy.{accepts}
use gotify_vps_agent.Gotify.{
  Client, ClientError, NewClient, client, no_client, new_client, Request, HttpAnswer, SendError,
  send,
}

-- What os.Stat and os.Lstat answer: an error, which may say that nothing is there, or a file with its
-- permission bits and, if the system tells them, its owner and group.
pub data FileInfo : Type 0 where
  no_info : (not_exist : Bool) → Text → FileInfo
  info : (regular directory symlink : Bool) → ℕ → Option (ℕ × ℕ) → FileInfo

-- What os.Remove answers.
pub data Removal : Type 0 where
  removed nothing_there not_removed : Removal

pub record World (F : Type 0) : Type 0 where
  pub go : Go F
  pub net : Net
  pub exchange : Request → HttpAnswer
  pub acknowledgement : Text → Decoded ℤ
  pub hostname : Text
  -- the files
  pub config_file : Text → ReadOutcome
  pub token_file : Text → Option Text
  pub state_file : Text → ReadOutcome
  pub decode_state : Text → Decoded State
  pub queue_file : Text → ReadOutcome
  pub decode_queue : Text → Decoded Queue
  pub os_release : Option Text
  pub lstat : Text → FileInfo
  pub stat : Text → FileInfo
  -- securefile.Write of a path and bytes gives no error
  pub file_written : Text → Text → Bool
  pub remove : Text → Removal
  pub lock_taken : Bool
  -- os.Geteuid() == 0, runner.Run, and the time that time.Since reads
  pub root : Bool
  pub run : Text → List Text → Answer
  pub since : Time
  -- texts
  pub rfc3339 : Time → Text
  pub age_text : ℤ → Text
  pub release_text : Text
  pub config_text : Loaded F → Text
  pub token_text : TokenError → Text
  pub file_text : FileError → Text
  pub client_text : ClientError → Text
  pub send_text : SendError → Text

-- Go's conversions with the acceptance of a proxy address that internal/socksproxy has.
abbrev pub go_of : {F : Type 0} → World F → Go F
go_of w = record (w.go) { proxy_accepted = accepts w.net }

pub data TestError : Type 0 where
  test_not_loaded test_bad_timeout : TestError
  test_no_token : TokenError → TestError
  test_no_client : ClientError → TestError
  test_not_sent : SendError → TestError

-- What `WriteConfig` does: bytes that are written, or an error of Marshal or of securefile.Write.
pub data Saved : Type 0 where
  saved : Text → Saved
  save_refused : ConfigError → Saved
  save_failed : Saved

-- `timeout, _ := time.ParseDuration(...)`
abbrev pub or_zero : Option ℤ → ℤ
or_zero none = pos 0
or_zero (some d) = d

abbrev pub remove_error : Removal → Bool
remove_error not_removed = true
remove_error _ = false

-- The loop of `ResetState`: the paths that os.Remove is called for, and whether it ends in an error.
unfoldable pub remove_all : (Text → Removal) → List Text → List Text × Bool
remove_all remove [] = ([], false)
remove_all remove (path ∷ rest) =
    let (paths, failed) = remove_all remove rest in
    if remove_error (remove path) then (path ∷ [], true) else (path ∷ paths, failed)

module _ {F : Type 0} (w : World F) where
  unfoldable pub load_config : Text → Loaded F
  load_config path = load (go_of w) w.hostname (w.config_file path)

  unfoldable pub read_token : Config F → TokenResult
  read_token cfg = token (w.token_file cfg.gotify.token_file)

  unfoldable pub debian : Bool
  debian = require_debian13 (read_os_release w.os_release)

  -- gotify.New with the settings, the token and the timeout.
  unfoldable pub client_for : Config F → Text → ℤ → NewClient
  client_for cfg value timeout =
      new_client w.net cfg.gotify.url value timeout cfg.gotify.allow_insecure_http
        cfg.gotify.proxy_url

  unfoldable pub send_with : Config F → Text → NewClient → Option TestError
  send_with cfg body (no_client e) = some (test_no_client e)
  send_with cfg body (client c) =
      elim (send w.exchange w.acknowledgement c
        (bytes "[" ++ cfg.agent.hostname ++ bytes "] Gotify VPS Agent test") body (pos 3)) [
          | some e ↦ some (test_not_sent e)
          | none ↦ none
        ]

  -- `SendTest` from the settings on.
  unfoldable pub send_test_loaded : Loaded F → Option TestError
  send_test_loaded unavailable = some test_not_loaded
  send_test_loaded too_big = some test_not_loaded
  send_test_loaded (unparsed e) = some test_not_loaded
  send_test_loaded (invalid e) = some test_not_loaded
  send_test_loaded (loaded cfg) = elim (read_token cfg) [
    | TokenResult.token_error e ↦ some (test_no_token e)
    | TokenResult.token_value value ↦
        send_with cfg (bytes "Gotify VPS Agent is configured and can send notifications.")
          (client_for cfg value (or_zero (w.go.parse_duration cfg.gotify.timeout)))
  ]

  -- `SendTest`
  unfoldable pub send_test : Text → Option TestError
  send_test path = send_test_loaded (load_config path)

  -- `SendTestWithValues`
  unfoldable pub send_test_with_values : Config F → Text → Option TestError
  send_test_with_values cfg value = elim (w.go.parse_duration cfg.gotify.timeout) [
    | none ↦ some test_bad_timeout
    | some timeout ↦
        send_with cfg (bytes "Gotify VPS Agent configuration test succeeded.")
          (client_for cfg value timeout)
  ]

  -- `WriteConfig`
  unfoldable pub write_config : Text → Config F → Saved
  write_config path cfg = elim (marshal (go_of w) cfg) [
    | marshal_refused e ↦ save_refused e
    | marshalled text ↦ if w.file_written path text then saved text else save_failed
  ]

  -- The bytes that `WriteToken` writes.
  unfoldable pub token_bytes : Text → Text
  token_bytes value = trim_space value ++ 10 ∷ []

  -- `ResetState` from the settings on.
  unfoldable pub reset_loaded : Loaded F → List Text × Bool
  reset_loaded (loaded cfg) =
      if w.lock_taken
      then remove_all w.remove (state_path cfg ∷ queue_path cfg ∷ journal_cursor_path cfg ∷ [])
      else ([], true)
  reset_loaded unavailable = ([], true)
  reset_loaded too_big = ([], true)
  reset_loaded (unparsed e) = ([], true)
  reset_loaded (invalid e) = ([], true)

  -- `ResetState`: the paths that are removed, and whether it ends in an error.
  unfoldable pub reset_state : Text → List Text × Bool
  reset_state path = reset_loaded (load_config path)
