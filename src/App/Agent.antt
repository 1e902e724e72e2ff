-- ===== src/App/Agent.antt =====
-- internal/app/app.go and storage.go: the machine of a run put together from the other parts, the
-- checks, the client of the delivery and that of an emergency notification.
pub mod Apart
use gotify_vps_agent.Prelude.{ℕ, Bool, true, false, List, Option, none, some, if◌then◌else◌}
use gotify_vps_agent.Prelude.Int.{ℤ, pos, leb_ℤ}
use gotify_vps_agent.Prelude.Text.{Text}
use gotify_vps_agent.Clock.{Time}
use gotify_vps_agent.File.{Outcome, done, failed, FileError}
use gotify_vps_agent.Config.{
  Config, TokenResult, token_value, token_error, TokenError, token_unread, state_path, queue_path,
}
use gotify_vps_agent.Config.Reader.{Loaded, loaded, unavailable, too_big, unparsed, invalid}
use gotify_vps_agent.State.{State}
use gotify_vps_agent.State
use gotify_vps_agent.Queue.{Queue}
use gotify_vps_agent.Queue
use gotify_vps_agent.Notify.{Message}
use gotify_vps_agent.Delivery.{Action}
use gotify_vps_agent.Storage.Writes.{DiskError}
use gotify_vps_agent.Checks.Host.{Host, Floats}
use gotify_vps_agent.Checks.Kernel.{RawEntry}
use gotify_vps_agent.Checks.All
use gotify_vps_agent.Gotify.{
  Client, ClientError, NewClient, client, no_client, SendError, Request, HttpAnswer, send,
}
use gotify_vps_agent.Run.{LockAnswers, Machine, Read, got, broken}
use gotify_vps_agent.App.{go_of, World, load_config, read_token, debian, client_for, or_zero}

-- What a run meets beyond `World`. The exchange with the server depends on what was sent and saved.
pub record Surroundings (F : Type 0) : Type 0 where
  pub float : Floats F
  pub host : Host
  pub hex_digest : Text → Text
  pub json_entry : Text → Option RawEntry
  pub lock : LockAnswers
  -- the error of the system behind a failed Load
  pub disk_error : FileError → DiskError
  pub cancelled : Bool
  pub directory_error : Option DiskError
  pub mode_error : Option DiskError
  pub now : Time
  pub queue_error : Queue → Option DiskError
  pub state_error : State → Option DiskError
  pub cursor_error : Text → Option DiskError
  pub exchange : List Action → Request → HttpAnswer
  pub save : List Action → Queue → Bool
  pub save_error : DiskError
  pub not_ready_text : Text

abbrev read_of : {A : Type 0} → (FileError → DiskError) → Outcome A → Read A
read_of disk_error (done value) = got value
read_of disk_error (failed e) = broken (disk_error e)

abbrev is_client : NewClient → Bool
is_client (client c) = true
is_client (no_client e) = false

abbrev is_sent : Option SendError → Bool
is_sent none = true
is_sent (some e) = false

module _ {F : Type 0} (w : World F) (s : Surroundings F) where
  unfoldable pub token_of : Loaded F → TokenResult
  token_of (loaded cfg) = read_token w cfg
  token_of unavailable = token_error token_unread
  token_of too_big = token_error token_unread
  token_of (unparsed e) = token_error token_unread
  token_of (invalid e) = token_error token_unread

  -- The client of the delivery: `timeout, _ := time.ParseDuration(...)`.
  unfoldable pub delivery_client : Config F → Text → NewClient
  delivery_client cfg value =
      client_for w cfg value (or_zero (w.go.parse_duration cfg.gotify.timeout))

  abbrev send_by : (Request → HttpAnswer) → Message → NewClient → Bool
  send_by exchange m (no_client e) = false
  send_by exchange m (client c) =
      is_sent (send exchange w.acknowledgement c m.title m.body m.priority)

  unfoldable pub send_batch : Loaded F → TokenResult → List Action → Message → Bool
  send_batch (loaded cfg) (token_value value) actions m =
      send_by (s.exchange actions) m (delivery_client cfg value)
  send_batch (loaded cfg) (token_error e) actions m = false
  send_batch unavailable t actions m = false
  send_batch too_big t actions m = false
  send_batch (unparsed e) t actions m = false
  send_batch (invalid e) t actions m = false

  -- min(timeout, 10*time.Second)
  abbrev short : ℤ → ℤ
  short timeout = if leb_ℤ timeout (pos 10000000000) then timeout else pos 10000000000

  abbrev emergency_by : Message → NewClient → Option Text
  emergency_by m (no_client e) = some (w.client_text e)
  emergency_by m (client c) = elim (send w.exchange w.acknowledgement c m.title m.body m.priority) [
    | none ↦ none
    | some e ↦ some (w.send_text e)
  ]

  -- The send of `reportStorageFailure`: its token, its timeout and its client.
  unfoldable pub emergency_with : Config F → Message → TokenResult → Option ℤ → Option Text
  emergency_with cfg m (token_error e) timeout = some (w.token_text e)
  emergency_with cfg m (token_value value) none = some s.not_ready_text
  emergency_with cfg m (token_value value) (some timeout) =
      emergency_by m (client_for w cfg value (short timeout))

  unfoldable pub emergency_send : Loaded F → Message → Option Text
  emergency_send (loaded cfg) m =
      emergency_with cfg m (read_token w cfg) (w.go.parse_duration cfg.gotify.timeout)
  emergency_send unavailable m = some s.not_ready_text
  emergency_send too_big m = some s.not_ready_text
  emergency_send (unparsed e) m = some s.not_ready_text
  emergency_send (invalid e) m = some s.not_ready_text

  unfoldable pub state_of : Loaded F → Read State
  state_of (loaded cfg) =
      read_of s.disk_error (State.load w.decode_state (w.state_file (state_path cfg)))
  state_of unavailable = got State.new
  state_of too_big = got State.new
  state_of (unparsed e) = got State.new
  state_of (invalid e) = got State.new

  unfoldable pub queue_of : Loaded F → Read Queue
  queue_of (loaded cfg) =
      read_of s.disk_error (Queue.load w.decode_queue (w.queue_file (queue_path cfg)))
  queue_of unavailable = got Queue.new
  queue_of too_big = got Queue.new
  queue_of (unparsed e) = got Queue.new
  queue_of (invalid e) = got Queue.new

  -- The machine of a run of the agent. A run without settings reads nothing else of it.
  unfoldable pub agent_machine : Text → Machine F
  agent_machine path =
      let settings = load_config w path in
      record {
        config = settings;
        debian = debian w;
        root = w.root;
        lock = s.lock;
        state_read = state_of settings;
        queue_read = queue_of settings;
        checks_run = All.run s.float (go_of w) s.hex_digest s.json_entry s.host;
        cancelled = s.cancelled;
        directory_error = s.directory_error;
        mode_error = s.mode_error;
        now = s.now;
        since = w.since;
        queue_error = s.queue_error;
        state_error = s.state_error;
        cursor_error = s.cursor_error;
        token = token_of settings;
        client_accepted = λ cfg value. is_client (delivery_client cfg value);
        send = send_batch settings (token_of settings);
        save = s.save;
        save_error = s.save_error;
        emergency_send = emergency_send settings;
      }
