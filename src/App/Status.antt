-- ===== src/App/Status.antt =====
-- internal/app/app.go, Status and printResults: the lines that they print.
use gotify_vps_agent.Prelude.{
  ℕ, Bool, true, false, List, [], ◌∷◌, ◌++◌, Option, none, some, if◌then◌else◌, length,
}
use gotify_vps_agent.Prelude.Int.{pos, ltb_ℤ}
use gotify_vps_agent.Prelude.Text.{Text, bytes, is_empty, decimal}
use gotify_vps_agent.Prelude.Dict.{Dict, sort_keys}
use gotify_vps_agent.Strings.Format.{pad}
use gotify_vps_agent.Clock.{is_zero}
use gotify_vps_agent.File.{Outcome, done, failed}
use gotify_vps_agent.Model.{Result, status_text}
use gotify_vps_agent.Config.{Config, state_path, queue_path}
use gotify_vps_agent.Config.Reader.{Loaded, loaded, unavailable, too_big, unparsed, invalid}
use gotify_vps_agent.State.{State, CheckState}
use gotify_vps_agent.State
use gotify_vps_agent.Queue.{Queue}
use gotify_vps_agent.Queue
use gotify_vps_agent.App.{World, load_config}

abbrev columns : ℕ → ℕ → Text → Text → Text → Text
columns first second a b c = pad first a ++ 32 ∷ pad second b ++ 32 ∷ c

-- The line of a check that the state holds.
unfoldable pub check_lines : Dict CheckState → List Text
check_lines [] = []
check_lines ((id, check) ∷ rest) =
    columns 10 28 (status_text check.current) id check.message ∷ check_lines rest

-- `printResults`
unfoldable pub result_lines : List Result → List Text
result_lines [] = []
result_lines (r ∷ rest) = columns 8 30 (status_text r.status) r.title r.message ∷ result_lines rest

abbrev bool_text : Bool → Text
bool_text true = bytes "true"
bool_text false = bytes "false"

module _ {F : Type 0} (w : World F) where
  unfoldable pub attempt_lines : Queue → List Text
  attempt_lines pending =
      if ltb_ℤ (pos 0) pending.attempts
      then (bytes "Delivery attempts: " ++ decimal pending.attempts)
        ∷ (bytes "Next delivery attempt: " ++ w.rfc3339 pending.next_attempt_at)
        ∷ []
      else []

  unfoldable pub status_lines : Config F → State → Queue → List Text
  status_lines cfg current pending =
      (bytes "Hostname: " ++ cfg.agent.hostname)
      ∷ (bytes "Interval: " ++ cfg.agent.interval)
      ∷ (bytes "SOCKS5 proxy: "
          ++ (if is_empty cfg.gotify.proxy_url then bytes "disabled" else cfg.gotify.proxy_url))
      ∷ (bytes "Last run: "
          ++ (if is_zero current.last_run then bytes "never" else w.rfc3339 current.last_run))
      ∷ (bytes "Baseline initialized: " ++ bool_text current.initialized)
      ∷ (bytes "Queued events: " ++ decimal (pos (length pending.events)))
      ∷ (attempt_lines pending ++ check_lines (sort_keys current.checks))

  unfoldable pub status_read : Config F → Outcome State → Outcome Queue → Option (List Text)
  status_read cfg (failed e) q = none
  status_read cfg (done current) (failed e) = none
  status_read cfg (done current) (done pending) = some (status_lines cfg current pending)

  unfoldable pub status_loaded : Loaded F → Option (List Text)
  status_loaded unavailable = none
  status_loaded too_big = none
  status_loaded (unparsed e) = none
  status_loaded (invalid e) = none
  status_loaded (loaded cfg) =
      status_read cfg (State.load w.decode_state (w.state_file (state_path cfg)))
        (Queue.load w.decode_queue (w.queue_file (queue_path cfg)))

  -- `Status`: the lines, or an error.
  unfoldable pub status : Text → Option (List Text)
  status path = if w.root then status_loaded (load_config w path) else none
