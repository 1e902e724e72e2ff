-- ===== src/Systemd.antt =====
-- internal/systemd: the health of the timer, its override, and the commands that change it. `run` is
-- the runner, `written` what os.MkdirAll and securefile.Write answer for the override.
use gotify_vps_agent.Prelude.{
  Bool, true, false, not, ◌||◌, List, [], ◌∷◌, ◌++◌, Option, none, some, if◌then◌else◌,
}
use gotify_vps_agent.Prelude.Int.{ℤ, pos, ltb_ℤ, eqb_ℤ}
use gotify_vps_agent.Prelude.Text.{Text, bytes, text_eq, is_empty}
use gotify_vps_agent.Prelude.Dict.{Dict, lookup, insert}
use gotify_vps_agent.Strings.{trim_space}
use gotify_vps_agent.Strings.Search.{cut, split}
use gotify_vps_agent.Runner.{Answer, answered, not_run}

-- `values[key]`, which is empty for a missing key.
abbrev pub or_empty : Option Text → Text
or_empty none = []
or_empty (some s) = s

-- `values[key] = value` for every line with an equals sign.
unfoldable pub properties : List Text → Dict Text → Dict Text
properties [] values = values
properties (line ∷ rest) values = properties rest (elim (cut b'=' line) [
  | none ↦ values
  | some (key, value) ↦ insert (trim_space key) (trim_space value) values
])

-- The `case` of a next elapse that means none.
unfoldable pub is_never : Text → Bool
is_never value =
    is_empty value
    || text_eq value (bytes "0")
    || text_eq value (bytes "n/a")
    || text_eq value (bytes "infinity")
    || text_eq value (bytes "18446744073709551615")

unfoldable pub healthy_values : Dict Text → Bool
healthy_values values =
    let value = λ (key : Text). or_empty (lookup key values) in
    if not (text_eq (value (bytes "LoadState")) (bytes "loaded"))
      || not (text_eq (value (bytes "ActiveState")) (bytes "active"))
      || not (text_eq (value (bytes "UnitFileState")) (bytes "enabled"))
    then false
    else if text_eq (value (bytes "SubState")) (bytes "running")
    then true
    else not (is_never (value (bytes "NextElapseUSecRealtime")))
      || not (is_never (value (bytes "NextElapseUSecMonotonic")))

-- `TimerHealthy`
unfoldable pub timer_healthy : Text → Bool
timer_healthy output = healthy_values (properties (split 10 output) [])

abbrev newline : Text → Text → Text
newline line rest = line ++ 10 ∷ rest

-- `timerOverride`; `parse_duration` is time.ParseDuration.
unfoldable pub timer_override : (Text → Option ℤ) → Text → Option Text
timer_override parse_duration interval = elim (parse_duration interval) [
  | none ↦ none
  | some d ↦
      if ltb_ℤ d (pos 60000000000) || ltb_ℤ (pos 86400000000000) d
      then none
      else some (
          newline (bytes "[Timer]") (
            newline (bytes "OnBootSec=") (
              newline (bytes "OnUnitActiveSec=") (
                newline (bytes "OnUnitInactiveSec=") (
                  newline (bytes "OnActiveSec=2m")
                    (newline (bytes "OnUnitInactiveSec=" ++ interval) []))))))
]

pub data TimerError : Type 0 where
  bad_interval override_unwritten : TimerError
  systemctl_error : Text → TimerError
  systemctl_failed : Text → TimerError

-- The end of each command: an error, or a result with an exit code.
unfoldable pub judge : Answer → Option TimerError
judge (not_run e) = some (systemctl_error e)
judge (answered r) = if eqb_ℤ r.exit_code (pos 0) then none else some (systemctl_failed r.output)

module _ (run : Text → List Text → Answer) where
  unfoldable pub enable_timer : Option TimerError
  enable_timer = judge (
      run (bytes "/usr/bin/systemctl")
        (bytes "enable" ∷ bytes "--now" ∷ bytes "gotify-vps-agent.timer" ∷ []))

  unfoldable pub disable_timer : Option TimerError
  disable_timer = judge (
      run (bytes "/usr/bin/systemctl")
        (bytes "disable" ∷ bytes "--now" ∷ bytes "gotify-vps-agent.timer" ∷ []))

  -- `WriteTimerOverride`: what is written, if anything, and the error.
  unfoldable pub write_timer_override :
      (Text → Option ℤ) → (Text → Bool) → Text → Option Text × Option TimerError
  write_timer_override parse_duration written interval =
      elim (timer_override parse_duration interval) [
        | none ↦ (none, some bad_interval)
        | some content ↦
            if written content
            then (
              some content,
              judge (run (bytes "/usr/bin/systemctl") (bytes "daemon-reload" ∷ [])),
            )
            else (none, some override_unwritten)
      ]
