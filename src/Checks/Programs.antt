-- ===== src/Checks/Programs.antt =====
-- internal/checks: the checks that ask a program, and those that look at marker files.
use gotify_vps_agent.Prelude.{
  ◌-◌, Bool, true, false, not, ◌&&◌, ◌||◌, List, [], ◌∷◌, ◌++◌, none, some, ltb, ◌==◌,
  if◌then◌else◌, length, take,
}
use gotify_vps_agent.Prelude.Int.{pos, eqb_ℤ}
use gotify_vps_agent.Prelude.Text.{Text, bytes, text_eq, is_empty, decimal}
use gotify_vps_agent.Prelude.Dict.{Dict, lookup, insert}
use gotify_vps_agent.Strings.{trim_space}
use gotify_vps_agent.Strings.Search.{cut, join}
use gotify_vps_agent.Strings.Lines.{non_empty_lines}
use gotify_vps_agent.Model.{status_warning, status_critical, Result}
use gotify_vps_agent.Runner.{CommandResult, Answer, answered, not_run}
use gotify_vps_agent.Systemd.{timer_healthy, or_empty}
use gotify_vps_agent.Checks.{ok, problem, join_limited}
use gotify_vps_agent.Checks.Host.{Host, systemctl_state}

-- `compactOutput`
unfoldable pub compact_output : Text → Text
compact_output output =
    let lines = non_empty_lines output in
    if length lines == 0 then bytes "Command failed without output" else join_limited lines 6

abbrev pub exit_zero : CommandResult → Bool
exit_zero r = eqb_ℤ r.exit_code (pos 0)

-- The first eight lines, and how many more there are.
unfoldable pub shorten : List Text → List Text
shorten lines =
    if ltb 8 (length lines)
    then take 8 lines ++ (bytes "and " ++ decimal (pos (length lines - 8)) ++ bytes " more") ∷ []
    else lines

unfoldable pub check_systemd_failed : Host → Result
check_systemd_failed host =
    let id = bytes "systemd.failed" in
    let title = bytes "Failed systemd units" in
    elim (host.run (bytes "/usr/bin/systemctl")
      (bytes "--failed" ∷ bytes "--no-legend" ∷ bytes "--plain" ∷ [])) [
        | not_run e ↦ problem id title status_warning e false
        | answered r ↦
            let lines = non_empty_lines r.output in
            if not (exit_zero r) || r.truncated
            then problem id title status_warning
                (bytes "Unable to inspect failed units: " ++ compact_output r.output) false
            else if length lines == 0
            then ok id title (bytes "No failed systemd units")
            else problem id title status_warning (join (bytes "; ") (shorten lines)) false
      ]

unfoldable pub check_apt : Host → Result
check_apt host =
    let id = bytes "apt.check" in
    let title = bytes "APT dependency check" in
    elim (host.run (bytes "/usr/bin/apt-get") (
      bytes "-o"
      ∷ bytes "Debug::NoLocking=1"
      ∷ bytes "-o"
      ∷ bytes "Dir::Cache::pkgcache=/dev/null"
      ∷ bytes "-o"
      ∷ bytes "Dir::Cache::srcpkgcache=/dev/null"
      ∷ bytes "check"
      ∷ [])) [
        | not_run e ↦ problem id title status_warning e false
        | answered r ↦
            if exit_zero r
            then ok id title (bytes "APT dependency state is consistent")
            else problem id title status_critical (compact_output r.output) true
      ]

unfoldable pub check_dpkg : Host → Result
check_dpkg host =
    let id = bytes "dpkg.audit" in
    let title = bytes "DPKG audit" in
    elim (host.run (bytes "/usr/bin/dpkg") (bytes "--audit" ∷ [])) [
      | not_run e ↦ problem id title status_warning e false
      | answered r ↦
          if exit_zero r && is_empty (trim_space r.output)
          then ok id title (bytes "No partially installed or inconsistent packages")
          else problem id title status_warning (compact_output r.output) false
    ]

-- The issue with one timer, if it has one.
unfoldable pub timer_issue : Host → Text → List Text
timer_issue host unit =
    let active = systemctl_state host (bytes "is-active") unit in
    let enabled = systemctl_state host (bytes "is-enabled") unit in
    if not (text_eq active (bytes "active")) || not (text_eq enabled (bytes "enabled"))
    then (unit ++ bytes " active=" ++ active ++ bytes " enabled=" ++ enabled) ∷ []
    else []

unfoldable pub check_apt_timers : Host → Result
check_apt_timers host =
    let id = bytes "apt.timers" in
    let title = bytes "APT timers" in
    let issues =
      timer_issue host (bytes "apt-daily.timer")
      ++ timer_issue host (bytes "apt-daily-upgrade.timer") in
    if length issues == 0
    then ok id title (bytes "apt-daily.timer and apt-daily-upgrade.timer are active and enabled")
    else problem id title status_warning (join (bytes "; ") issues) false

-- `values[key] = value` for the lines of needrestart.
kernel_values : List Text → Dict Text → Dict Text
kernel_values [] values = values
kernel_values (line ∷ rest) values = kernel_values rest (elim (cut b':' line) [
  | none ↦ values
  | some (key, value) ↦ insert (trim_space key) (trim_space value) values
])

-- The `switch` over the status that needrestart gives.
unfoldable pub judge_kernel : Dict Text → Result
judge_kernel values =
    let id = bytes "kernel.needrestart" in
    let title = bytes "Running kernel" in
    let current = or_empty (lookup (bytes "NEEDRESTART-KCUR") values) in
    let expected = or_empty (lookup (bytes "NEEDRESTART-KEXP") values) in
    let code = or_empty (lookup (bytes "NEEDRESTART-KSTA") values) in
    let pending = current ++ bytes ", expected " ++ expected in
    if text_eq code (bytes "1")
    then ok id title (bytes "Running kernel " ++ current ++ bytes " is current")
    else if text_eq code (bytes "2")
    then problem id title status_warning (bytes "Kernel update pending: running " ++ pending) false
    else if text_eq code (bytes "3")
    then problem id title status_warning
        (bytes "Kernel version update pending: running " ++ pending) false
    else problem id title status_warning
        (bytes "Unable to determine kernel status from needrestart") false

unfoldable pub check_needrestart : Host → Result
unfolding kernel_values
check_needrestart host =
    let id = bytes "kernel.needrestart" in
    let title = bytes "Running kernel" in
    if not (host.exists (bytes "/usr/sbin/needrestart"))
    then problem id title status_warning (bytes "needrestart is not installed") false
    else elim (host.run (bytes "/usr/sbin/needrestart") (bytes "-b" ∷ bytes "-k" ∷ [])) [
      | not_run e ↦ problem id title status_warning e false
      | answered r ↦ judge_kernel (kernel_values (non_empty_lines r.output) [])
    ]

unfoldable pub check_time_sync : Host → Result
check_time_sync host =
    let id = bytes "time.sync" in
    let title = bytes "Time synchronization" in
    elim (host.run (bytes "/usr/bin/timedatectl")
      (bytes "show" ∷ bytes "--property=NTPSynchronized" ∷ bytes "--value" ∷ [])) [
        | not_run e ↦ problem id title status_warning e false
        | answered r ↦
            if exit_zero r && text_eq (trim_space r.output) (bytes "yes")
            then ok id title (bytes "NTP synchronization is active")
            else problem id title status_warning (bytes "NTPSynchronized=" ++ trim_space r.output)
                false
      ]

-- The command that shows the timer, which `Doctor` gives too.
abbrev pub show_timer : Host → Answer
show_timer host = host.run (bytes "/usr/bin/systemctl") (
    bytes "show"
    ∷ bytes "gotify-vps-agent.timer"
    ∷ bytes
        "--property=LoadState,ActiveState,SubState,UnitFileState,NextElapseUSecRealtime,NextElapseUSecMonotonic"
    ∷ [])

unfoldable pub check_agent_timer : Host → Result
check_agent_timer host =
    let id = bytes "agent.timer" in
    let title = bytes "Agent timer" in
    elim (show_timer host) [
      | not_run e ↦ problem id title status_warning e false
      | answered r ↦
          if exit_zero r && not r.truncated && timer_healthy r.output
          then ok id title (bytes "gotify-vps-agent.timer is active, enabled and operational")
          else problem id title status_warning (compact_output r.output) false
    ]
