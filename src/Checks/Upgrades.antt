-- ===== src/Checks/Upgrades.antt =====
-- internal/checks: the checks of unattended upgrades and of the marker of a reboot.
use gotify_vps_agent.Prelude.{
  ◌-◌, ◌*◌, false, not, ◌&&◌, List, [], ◌∷◌, ◌++◌, Option, none, some, ltb, if◌then◌else◌, length,
}
use gotify_vps_agent.Prelude.Int.{ℤ, ltb_ℤ, scale64}
use gotify_vps_agent.Prelude.Text.{Text, bytes, text_eq, is_empty, decimal}
use gotify_vps_agent.Strings.{trim_space}
use gotify_vps_agent.Strings.Search.{join}
use gotify_vps_agent.Clock.{Time, is_zero, minute, hour, before, sub_time}
use gotify_vps_agent.Model.{Status, status_ok, status_warning, status_critical, status_eq, Result}
use gotify_vps_agent.Runner.{answered, not_run}
use gotify_vps_agent.Checks.{ok, problem, higher, join_limited}
use gotify_vps_agent.Checks.Host.{
  Host, Floats, FileText, absent, unreadable, text, unix_seconds, human_duration,
}
use gotify_vps_agent.Checks.Kernel.{filter_lines}
use gotify_vps_agent.Checks.Programs.{exit_zero}

-- `newestFileInfo`: the newest regular file and its time.
newest_from : Host → Option (Time × Text) → List Text → Option (Time × Text)
newest_from host best [] = best
newest_from host best (path ∷ rest) =
    newest_from host
      (elim (host.regular_modified path) [
        | none ↦ best
        | some t ↦ elim best [
          | none ↦ some (t, path)
          | some (old, kept) ↦ if before old t then some (t, path) else some (old, kept)
        ]
      ])
      rest

-- `systemctlProperty`
unfoldable pub systemctl_property : Host → Text → Text → Text
systemctl_property host unit property =
    elim (host.run (bytes "/usr/bin/systemctl")
      (bytes "show" ∷ unit ∷ (bytes "--property=" ++ property) ∷ bytes "--value" ∷ [])) [
        | not_run e ↦ []
        | answered r ↦ if exit_zero r then trim_space r.output else []
      ]

-- What the check of upgrades carries from test to test.
pub record Findings : Type 0 where
  pub level : Status
  pub issues : List Text

module _ {F : Type 0} (float : Floats F) (host : Host) where
  -- The age of the stamp; a product that overflows wraps.
  unfoldable pub stamp_findings : ℤ → Option (Time × Text) → Findings
  stamp_findings max_hours none = record {
    level = status_warning;
    issues = bytes "successful upgrade stamp is missing" ∷ [];
  }
  stamp_findings max_hours (some (t, stamp)) =
      let age = sub_time host.now t in
      let max_age = scale64 max_hours hour in
      let told =
        (bytes "last successful run was " ++ human_duration float age ++ bytes " ago") ∷ [] in
      if ltb_ℤ (scale64 max_age 2) age
      then record { level = status_critical; issues = told }
      else if ltb_ℤ max_age age
      then record { level = higher status_ok status_warning; issues = told }
      else record { level = status_ok; issues = [] }

  unfoldable pub service_findings : Findings → Findings
  service_findings f =
      let result = systemctl_property host (bytes "apt-daily-upgrade.service") (bytes "Result") in
      if not (is_empty result) && not (text_eq result (bytes "success"))
      then record {
        level = status_critical;
        issues = f.issues ++ (bytes "last apt-daily-upgrade result=" ++ result) ∷ [];
      }
      else f

  unfoldable pub log_findings : Time → Findings → Findings
  log_findings last_run f =
      let t = if is_zero last_run then host.now - 10 * minute else last_run in
      elim (host.run (bytes "/usr/bin/journalctl") (
        bytes "--quiet"
        ∷ bytes "--no-pager"
        ∷ bytes "--unit=apt-daily-upgrade.service"
        ∷ bytes "--since"
        ∷ (b'@' ∷ decimal (unix_seconds t))
        ∷ [])) [
          | not_run e ↦ f
          | answered r ↦
              let matches =
                filter_lines r.output (bytes "error" ∷ bytes "failed" ∷ bytes "traceback" ∷ []) in
              if exit_zero r && ltb 0 (length matches)
              then record {
                level = status_critical;
                issues = f.issues ++ join_limited matches 2 ∷ [];
              }
              else f
        ]

  unfoldable pub check_unattended_upgrades : ℤ → Time → Result
  unfolding newest_from
  check_unattended_upgrades max_hours last_run =
      let id = bytes "apt.unattended" in
      let title = bytes "Unattended upgrades" in
      let newest = newest_from host none (
        bytes "/var/lib/apt/periodic/unattended-upgrades-stamp"
        ∷ bytes "/var/lib/apt/periodic/upgrade-stamp"
        ∷ []) in
      let f = log_findings last_run (service_findings (stamp_findings max_hours newest)) in
      if not (host.exists (bytes "/usr/bin/unattended-upgrade"))
      then problem id title status_warning (bytes "unattended-upgrades is not installed") false
      else if status_eq f.level status_ok
      then elim newest [
        | none ↦ ok id title (bytes "No errors detected")
        | some (t, stamp) ↦ ok id title (
            bytes "Last successful run was "
            ++ human_duration float (sub_time host.now t)
            ++ bytes " ago ("
            ++ stamp
            ++ bytes ")")
      ]
      else problem id title f.level (join (bytes "; ") f.issues) (status_eq f.level status_critical)

  unfoldable pub reboot_of : FileText → Result
  reboot_of absent =
      ok (bytes "reboot.required") (bytes "Reboot required") (bytes "No reboot is required")
  reboot_of (unreadable e) =
      problem (bytes "reboot.required") (bytes "Reboot required") status_warning e false
  reboot_of (text s) =
      let clean = trim_space s in
      let message = if is_empty clean then bytes "A reboot is required" else clean in
      let told : Text = elim (host.modified (bytes "/var/run/reboot-required")) [
        | none ↦ message
        | some t ↦ message ++ bytes "; marker age " ++ human_duration float (sub_time host.now t)
      ] in
      problem (bytes "reboot.required") (bytes "Reboot required") status_warning told false

  unfoldable pub check_reboot_required : Result
  check_reboot_required = reboot_of (host.read (bytes "/var/run/reboot-required"))
