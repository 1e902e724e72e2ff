-- ===== src/Checks/All.antt =====
-- internal/checks: `Run`, all the checks that the settings enable, in their order.
pub mod Names
pub mod Apart
use gotify_vps_agent.Prelude.{
  ℕ, Bool, true, false, not, ◌&&◌, ◌||◌, List, [], ◌∷◌, ◌++◌, Option, none, some, if◌then◌else◌,
}
use gotify_vps_agent.Prelude.Int.{ℤ}
use gotify_vps_agent.Prelude.Text.{Text, bytes}
use gotify_vps_agent.Clock.{Time}
use gotify_vps_agent.Model.{Result}
use gotify_vps_agent.Config.{Config, Go, journal_cursor_path}
use gotify_vps_agent.Checks.{
  Mount, FilesystemUsage, check_disk, check_inode, check_read_only, check_agent_freshness,
}
use gotify_vps_agent.Checks.Host.{Host, Floats, FileText, absent, unreadable, text, human_duration}
use gotify_vps_agent.Checks.Mounts.{parse_mount_info, inspect_filesystems}
use gotify_vps_agent.Checks.Memory.{read_mem_info, check_memory, check_swap, check_load}
use gotify_vps_agent.Checks.Kernel.{
  JournalSnapshot, RawEntry, collect_kernel_journal, check_oom, check_kernel_errors,
}
use gotify_vps_agent.Checks.Programs.{
  check_systemd_failed, check_apt, check_dpkg, check_apt_timers, check_needrestart, check_time_sync,
  check_agent_timer,
}
use gotify_vps_agent.Checks.Upgrades.{check_unattended_upgrades, check_reboot_required}
use gotify_vps_agent.Checks.Services.{check_services}

-- `readMounts`: the mounts, and whether the table could not be read to its end.
unfoldable pub read_mounts : FileText → List Mount × Bool
read_mounts (text s) = parse_mount_info s
read_mounts absent = ([], true)
read_mounts (unreadable e) = ([], true)

pub record RunOutput : Type 0 where
  pub results : List Result
  pub journal_cursor : Text

-- `if enabled { results = append(results, check()) }`, one after the other.
unfoldable pub enabled_results : List (Bool × Result) → List Result
enabled_results [] = []
enabled_results ((enabled, r) ∷ rest) =
    let others = enabled_results rest in if enabled then r ∷ others else others

module _ {F : Type 0} (float : Floats F) (go : Go F) (hex_digest : Text → Text)
    (json_entry : Text → Option RawEntry) (host : Host) where
  unfoldable pub journal_of : Config F → Time → JournalSnapshot
  journal_of cfg last_run =
      if cfg.checks.oom || cfg.checks.kernel_errors
      then collect_kernel_journal host json_entry (host.read (journal_cursor_path cfg)) last_run
      else record { output = []; cursor = []; err = none; entries = [] }

  -- The checks in their order, given what was read once for several of them.
  unfoldable pub slots :
      Config F → Time → JournalSnapshot → List Mount → Bool → List (Bool × Result)
  slots cfg last_run journal mounts failed =
      let filesystems = inspect_filesystems float host mounts in
      let memory = read_mem_info (host.read (bytes "/proc/meminfo")) in
      let t = cfg.thresholds in
      (cfg.checks.systemd_failed, check_systemd_failed host)
      ∷ (cfg.checks.disk, check_disk float.reaches float.less (float.fixed 1) filesystems t)
      ∷ (cfg.checks.inode, check_inode float.reaches float.less (float.fixed 1) filesystems t)
      ∷ (cfg.checks.filesystem_read_only, check_read_only mounts failed)
      ∷ (cfg.checks.memory, check_memory float host t memory)
      ∷ (cfg.checks.swap, check_swap float host t memory)
      ∷ (cfg.checks.oom, check_oom hex_digest journal)
      ∷ (cfg.checks.load, check_load float host t)
      ∷ (cfg.checks.kernel_errors, check_kernel_errors hex_digest journal)
      ∷ (cfg.checks.apt, check_apt host)
      ∷ (cfg.checks.dpkg, check_dpkg host)
      ∷ (cfg.checks.apt_timers, check_apt_timers host)
      ∷ (
        cfg.checks.unattended_upgrades,
        check_unattended_upgrades float host t.unattended_upgrade_max_age_hours last_run,
      )
      ∷ (cfg.checks.reboot_required, check_reboot_required float host)
      ∷ (cfg.checks.needrestart, check_needrestart host)
      ∷ (cfg.checks.time_sync, check_time_sync host)
      ∷ (cfg.checks.agent_timer, check_agent_timer host)
      ∷ (
        cfg.checks.agent_freshness,
        check_agent_freshness (human_duration float) (go.parse_duration cfg.agent.interval) last_run
            host.now,
      )
      ∷ []

  unfoldable pub results_of : Config F → Time → JournalSnapshot → List Mount → Bool → List Result
  results_of cfg last_run journal mounts failed =
      enabled_results (slots cfg last_run journal mounts failed) ++ check_services host cfg.services

  unfoldable pub run : Config F → Time → RunOutput
  run cfg last_run =
      let journal = journal_of cfg last_run in
      let table = read_mounts (host.read (bytes "/proc/1/mountinfo")) in
      record {
        results = results_of cfg last_run journal table.0 table.1;
        journal_cursor = journal.cursor;
      }
