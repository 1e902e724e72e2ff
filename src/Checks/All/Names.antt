-- ===== src/Checks/All/Names.antt =====
-- The names of the results: `Evaluate` and `Baseline` tell the checks of a run apart by them.
use gotify_vps_agent.Prelude.{ℕ, ◌≡◌, Bool, List, Option, arith}
use gotify_vps_agent.Prelude.Int.{ℤ}
use gotify_vps_agent.Prelude.Text.{Text, bytes}
use gotify_vps_agent.Prelude.Dict.{Dict}
use gotify_vps_agent.Clock.{Time}
use gotify_vps_agent.Config.{Thresholds}
use gotify_vps_agent.Checks.{
  Mount, FilesystemUsage, ok, problem, check_usage, check_disk, check_inode, check_read_only,
  check_agent_freshness, delivery_queue,
}
use gotify_vps_agent.Checks.Host.{Host, Floats, FileText}
use gotify_vps_agent.Checks.Memory.{check_memory, check_swap, check_load, load_of, judge_load}
use gotify_vps_agent.Checks.Kernel.{
  JournalSnapshot, judge_journal, journal_problem, check_oom, check_kernel_errors,
}
use gotify_vps_agent.Checks.Programs.{
  check_systemd_failed, check_apt, check_dpkg, check_apt_timers, check_needrestart, judge_kernel,
  check_time_sync, check_agent_timer,
}
use gotify_vps_agent.Checks.Upgrades.{check_unattended_upgrades, check_reboot_required, reboot_of}

pub check_systemd_failed-id :
    (host : Host) → (check_systemd_failed host).id ≡ bytes "systemd.failed"
unfolding check_systemd_failed ok problem
check_systemd_failed-id host = ground arith

pub check_disk-id :
    {F : Type 0} (reaches less : F → F → Bool) (percent : F → Text)
    (values : List (FilesystemUsage F)) (t : Thresholds F)
    → (check_disk reaches less percent values t).id ≡ bytes "filesystem.disk"
unfolding check_disk check_usage ok problem
check_disk-id reaches less percent values t = ground arith

pub check_inode-id :
    {F : Type 0} (reaches less : F → F → Bool) (percent : F → Text)
    (values : List (FilesystemUsage F)) (t : Thresholds F)
    → (check_inode reaches less percent values t).id ≡ bytes "filesystem.inode"
unfolding check_inode check_usage ok problem
check_inode-id reaches less percent values t = ground arith

pub check_read_only-id :
    (mounts : List Mount) (failed : Bool)
    → (check_read_only mounts failed).id ≡ bytes "filesystem.readonly"
unfolding check_read_only ok problem
check_read_only-id mounts failed = ground arith

pub check_memory-id :
    {F : Type 0} (float : Floats F) (host : Host) (t : Thresholds F) (values : Dict ℕ)
    → (check_memory float host t values).id ≡ bytes "memory.available"
unfolding check_memory ok problem
check_memory-id float host t values = ground arith

pub check_swap-id :
    {F : Type 0} (float : Floats F) (host : Host) (t : Thresholds F) (values : Dict ℕ)
    → (check_swap float host t values).id ≡ bytes "memory.swap"
unfolding check_swap ok problem
check_swap-id float host t values = ground arith

pub check_oom-id :
    (hex_digest : Text → Text) (journal : JournalSnapshot)
    → (check_oom hex_digest journal).id ≡ bytes "memory.oom"
unfolding check_oom judge_journal journal_problem ok problem
check_oom-id hex_digest journal = ground arith

pub load_of-id :
    {F : Type 0} (float : Floats F) (host : Host) (t : Thresholds F) (file : FileText)
    → (load_of float host t file).id ≡ bytes "cpu.load"
unfolding load_of judge_load ok problem
load_of-id float host t file = ground arith

pub check_load-id :
    {F : Type 0} (float : Floats F) (host : Host) (t : Thresholds F)
    → (check_load float host t).id ≡ bytes "cpu.load"
unfolding check_load
check_load-id float host t = load_of-id float host t (host.read _)

pub check_kernel_errors-id :
    (hex_digest : Text → Text) (journal : JournalSnapshot)
    → (check_kernel_errors hex_digest journal).id ≡ bytes "kernel.errors"
unfolding check_kernel_errors judge_journal journal_problem ok problem
check_kernel_errors-id hex_digest journal = ground arith

pub check_apt-id : (host : Host) → (check_apt host).id ≡ bytes "apt.check"
unfolding check_apt ok problem
check_apt-id host = ground arith

pub check_dpkg-id : (host : Host) → (check_dpkg host).id ≡ bytes "dpkg.audit"
unfolding check_dpkg ok problem
check_dpkg-id host = ground arith

pub check_apt_timers-id : (host : Host) → (check_apt_timers host).id ≡ bytes "apt.timers"
unfolding check_apt_timers ok problem
check_apt_timers-id host = ground arith

pub check_unattended_upgrades-id :
    {F : Type 0} (float : Floats F) (host : Host) (hours : ℤ) (last_run : Time)
    → (check_unattended_upgrades float host hours last_run).id ≡ bytes "apt.unattended"
unfolding check_unattended_upgrades ok problem
check_unattended_upgrades-id float host hours last_run = ground arith

pub reboot_of-id :
    {F : Type 0} (float : Floats F) (host : Host) (file : FileText)
    → (reboot_of float host file).id ≡ bytes "reboot.required"
unfolding reboot_of ok problem
reboot_of-id float host file = ground arith

pub check_reboot_required-id :
    {F : Type 0} (float : Floats F) (host : Host)
    → (check_reboot_required float host).id ≡ bytes "reboot.required"
unfolding check_reboot_required
check_reboot_required-id float host = reboot_of-id float host (host.read _)

pub check_needrestart-id : (host : Host) → (check_needrestart host).id ≡ bytes "kernel.needrestart"
unfolding check_needrestart judge_kernel ok problem
check_needrestart-id host = ground arith

pub check_time_sync-id : (host : Host) → (check_time_sync host).id ≡ bytes "time.sync"
unfolding check_time_sync ok problem
check_time_sync-id host = ground arith

pub check_agent_timer-id : (host : Host) → (check_agent_timer host).id ≡ bytes "agent.timer"
unfolding check_agent_timer ok problem
check_agent_timer-id host = ground arith

pub check_agent_freshness-id :
    (human : ℤ → Text) (parsed : Option ℤ) (last_run now : Time)
    → (check_agent_freshness human parsed last_run now).id ≡ bytes "agent.freshness"
unfolding check_agent_freshness ok problem
check_agent_freshness-id human parsed last_run now = ground arith

pub delivery_queue-id :
    (queued attempts : ℤ) (oldest now : Time)
    → (delivery_queue queued attempts oldest now).id ≡ bytes "delivery.queue"
unfolding delivery_queue ok problem
delivery_queue-id queued attempts oldest now = ground arith
