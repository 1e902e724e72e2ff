-- ===== src/Checks.antt =====
-- internal/checks: what the health checks conclude from what they have read. What they read is an
-- argument: the mounted filesystems, the pages of the journal, the times.
pub mod Levels
pub mod Journal
pub mod Host
pub mod Mounts
pub mod Memory
pub mod Kernel
pub mod Programs
pub mod Upgrades
pub mod Services
pub mod All
use gotify_vps_agent.Prelude.{
  ℕ, zero, suc, ◌-◌, Bool, true, false, not, ◌&&◌, ◌||◌, List, [], ◌∷◌, ◌++◌, Option, none, some,
  ltb, leb, ◌==◌, if◌then◌else◌, length, take,
}
use gotify_vps_agent.Prelude.Int.{ℤ, pos, ltb_ℤ, leb_ℤ, eqb_ℤ, scale64}
use gotify_vps_agent.Prelude.Text.{Text, bytes, is_empty, decimal}
use gotify_vps_agent.Strings.{trim_space}
use gotify_vps_agent.Strings.Search.{join}
use gotify_vps_agent.Textsafe.{sanitize}
use gotify_vps_agent.Clock.{Time, is_zero, hour, sub_time}
use gotify_vps_agent.Model.{
  Status, status_ok, status_warning, status_critical, status_other, status_eq, Result,
}
use gotify_vps_agent.Config.{Thresholds, Go}

-- The map `order`, which has 0 for a missing key.
abbrev pub rank : Status → ℕ
rank status_ok = 0
rank status_warning = 1
rank status_critical = 2
rank (status_other s) = 0

unfoldable pub higher : Status → Status → Status
higher left right = if ltb (rank left) (rank right) then right else left

-- `reaches value limit` is `value >= limit` on float64.
unfoldable pub threshold_high : {F : Type 0} → (F → F → Bool) → F → F → F → Status
threshold_high reaches value warning critical =
    if reaches value critical
    then status_critical
    else if reaches value warning
    then status_warning
    else status_ok

no_output : Text
no_output = bytes "No diagnostic output"

unfoldable pub limit_message : Text → Text
unfolding no_output
limit_message value =
    let clean = sanitize (trim_space value) (pos 4096) in
    if is_empty clean then no_output else clean

unfoldable pub ok : Text → Text → Text → Result
ok id title message = record {
  id = id;
  title = title;
  status = status_ok;
  message = limit_message message;
  immediate = false;
  occurrence = [];
}

unfoldable pub problem : Text → Text → Status → Text → Bool → Result
unfolding no_output
problem id title level message immediate = record {
  id = id;
  title = title;
  status = level;
  message = limit_message (if is_empty (trim_space message) then no_output else message);
  immediate = immediate;
  occurrence = [];
}

-- `DeliveryQueue`; `now` is the time that time.Since reads.
unfoldable pub delivery_queue : ℤ → ℤ → Time → Time → Result
delivery_queue queued attempts oldest now =
    let id = bytes "delivery.queue" in
    let title = bytes "Gotify delivery queue" in
    let late = not (is_zero oldest) && leb_ℤ (pos 86400000000000) (sub_time now oldest) in
    let level = if leb_ℤ (pos 5) attempts || late then status_critical else status_warning in
    if eqb_ℤ queued (pos 0)
    then ok id title (bytes "No undelivered notifications")
    else problem id title level (bytes "Gotify delivery queue is not empty") false

-- `checkAgentFreshness`; `parsed` is the interval parsed, `human` is `humanDuration`.
unfoldable pub check_agent_freshness : (ℤ → Text) → Option ℤ → Time → Time → Result
check_agent_freshness human parsed last_run now =
    let id = bytes "agent.freshness" in
    let title = bytes "Agent execution freshness" in
    let age = sub_time now last_run in
    let message = bytes "Previous completed run was " ++ human age ++ bytes " ago" in
    if is_zero last_run
    then ok id title (bytes "No previous run is expected during initial setup")
    else elim parsed [
      | none ↦ problem id title status_warning (bytes "Unable to parse configured interval") false
      | some interval ↦
          if ltb_ℤ (scale64 interval 6) age
          then problem id title status_critical message true
          else if ltb_ℤ (scale64 interval 3) age
          then problem id title status_warning message true
          else ok id title message
    ]

pub record Mount : Type 0 where
  pub path : Text
  pub kind : Text
  pub source : Text
  pub read_only : Bool

-- A filesystem, and its usage or the text of the error that kept it from being inspected.
pub record FilesystemUsage (F : Type 0) : Type 0 where
  pub mount : Mount
  pub disk_used : F
  pub inode_used : F
  pub err : Option Text

module _ {F : Type 0} (reaches : F → F → Bool) (less : F → F → Bool) (percent : F → Text) where
  -- What the loops of `checkDisk` and `checkInode` carry.
  pub record Usage : Type 0 where
    pub level : Status
    pub issues : List Text
    pub worst : FilesystemUsage F

  -- One filesystem. `used` is the field that the check reads.
  unfoldable pub usage_step : (FilesystemUsage F → F) → F → F → FilesystemUsage F → Usage → Usage
  usage_step used warning critical value u =
      let current = threshold_high reaches (used value) warning critical in
      let issue = value.mount.path ++ bytes " " ++ percent (used value) ++ bytes "%" in
      elim value.err [
        | some e ↦ record u {
          level = higher u.level status_warning;
          issues = u.issues ++ (value.mount.path ++ bytes " could not be inspected: " ++ e) ∷ [];
        }
        | none ↦ record {
          level = higher u.level current;
          issues = if status_eq current status_ok then u.issues else u.issues ++ issue ∷ [];
          worst = if less (used u.worst) (used value) then value else u.worst;
        }
      ]

  unfoldable pub usage_from :
      (FilesystemUsage F → F) → F → F → List (FilesystemUsage F) → Usage → Usage
  usage_from used warning critical [] u = u
  usage_from used warning critical (value ∷ rest) u =
      usage_from used warning critical rest (usage_step used warning critical value u)

  -- The body that `checkDisk` and `checkInode` have in common.
  unfoldable pub check_usage :
      (FilesystemUsage F → F) → F → F → Text → Text → List (FilesystemUsage F) → Result
  check_usage used warning critical id title [] =
      problem id title status_warning (bytes "No local filesystems could be inspected") false
  check_usage used warning critical id title (first ∷ rest) =
      let u =
        usage_from used warning critical (first ∷ rest)
          (record { level = status_ok; issues = []; worst = first }) in
      if status_eq u.level status_ok
      then ok id title (
          bytes "Highest usage is "
          ++ percent (used u.worst)
          ++ bytes "% on "
          ++ u.worst.mount.path)
      else problem id title u.level (join (bytes "; ") u.issues) (status_eq u.level status_critical)

  unfoldable pub check_disk : List (FilesystemUsage F) → Thresholds F → Result
  check_disk values t =
      check_usage (λ v. v.disk_used) t.disk_warning t.disk_critical (bytes "filesystem.disk")
        (bytes "Disk usage") values

  unfoldable pub check_inode : List (FilesystemUsage F) → Thresholds F → Result
  check_inode values t =
      check_usage (λ v. v.inode_used) t.inode_warning t.inode_critical (bytes "filesystem.inode")
        (bytes "Inode usage") values

read_only_paths : List Mount → List Text
read_only_paths [] = []
read_only_paths (m ∷ rest) =
    let others = read_only_paths rest in if m.read_only then m.path ∷ others else others

-- `checkReadOnly`; `failed` tells whether the mount table could not be read.
unfoldable pub check_read_only : List Mount → Bool → Result
unfolding read_only_paths
check_read_only mounts failed =
    let id = bytes "filesystem.readonly" in
    let title = bytes "Read-only filesystems" in
    let paths = read_only_paths mounts in
    if failed
    then problem id title status_warning (bytes "Host mount table could not be inspected") false
    else if length mounts == 0
    then problem id title status_warning
        (bytes "No local filesystems were found in the host mount table") false
    else if length paths == 0
    then ok id title (bytes "All monitored local filesystems are writable")
    else problem id title status_critical (join (bytes ", ") paths) true

-- `joinLimited` of a list, with a positive limit.
unfoldable pub join_limited : List Text → ℕ → Text
join_limited lines limit =
    if leb (length lines) limit
    then join (bytes "; ") lines
    else join (bytes "; ") (take limit lines)
      ++ bytes "; and "
      ++ decimal (pos (length lines - limit))
      ++ bytes " more"
