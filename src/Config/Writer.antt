-- ===== src/Config/Writer.antt =====
-- internal/config: `Marshal`, the text of the settings.
use gotify_vps_agent.Prelude.{Bool, [], ◌∷◌, ◌++◌, none, some, if◌then◌else◌}
use gotify_vps_agent.Prelude.Int.{ℤ}
use gotify_vps_agent.Prelude.Text.{Text, bytes, decimal}
use gotify_vps_agent.Prelude.Dict.{Dict, sort_keys}
use gotify_vps_agent.Config.{Agent, Gotify, Thresholds, Checks, Config, Go}
use gotify_vps_agent.Config.Validity.{ConfigError, validate}

-- `fmt.Fprintf(&b, "%s = ...\n", key, ...)` of a value in text.
abbrev line : Text → Text → Text
line key text = key ++ bytes " = " ++ text ++ 10 ∷ []

abbrev write_bool : Text → Bool → Text
write_bool key b = line key (if b then bytes "true" else bytes "false")

abbrev write_int : Text → ℤ → Text
write_int key n = line key (decimal n)

unfoldable pub write_agent : {F : Type 0} → Go F → Agent → Text
write_agent go agent =
    line (bytes "hostname") (go.quote agent.hostname)
    ++ line (bytes "interval") (go.quote agent.interval)
    ++ line (bytes "state_dir") (go.quote agent.state_dir)
    ++ write_int (bytes "warning_failures") agent.warning_failures
    ++ write_int (bytes "recovery_successes") agent.recovery_successes
    ++ write_bool (bytes "notify_recovery") agent.notify_recovery
    ++ write_int (bytes "warning_reminder_hours") agent.warning_reminder_hours
    ++ write_int (bytes "critical_reminder_hours") agent.critical_reminder_hours

unfoldable pub write_gotify : {F : Type 0} → Go F → Gotify → Text
write_gotify go gotify =
    line (bytes "url") (go.quote gotify.url)
    ++ line (bytes "token_file") (go.quote gotify.token_file)
    ++ line (bytes "timeout") (go.quote gotify.timeout)
    ++ write_bool (bytes "allow_insecure_http") gotify.allow_insecure_http
    ++ line (bytes "proxy_url") (go.quote gotify.proxy_url)

unfoldable pub write_thresholds : {F : Type 0} → Go F → Thresholds F → Text
write_thresholds go thresholds =
    line (bytes "disk_warning") (go.format_float thresholds.disk_warning)
    ++ line (bytes "disk_critical") (go.format_float thresholds.disk_critical)
    ++ line (bytes "inode_warning") (go.format_float thresholds.inode_warning)
    ++ line (bytes "inode_critical") (go.format_float thresholds.inode_critical)
    ++ line (bytes "memory_available_warning") (go.format_float thresholds.memory_available_warning)
    ++ line (bytes "memory_available_critical")
        (go.format_float thresholds.memory_available_critical)
    ++ line (bytes "swap_warning") (go.format_float thresholds.swap_warning)
    ++ line (bytes "swap_critical") (go.format_float thresholds.swap_critical)
    ++ line (bytes "load_warning_per_cpu") (go.format_float thresholds.load_warning_per_cpu)
    ++ line (bytes "load_critical_per_cpu") (go.format_float thresholds.load_critical_per_cpu)
    ++ write_int (bytes "unattended_upgrade_max_age_hours")
        thresholds.unattended_upgrade_max_age_hours

unfoldable pub write_checks : Checks → Text
write_checks checks =
    write_bool (bytes "systemd_failed") checks.systemd_failed
    ++ write_bool (bytes "disk") checks.disk
    ++ write_bool (bytes "inode") checks.inode
    ++ write_bool (bytes "filesystem_read_only") checks.filesystem_read_only
    ++ write_bool (bytes "memory") checks.memory
    ++ write_bool (bytes "swap") checks.swap
    ++ write_bool (bytes "oom") checks.oom
    ++ write_bool (bytes "load") checks.load
    ++ write_bool (bytes "kernel_errors") checks.kernel_errors
    ++ write_bool (bytes "apt") checks.apt
    ++ write_bool (bytes "dpkg") checks.dpkg
    ++ write_bool (bytes "apt_timers") checks.apt_timers
    ++ write_bool (bytes "unattended_upgrades") checks.unattended_upgrades
    ++ write_bool (bytes "reboot_required") checks.reboot_required
    ++ write_bool (bytes "needrestart") checks.needrestart
    ++ write_bool (bytes "time_sync") checks.time_sync
    ++ write_bool (bytes "agent_timer") checks.agent_timer
    ++ write_bool (bytes "agent_freshness") checks.agent_freshness
    ++ write_bool (bytes "delivery_queue") checks.delivery_queue

unfoldable pub write_services : {F : Type 0} → Go F → Dict Text → Text
write_services go [] = []
write_services go ((id, unit) ∷ rest) = line id (go.quote unit) ++ write_services go rest

unfoldable pub write : {F : Type 0} → Go F → Config F → Text
write go cfg =
    write_int (bytes "version") cfg.version
    ++ 10 ∷ bytes "[agent]"
    ++ 10 ∷ write_agent go cfg.agent
    ++ 10 ∷ bytes "[gotify]"
    ++ 10 ∷ write_gotify go cfg.gotify
    ++ 10 ∷ bytes "[thresholds]"
    ++ 10 ∷ write_thresholds go cfg.thresholds
    ++ 10 ∷ bytes "[checks]"
    ++ 10 ∷ write_checks cfg.checks
    ++ 10 ∷ bytes "[services]"
    ++ 10 ∷ write_services go (sort_keys cfg.services)

pub data Marshalled : Type 0 where
  marshalled : Text → Marshalled
  marshal_refused : ConfigError → Marshalled

unfoldable pub marshal : {F : Type 0} → Go F → Config F → Marshalled
marshal go cfg = elim (validate go cfg) [
  | some e ↦ marshal_refused e
  | none ↦ marshalled (write go cfg)
]
