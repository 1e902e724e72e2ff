-- ===== src/Config/Sections.antt =====
-- internal/config: `assign`, one section of the file at a time. Each returns the settings after the
-- assignment and its error, as the source writes through the pointer before it returns.
use gotify_vps_agent.Prelude.{Bool, ◌||◌, ◌&&◌, Option, none, some, if◌then◌else◌}
use gotify_vps_agent.Prelude.Text.{Text, bytes, text_eq, is_empty}
use gotify_vps_agent.Prelude.Dict.{insert}
use gotify_vps_agent.Config.{Agent, Gotify, Thresholds, Checks, Config, Go}
use gotify_vps_agent.Config.Values.{
  AssignError, unknown_key, empty_service, int_value, bool_value, string_value, float_value,
}

unfoldable pub assign_agent : {F : Type 0} → Go F → Agent → Text → Text → Agent × Option AssignError
assign_agent go agent key raw =
    let string = string_value go raw in
    let int = int_value raw in
    let bool = bool_value raw in
    if text_eq key (bytes "hostname")
    then (record agent { hostname = string.value }, string.error)
    else if text_eq key (bytes "interval")
    then (record agent { interval = string.value }, string.error)
    else if text_eq key (bytes "state_dir")
    then (record agent { state_dir = string.value }, string.error)
    else if text_eq key (bytes "warning_failures")
    then (record agent { warning_failures = int.value }, int.error)
    else if text_eq key (bytes "recovery_successes")
    then (record agent { recovery_successes = int.value }, int.error)
    else if text_eq key (bytes "notify_recovery")
    then (record agent { notify_recovery = bool.value }, bool.error)
    else if text_eq key (bytes "warning_reminder_hours")
    then (record agent { warning_reminder_hours = int.value }, int.error)
    else if text_eq key (bytes "critical_reminder_hours")
    then (record agent { critical_reminder_hours = int.value }, int.error)
    else (agent, some unknown_key)

unfoldable pub assign_gotify :
    {F : Type 0} → Go F → Gotify → Text → Text → Gotify × Option AssignError
assign_gotify go gotify key raw =
    let string = string_value go raw in
    let bool = bool_value raw in
    if text_eq key (bytes "url")
    then (record gotify { url = string.value }, string.error)
    else if text_eq key (bytes "token_file")
    then (record gotify { token_file = string.value }, string.error)
    else if text_eq key (bytes "timeout")
    then (record gotify { timeout = string.value }, string.error)
    else if text_eq key (bytes "allow_insecure_http")
    then (record gotify { allow_insecure_http = bool.value }, bool.error)
    else if text_eq key (bytes "proxy_url")
    then (record gotify { proxy_url = string.value }, string.error)
    else (gotify, some unknown_key)

unfoldable pub assign_thresholds :
    {F : Type 0} → Go F → Thresholds F → Text → Text → (Thresholds F) × Option AssignError
assign_thresholds go thresholds key raw =
    let float = float_value go raw in
    let int = int_value raw in
    if text_eq key (bytes "disk_warning")
    then (record thresholds { disk_warning = float.value }, float.error)
    else if text_eq key (bytes "disk_critical")
    then (record thresholds { disk_critical = float.value }, float.error)
    else if text_eq key (bytes "inode_warning")
    then (record thresholds { inode_warning = float.value }, float.error)
    else if text_eq key (bytes "inode_critical")
    then (record thresholds { inode_critical = float.value }, float.error)
    else if text_eq key (bytes "memory_available_warning")
    then (record thresholds { memory_available_warning = float.value }, float.error)
    else if text_eq key (bytes "memory_available_critical")
    then (record thresholds { memory_available_critical = float.value }, float.error)
    else if text_eq key (bytes "swap_warning")
    then (record thresholds { swap_warning = float.value }, float.error)
    else if text_eq key (bytes "swap_critical")
    then (record thresholds { swap_critical = float.value }, float.error)
    else if text_eq key (bytes "load_warning_per_cpu")
    then (record thresholds { load_warning_per_cpu = float.value }, float.error)
    else if text_eq key (bytes "load_critical_per_cpu")
    then (record thresholds { load_critical_per_cpu = float.value }, float.error)
    else if text_eq key (bytes "unattended_upgrade_max_age_hours")
    then (record thresholds { unattended_upgrade_max_age_hours = int.value }, int.error)
    else (thresholds, some unknown_key)

-- The switch of the section "checks", reached with the value read.
abbrev set_check : Checks → Text → Bool → Checks × Option AssignError
set_check checks key on =
    if text_eq key (bytes "systemd_failed")
    then (record checks { systemd_failed = on }, none)
    else if text_eq key (bytes "disk")
    then (record checks { disk = on }, none)
    else if text_eq key (bytes "inode")
    then (record checks { inode = on }, none)
    else if text_eq key (bytes "filesystem_read_only")
    then (record checks { filesystem_read_only = on }, none)
    else if text_eq key (bytes "memory")
    then (record checks { memory = on }, none)
    else if text_eq key (bytes "swap")
    then (record checks { swap = on }, none)
    else if text_eq key (bytes "oom")
    then (record checks { oom = on }, none)
    else if text_eq key (bytes "load")
    then (record checks { load = on }, none)
    else if text_eq key (bytes "kernel_errors")
    then (record checks { kernel_errors = on }, none)
    else if text_eq key (bytes "apt")
    then (record checks { apt = on }, none)
    else if text_eq key (bytes "dpkg")
    then (record checks { dpkg = on }, none)
    else if text_eq key (bytes "apt_timers")
    then (record checks { apt_timers = on }, none)
    else if text_eq key (bytes "unattended_upgrades")
    then (record checks { unattended_upgrades = on }, none)
    else if text_eq key (bytes "reboot_required")
    then (record checks { reboot_required = on }, none)
    else if text_eq key (bytes "needrestart")
    then (record checks { needrestart = on }, none)
    else if text_eq key (bytes "time_sync")
    then (record checks { time_sync = on }, none)
    else if text_eq key (bytes "agent_timer")
    then (record checks { agent_timer = on }, none)
    else if text_eq key (bytes "agent_freshness")
    then (record checks { agent_freshness = on }, none)
    else if text_eq key (bytes "delivery_queue")
    then (record checks { delivery_queue = on }, none)
    else (checks, some unknown_key)

unfoldable pub assign_checks : Checks → Text → Text → Checks × Option AssignError
assign_checks checks key raw =
    let bool = bool_value raw in
    elim bool.error [ some e ↦ (checks, some e) | none ↦ set_check checks key bool.value ]

unfoldable pub assign_services :
    {F : Type 0} → Go F → Config F → Text → Text → Config F × Option AssignError
assign_services go cfg key raw =
    let string = string_value go raw in
    elim string.error [
      | some e ↦ (cfg, some e)
      | none ↦
          if is_empty key || is_empty string.value
          then (cfg, some empty_service)
          else (record cfg { services = insert key string.value cfg.services }, none)
    ]

-- The switch over the sections, after the test for the key "version" outside them.
unfoldable pub assign :
    {F : Type 0} → Go F → Config F → Text → Text → Text → Config F × Option AssignError
assign go cfg section key raw =
    let version = int_value raw in
    let (agent, agent_error) = assign_agent go cfg.agent key raw in
    let (gotify, gotify_error) = assign_gotify go cfg.gotify key raw in
    let (thresholds, thresholds_error) = assign_thresholds go cfg.thresholds key raw in
    let (checks, checks_error) = assign_checks cfg.checks key raw in
    if is_empty section && text_eq key (bytes "version")
    then (record cfg { version = version.value }, version.error)
    else if text_eq section (bytes "agent")
    then (record cfg { agent = agent }, agent_error)
    else if text_eq section (bytes "gotify")
    then (record cfg { gotify = gotify }, gotify_error)
    else if text_eq section (bytes "thresholds")
    then (record cfg { thresholds = thresholds }, thresholds_error)
    else if text_eq section (bytes "checks")
    then (record cfg { checks = checks }, checks_error)
    else if text_eq section (bytes "services")
    then assign_services go cfg key raw
    else (cfg, some unknown_key)
