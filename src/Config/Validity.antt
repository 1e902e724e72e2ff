-- ===== src/Config/Validity.antt =====
-- internal/config: `Validate`, its tests in the order of the source. The services are tested in the
-- order of their list; Go visits a map in no fixed order, which can only change the error reported.
use gotify_vps_agent.Prelude.{
  ℕ, Bool, true, false, not, ◌&&◌, ◌||◌, [], ◌∷◌, Option, none, some, leb, ◌==◌, if◌then◌else◌,
  length,
}
use gotify_vps_agent.Prelude.Int.{ℤ, pos, ltb_ℤ, eqb_ℤ}
use gotify_vps_agent.Prelude.Text.{Text, bytes, text_eq, is_empty}
use gotify_vps_agent.Prelude.Dict.{Dict}
use gotify_vps_agent.Config.{Agent, Thresholds, Config, Go, default_state_dir, default_token_path}

pub data ConfigError : Type 0 where
  bad_version bad_hostname bad_interval bad_state_dir bad_token_file bad_counters : ConfigError
  bad_reminders bad_timeout empty_url bad_proxy bad_percentages bad_memory bad_load : ConfigError
  bad_upgrade_age unsupported_service bad_unit : ConfigError

abbrev is_alnum : ℕ → Bool
is_alnum b = (leb b'A' b && leb b b'Z') || (leb b'a' b && leb b b'z') || (leb b'0' b && leb b b'9')

all_bytes : (ℕ → Bool) → Text → Bool
all_bytes p [] = true
all_bytes p (b ∷ s) = p b && all_bytes p s

-- The pattern ^[A-Za-z0-9][A-Za-z0-9._-]{0,62}$
unfoldable pub is_hostname : Text → Bool
unfolding all_bytes
is_hostname [] = false
is_hostname (b ∷ s) =
    is_alnum b
    && leb (length s) 62
    && all_bytes (λ c. is_alnum c || c == b'.' || c == b'_' || c == b'-') s

unit_byte : ℕ → Bool
unit_byte b = is_alnum b || b == b'_' || b == b'.' || b == b'@' || b == b':' || b == b'-'

-- Bytes of the class, as many as there are, and the suffix ".service" at the end.
unit_tail : Text → Bool
unfolding unit_byte
unit_tail [] = false
unit_tail (b ∷ s) = text_eq (b ∷ s) (bytes ".service") || (unit_byte b && unit_tail s)

-- `!strings.HasPrefix(unit, "-")` and the pattern ^[A-Za-z0-9_.@:-]+\.service$
unfoldable pub is_unit : Text → Bool
unfolding unit_byte unit_tail
is_unit [] = false
is_unit (b ∷ s) = not (b == b'-') && unit_byte b && unit_tail s

unfoldable pub is_allowed_service : Text → Bool
is_allowed_service id =
    text_eq id (bytes "ssh")
    || text_eq id (bytes "nginx")
    || text_eq id (bytes "php-fpm")
    || text_eq id (bytes "mariadb")
    || text_eq id (bytes "postgresql")
    || text_eq id (bytes "tor")

-- `value < lo || value > hi`
abbrev pub outside : ℤ → ℤ → ℤ → Bool
outside lo hi value = ltb_ℤ value lo || ltb_ℤ hi value

-- A duration that does not parse or lies outside the bounds.
abbrev pub bad_duration : Option ℤ → ℕ → ℕ → Bool
bad_duration none lo hi = true
bad_duration (some d) lo hi = outside (pos lo) (pos hi) d

-- The test of the loop over `pairs`. `b <= a` of two finite numbers is not `a < b`.
unfoldable pub bad_pair : {F : Type 0} → Go F → F → F → F → Bool
bad_pair go low high top =
    not (go.finite low)
    || not (go.finite high)
    || go.less low (go.tenths 0)
    || not (go.less low high)
    || go.less top high

unfoldable pub bad_memory_pair : {F : Type 0} → Go F → Thresholds F → Bool
bad_memory_pair go t =
    not (go.finite t.memory_available_critical)
    || not (go.finite t.memory_available_warning)
    || go.less t.memory_available_critical (go.tenths 0)
    || not (go.less t.memory_available_critical t.memory_available_warning)
    || go.less (go.tenths 1000) t.memory_available_warning

unfoldable pub bad_load_pair : {F : Type 0} → Go F → Thresholds F → Bool
bad_load_pair go t =
    not (go.finite t.load_warning_per_cpu)
    || not (go.finite t.load_critical_per_cpu)
    || not (go.less (go.tenths 0) t.load_warning_per_cpu)
    || not (go.less t.load_warning_per_cpu t.load_critical_per_cpu)
    || go.less (go.tenths 10000) t.load_critical_per_cpu

unfoldable pub validate_services : Dict Text → Option ConfigError
validate_services [] = none
validate_services ((id, unit) ∷ rest) =
    let later = validate_services rest in
    if not (is_allowed_service id)
    then some unsupported_service
    else if not (is_unit unit)
    then some bad_unit
    else later

unfoldable pub validate_thresholds : {F : Type 0} → Go F → Thresholds F → Option ConfigError
validate_thresholds go t =
    if bad_pair go t.disk_warning t.disk_critical (go.tenths 1000)
      || bad_pair go t.inode_warning t.inode_critical (go.tenths 1000)
      || bad_pair go t.swap_warning t.swap_critical (go.tenths 1000)
    then some bad_percentages
    else if bad_memory_pair go t
    then some bad_memory
    else if bad_load_pair go t
    then some bad_load
    else if outside (pos 1) (pos 8760) t.unattended_upgrade_max_age_hours
    then some bad_upgrade_age
    else none

unfoldable pub validate_agent : {F : Type 0} → Go F → Agent → Text → Option ConfigError
validate_agent go agent token_file =
    if not (is_hostname agent.hostname)
    then some bad_hostname
    else if bad_duration (go.parse_duration agent.interval) 60000000000 86400000000000
    then some bad_interval
    else if not (text_eq agent.state_dir default_state_dir)
    then some bad_state_dir
    else if not (text_eq token_file default_token_path)
    then some bad_token_file
    else if outside (pos 1) (pos 100) agent.warning_failures
        || outside (pos 1) (pos 100) agent.recovery_successes
    then some bad_counters
    else if outside (pos 0) (pos 8760) agent.warning_reminder_hours
        || outside (pos 0) (pos 8760) agent.critical_reminder_hours
    then some bad_reminders
    else none

abbrev or_else : Option ConfigError → Option ConfigError → Option ConfigError
or_else (some e) later = some e
or_else none later = later

unfoldable pub validate : {F : Type 0} → Go F → Config F → Option ConfigError
validate go cfg =
    if not (eqb_ℤ cfg.version (pos 1))
    then some bad_version
    else or_else (validate_agent go cfg.agent cfg.gotify.token_file) (
        if bad_duration (go.parse_duration cfg.gotify.timeout) 1000000000 60000000000
        then some bad_timeout
        else if is_empty cfg.gotify.url
        then some empty_url
        else if not (go.proxy_accepted cfg.gotify.proxy_url)
        then some bad_proxy
        else or_else (validate_thresholds go cfg.thresholds) (validate_services cfg.services))
