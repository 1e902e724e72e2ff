-- ===== src/Config.antt =====
-- internal/config: the settings, their defaults, and the paths that follow from them. `F` is the
-- type of float64 and `Go` what the package takes from Go's number and text conversions.
pub mod Line
pub mod Values
pub mod Sections
pub mod Reader
pub mod Writer
pub mod Validity
pub mod Accepted
pub mod Keys
pub mod Services
use mathlib.Core.List.{reverse}
use gotify_vps_agent.Prelude.{
  ℕ, zero, suc, Bool, true, false, List, [], ◌∷◌, ◌++◌, Option, none, some, ltb, ◌==◌,
  if◌then◌else◌, length,
}
use gotify_vps_agent.Prelude.Int.{ℤ, pos}
use gotify_vps_agent.Prelude.Text.{Text, bytes, is_empty}
use gotify_vps_agent.Prelude.Dict.{Dict}
use gotify_vps_agent.Strings.{trim_space}

pub record Agent : Type 0 where
  pub hostname : Text
  pub interval : Text
  pub state_dir : Text
  pub warning_failures : ℤ
  pub recovery_successes : ℤ
  pub notify_recovery : Bool
  pub warning_reminder_hours : ℤ
  pub critical_reminder_hours : ℤ

pub record Gotify : Type 0 where
  pub url : Text
  pub token_file : Text
  pub timeout : Text
  pub allow_insecure_http : Bool
  pub proxy_url : Text

pub record Thresholds (F : Type 0) : Type 0 where
  pub disk_warning : F
  pub disk_critical : F
  pub inode_warning : F
  pub inode_critical : F
  pub memory_available_warning : F
  pub memory_available_critical : F
  pub swap_warning : F
  pub swap_critical : F
  pub load_warning_per_cpu : F
  pub load_critical_per_cpu : F
  pub unattended_upgrade_max_age_hours : ℤ

pub record Checks : Type 0 where
  pub systemd_failed : Bool
  pub disk : Bool
  pub inode : Bool
  pub filesystem_read_only : Bool
  pub memory : Bool
  pub swap : Bool
  pub oom : Bool
  pub load : Bool
  pub kernel_errors : Bool
  pub apt : Bool
  pub dpkg : Bool
  pub apt_timers : Bool
  pub unattended_upgrades : Bool
  pub reboot_required : Bool
  pub needrestart : Bool
  pub time_sync : Bool
  pub agent_timer : Bool
  pub agent_freshness : Bool
  pub delivery_queue : Bool

pub record Config (F : Type 0) : Type 0 where
  pub version : ℤ
  pub agent : Agent
  pub gotify : Gotify
  pub thresholds : Thresholds F
  pub checks : Checks
  pub services : Dict Text

-- float64 with its order, and strconv, time and net/url as far as the package calls them.
pub record Go (F : Type 0) : Type 0 where
  -- `tenths n` is the constant n / 10.
  pub tenths : ℕ → F
  -- `<`, which is false of NaN on either side.
  pub less : F → F → Bool
  -- Neither math.IsNaN nor math.IsInf.
  pub finite : F → Bool
  -- strconv.ParseFloat, strconv.FormatFloat, strconv.Unquote, strconv.Quote.
  pub parse_float : Text → Option F
  pub format_float : F → Text
  pub unquote : Text → Option Text
  pub quote : Text → Text
  -- time.ParseDuration, in nanoseconds.
  pub parse_duration : Text → Option ℤ
  -- socksproxy.Parse gives no error.
  pub proxy_accepted : Text → Bool

abbrev pub default_config_path : Text
default_config_path = bytes "/etc/gotify-vps-agent/config.toml"

abbrev pub default_token_path : Text
default_token_path = bytes "/etc/gotify-vps-agent/gotify.token"

abbrev pub default_state_dir : Text
default_state_dir = bytes "/var/lib/gotify-vps-agent"

-- `Default()`; `hostname` is what os.Hostname returns.
abbrev pub default_agent : Text → Agent
default_agent host = record {
  hostname = host;
  interval = bytes "5m";
  state_dir = default_state_dir;
  warning_failures = pos 2;
  recovery_successes = pos 2;
  notify_recovery = true;
  warning_reminder_hours = pos 0;
  critical_reminder_hours = pos 0;
}

abbrev pub default_gotify : Gotify
default_gotify = record {
  url = [];
  token_file = default_token_path;
  timeout = bytes "10s";
  allow_insecure_http = false;
  proxy_url = [];
}

abbrev pub default_thresholds : {F : Type 0} → Go F → Thresholds F
default_thresholds go = record {
  disk_warning = go.tenths 850;
  disk_critical = go.tenths 950;
  inode_warning = go.tenths 850;
  inode_critical = go.tenths 950;
  memory_available_warning = go.tenths 150;
  memory_available_critical = go.tenths 80;
  swap_warning = go.tenths 500;
  swap_critical = go.tenths 800;
  load_warning_per_cpu = go.tenths 15;
  load_critical_per_cpu = go.tenths 30;
  unattended_upgrade_max_age_hours = pos 48;
}

abbrev pub default_checks : Checks
default_checks = record {
  systemd_failed = true;
  disk = true;
  inode = true;
  filesystem_read_only = true;
  memory = true;
  swap = true;
  oom = true;
  load = true;
  kernel_errors = true;
  apt = true;
  dpkg = true;
  apt_timers = true;
  unattended_upgrades = true;
  reboot_required = true;
  needrestart = true;
  time_sync = true;
  agent_timer = true;
  agent_freshness = true;
  delivery_queue = true;
}

unfoldable pub default : {F : Type 0} → Go F → Text → Config F
default go host = record {
  version = pos 1;
  agent = default_agent host;
  gotify = default_gotify;
  thresholds = default_thresholds go;
  checks = default_checks;
  services = [];
}

-- `strings.TrimRight(s, "/")`, the last byte first.
unfoldable pub trim_slashes : Text → Text
trim_slashes [] = []
trim_slashes (b ∷ s) = elim (b == b'/') [ true ↦ trim_slashes s | false ↦ b ∷ s ]

abbrev pub in_state_dir : {F : Type 0} → Config F → Text → Text
unfolding trim_slashes
in_state_dir cfg name = reverse (trim_slashes (reverse cfg.agent.state_dir)) ++ name

unfoldable pub state_path : {F : Type 0} → Config F → Text
state_path cfg = in_state_dir cfg (bytes "/state.json")

unfoldable pub queue_path : {F : Type 0} → Config F → Text
queue_path cfg = in_state_dir cfg (bytes "/queue.json")

unfoldable pub lock_path : {F : Type 0} → Config F → Text
lock_path cfg = in_state_dir cfg (bytes "/agent.lock")

unfoldable pub journal_cursor_path : {F : Type 0} → Config F → Text
journal_cursor_path cfg = in_state_dir cfg (bytes "/journal.cursor")

pub data TokenError : Type 0 where
  token_unread token_empty token_too_long : TokenError

pub data TokenResult : Type 0 where
  token_value : Text → TokenResult
  token_error : TokenError → TokenResult

-- `Token` of what os.ReadFile returned.
unfoldable pub token : Option Text → TokenResult
token none = token_error token_unread
token (some text) =
    let value = trim_space text in
    if is_empty value
    then token_error token_empty
    else if ltb 4096 (length value)
    then token_error token_too_long
    else token_value value
