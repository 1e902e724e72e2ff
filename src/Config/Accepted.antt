-- ===== src/Config/Accepted.antt =====
-- internal/config: what holds of the settings that `Load` returns.
use gotify_vps_agent.Prelude.{
  ℕ, suc, ◌≤◌, ◌≡◌, refl, subst, true, false, inl, inr, [], ◌∷◌, none, some, arith, ltb, length,
  All, Bool-cases, Option-cases, take,
}
use gotify_vps_agent.Prelude.Int.{ℤ, pos, negsuc, eqb_ℤ}
use gotify_vps_agent.Prelude.Text.{Text, text_eq, text_eq→eq}
use gotify_vps_agent.Prelude.Dict.{Dict}
use gotify_vps_agent.File.{ReadOutcome, missing, unopened, unread, contents}
use gotify_vps_agent.Config.{
  Agent, Thresholds, Config, Go, default, default_state_dir, default_token_path,
}
use gotify_vps_agent.Config.Validity.{
  is_hostname, is_unit, is_allowed_service, outside, bad_duration, bad_pair, bad_memory_pair,
  bad_load_pair, validate_services, validate_thresholds, validate_agent, validate,
}
use gotify_vps_agent.Config.Reader.{
  loaded, Step, carry_on, stop, checked, load, unmarshal, max_config_bytes,
}

-- An integer from `lo` to `hi`.
abbrev pub Within : ℕ → ℕ → ℤ → Type 0
Within lo hi z = (n : ℕ) × (z ≡ pos n) × (lo ≤ n) × (n ≤ hi)

-- A text that parses to a duration from `lo` to `hi` nanoseconds.
abbrev pub Lasts : {F : Type 0} → Go F → ℕ → ℕ → Text → Type 0
Lasts go lo hi text = (d : ℤ) × (go.parse_duration text ≡ some d) × Within lo hi d

abbrev pub IsService : Text × Text → Type 0
IsService (id, unit) = (is_allowed_service id ≡ true) × (is_unit unit ≡ true)

-- The settings that the other components rely on.
pub record IsValid {F : Type 0} (go : Go F) (cfg : Config F) : Type 0 where
  pub version_one : cfg.version ≡ pos 1
  pub hostname_length : length cfg.agent.hostname ≤ 63
  pub interval_bounds : Lasts go 60000000000 86400000000000 cfg.agent.interval
  pub timeout_bounds : Lasts go 1000000000 60000000000 cfg.gotify.timeout
  pub fixed_state_dir : cfg.agent.state_dir ≡ default_state_dir
  pub fixed_token_file : cfg.gotify.token_file ≡ default_token_path
  pub failures_bounds : Within 1 100 cfg.agent.warning_failures
  pub successes_bounds : Within 1 100 cfg.agent.recovery_successes
  pub warning_reminder_bounds : Within 0 8760 cfg.agent.warning_reminder_hours
  pub critical_reminder_bounds : Within 0 8760 cfg.agent.critical_reminder_hours
  pub proxy_valid : go.proxy_accepted cfg.gotify.proxy_url ≡ true
  pub disk_order : go.less cfg.thresholds.disk_warning cfg.thresholds.disk_critical ≡ true
  pub inode_order : go.less cfg.thresholds.inode_warning cfg.thresholds.inode_critical ≡ true
  pub swap_order : go.less cfg.thresholds.swap_warning cfg.thresholds.swap_critical ≡ true
  pub load_order :
      go.less cfg.thresholds.load_warning_per_cpu cfg.thresholds.load_critical_per_cpu ≡ true
  pub memory_order :
      go.less cfg.thresholds.memory_available_critical cfg.thresholds.memory_available_warning
      ≡ true
  pub age_bounds : Within 1 8760 cfg.thresholds.unattended_upgrade_max_age_hours
  pub services_known : All IsService cfg.services

outside-Within : (lo hi : ℕ) (z : ℤ) → outside (pos lo) (pos hi) z ≡ false → Within lo hi z
outside-Within lo hi (pos n) h = (n, refl, ground arith, ground arith)
outside-Within lo hi (negsuc n) h = absurd (ground arith)

bad_duration-Lasts :
    {F : Type 0} (go : Go F) (lo hi : ℕ) (text : Text)
    → bad_duration (go.parse_duration text) lo hi ≡ false
    → Lasts go lo hi text
bad_duration-Lasts go lo hi text h = elim (Option-cases (go.parse_duration text)) [
  | inl e ↦ absurd (ground arith)
  | inr (d, e) ↦ (d, e, outside-Within lo hi d (ground arith))
]

is_hostname-length : (s : Text) → is_hostname s ≡ true → length s ≤ 63
unfolding is_hostname
is_hostname-length [] h = omega arith
is_hostname-length (b ∷ s) h = ground arith

validate_services-IsService :
    (services : Dict Text) → validate_services services ≡ none → All IsService services
unfolding validate_services
validate_services-IsService [] h = tt
validate_services-IsService ((id, unit) ∷ rest) h =
    ((ground arith, ground arith), validate_services-IsService rest (ground arith))

eqb_ℤ→eq : (a b : ℤ) → eqb_ℤ a b ≡ true → a ≡ b
eqb_ℤ→eq (pos a) (pos b) h = ground arith
eqb_ℤ→eq (pos a) (negsuc b) h = absurd (ground arith)
eqb_ℤ→eq (negsuc a) (pos b) h = absurd (ground arith)
eqb_ℤ→eq (negsuc a) (negsuc b) h = ground arith

abbrev AgentPasses : {F : Type 0} → Go F → Agent → Text → Type 0
AgentPasses go agent file =
    (is_hostname agent.hostname ≡ true)
    × (bad_duration (go.parse_duration agent.interval) 60000000000 86400000000000 ≡ false)
    × (text_eq agent.state_dir default_state_dir ≡ true)
    × (text_eq file default_token_path ≡ true)
    × (outside (pos 1) (pos 100) agent.warning_failures ≡ false)
    × (outside (pos 1) (pos 100) agent.recovery_successes ≡ false)
    × (outside (pos 0) (pos 8760) agent.warning_reminder_hours ≡ false)
    × (outside (pos 0) (pos 8760) agent.critical_reminder_hours ≡ false)

-- The tests of an agent section, each on its own.
validate_agent-AgentPasses :
    {F : Type 0} (go : Go F) (agent : Agent) (file : Text)
    → validate_agent go agent file ≡ none
    → AgentPasses go agent file
unfolding validate_agent
validate_agent-AgentPasses go agent file h = ground arith

abbrev ThresholdsPass : {F : Type 0} → Go F → Thresholds F → Type 0
ThresholdsPass go t =
    (bad_pair go t.disk_warning t.disk_critical (go.tenths 1000) ≡ false)
    × (bad_pair go t.inode_warning t.inode_critical (go.tenths 1000) ≡ false)
    × (bad_pair go t.swap_warning t.swap_critical (go.tenths 1000) ≡ false)
    × (bad_memory_pair go t ≡ false)
    × (bad_load_pair go t ≡ false)
    × (outside (pos 1) (pos 8760) t.unattended_upgrade_max_age_hours ≡ false)

validate_thresholds-ThresholdsPass :
    {F : Type 0} (go : Go F) (t : Thresholds F)
    → validate_thresholds go t ≡ none
    → ThresholdsPass go t
unfolding validate_thresholds
validate_thresholds-ThresholdsPass go t h = ground arith

bad_pair-less :
    {F : Type 0} (go : Go F) (low high top : F)
    → bad_pair go low high top ≡ false
    → go.less low high ≡ true
unfolding bad_pair
bad_pair-less go low high top h = ground arith

bad_memory_pair-less :
    {F : Type 0} (go : Go F) (t : Thresholds F)
    → bad_memory_pair go t ≡ false
    → go.less t.memory_available_critical t.memory_available_warning ≡ true
unfolding bad_memory_pair
bad_memory_pair-less go t h = ground arith

bad_load_pair-less :
    {F : Type 0} (go : Go F) (t : Thresholds F)
    → bad_load_pair go t ≡ false
    → go.less t.load_warning_per_cpu t.load_critical_per_cpu ≡ true
unfolding bad_load_pair
bad_load_pair-less go t h = ground arith

abbrev Passes : {F : Type 0} → Go F → Config F → Type 0
Passes go cfg =
    (cfg.version ≡ pos 1)
    × (validate_agent go cfg.agent cfg.gotify.token_file ≡ none)
    × (bad_duration (go.parse_duration cfg.gotify.timeout) 1000000000 60000000000 ≡ false)
    × (go.proxy_accepted cfg.gotify.proxy_url ≡ true)
    × (validate_thresholds go cfg.thresholds ≡ none)
    × (validate_services cfg.services ≡ none)

validate-Passes : {F : Type 0} (go : Go F) (cfg : Config F) → validate go cfg ≡ none → Passes go cfg
unfolding validate
validate-Passes go cfg h = elim (Option-cases (validate_agent go cfg.agent cfg.gotify.token_file)) [
  | inr (x, e) ↦ absurd (ground arith)
  | inl a ↦ elim (Option-cases (validate_thresholds go cfg.thresholds)) [
    | inr (x, e) ↦ absurd (ground arith)
    | inl t ↦ (
      eqb_ℤ→eq cfg.version (pos 1) (ground arith),
      a,
      ground arith,
      ground arith,
      t,
      ground arith,
    )
  ]
]

pub validate-IsValid :
    {F : Type 0} (go : Go F) (cfg : Config F) → validate go cfg ≡ none → IsValid go cfg
validate-IsValid go cfg h =
    let (v, a, timeout, proxy, t, services) = validate-Passes go cfg h in
    let (host, interval, dir, file, fails, succs, warn, crit) =
      validate_agent-AgentPasses go cfg.agent cfg.gotify.token_file a in
    let (disk, inode, swap, memory, load, age) =
      validate_thresholds-ThresholdsPass go cfg.thresholds t in
    record {
      version_one = v;
      hostname_length = is_hostname-length cfg.agent.hostname host;
      interval_bounds =
          bad_duration-Lasts go 60000000000 86400000000000 cfg.agent.interval interval;
      timeout_bounds = bad_duration-Lasts go 1000000000 60000000000 cfg.gotify.timeout timeout;
      fixed_state_dir = text_eq→eq cfg.agent.state_dir default_state_dir dir;
      fixed_token_file = text_eq→eq cfg.gotify.token_file default_token_path file;
      failures_bounds = outside-Within 1 100 cfg.agent.warning_failures fails;
      successes_bounds = outside-Within 1 100 cfg.agent.recovery_successes succs;
      warning_reminder_bounds = outside-Within 0 8760 cfg.agent.warning_reminder_hours warn;
      critical_reminder_bounds = outside-Within 0 8760 cfg.agent.critical_reminder_hours crit;
      proxy_valid = proxy;
      disk_order = bad_pair-less go _ _ _ disk;
      inode_order = bad_pair-less go _ _ _ inode;
      swap_order = bad_pair-less go _ _ _ swap;
      load_order = bad_load_pair-less go cfg.thresholds load;
      memory_order = bad_memory_pair-less go cfg.thresholds memory;
      age_bounds = outside-Within 1 8760 cfg.thresholds.unattended_upgrade_max_age_hours age;
      services_known = validate_services-IsService cfg.services services;
    }

checked-IsValid :
    {F : Type 0} (go : Go F) (s : Step F) (cfg : Config F)
    → checked go s ≡ loaded cfg
    → IsValid go cfg
checked-IsValid go (stop r e) cfg h = absurd (ground arith)
checked-IsValid go (carry_on r) cfg h = elim (Option-cases (validate go r.cfg)) [
  | inl e ↦ subst (IsValid go) (ground arith) (validate-IsValid go r.cfg e)
  | inr (x, e) ↦ absurd (ground arith)
]

-- Settings that `Load` returns, from whatever file, have version 1 and the fixed state directory and
-- token file; a hostname of at most 63 bytes; an interval from one minute to 24 hours and a timeout
-- from one second to one minute; thresholds of failures and successes from 1 to 100; reminders from 0
-- to 8760 hours; an accepted proxy; warning and critical thresholds in their order, the largest age of
-- an upgrade from 1 to 8760 hours, and services of known profiles with valid units.
pub load-IsValid :
    {F : Type 0} (go : Go F) (host : Text) (file : ReadOutcome) (cfg : Config F)
    → load go host file ≡ loaded cfg
    → IsValid go cfg
unfolding load
load-IsValid go host missing cfg h = absurd (ground arith)
load-IsValid go host unopened cfg h = absurd (ground arith)
load-IsValid go host unread cfg h = absurd (ground arith)
load-IsValid go host (contents text) cfg h =
    let text_read = take (suc max_config_bytes) text in
    elim (Bool-cases (ltb max_config_bytes (length text_read))) [
      | inl large ↦ absurd (ground arith)
      | inr fits ↦ checked-IsValid go (unmarshal go text_read (default go host)) cfg (ground arith)
    ]
