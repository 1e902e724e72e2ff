-- ===== src/Checks/Host.antt =====
-- internal/checks: what the checks ask of the machine, and the arithmetic of float64 that they use.
use gotify_vps_agent.Prelude.{
  ℕ, ◌+◌, ◌-◌, ◌/◌, Bool, List, [], ◌∷◌, ◌++◌, Option, leb, if◌then◌else◌,
}
use gotify_vps_agent.Prelude.Int.{ℤ, pos, negsuc, leb_ℤ, wrap64}
use gotify_vps_agent.Prelude.Text.{Text, bytes, is_empty}
use gotify_vps_agent.Strings.{trim_space}
use gotify_vps_agent.Runner.{Answer, answered, not_run}
use gotify_vps_agent.Clock.{Time, second}

-- What strconv.ParseFloat answers: a number or the text of its error.
pub data ParsedFloat (F : Type 0) : Type 0 where
  number : F → ParsedFloat F
  not_number : Text → ParsedFloat F

pub record Floats (F : Type 0) : Type 0 where
  pub of_uint : ℕ → F
  pub divide : F → F → F
  pub multiply : F → F → F
  -- `>=` and `<`, false of NaN on either side.
  pub reaches : F → F → Bool
  pub less : F → F → Bool
  -- fmt.Sprintf("%.nf")
  pub fixed : ℕ → F → Text
  pub parse : Text → ParsedFloat F
  -- Duration.Hours and Duration.Minutes
  pub hours : ℤ → F
  pub minutes : ℤ → F

-- What os.ReadFile answers.
pub data FileText : Type 0 where
  absent : FileText
  unreadable : Text → FileText
  text : Text → FileText

-- What syscall.Statfs answers: the text of an error, or the counts of blocks and of inodes.
pub data FsStat : Type 0 where
  stat_failed : Text → FsStat
  counts : (blocks available files free : ℕ) → FsStat

pub record Host : Type 0 where
  -- runner.Run of a path and its arguments
  pub run : Text → List Text → Answer
  -- os.Stat gives no error
  pub exists : Text → Bool
  -- the time of modification that os.Stat gives, of any file and of a regular file
  pub modified : Text → Option Time
  pub regular_modified : Text → Option Time
  pub read : Text → FileText
  pub statfs : Text → FsStat
  -- the time that time.Now and time.Since read
  pub now : Time
  -- runtime.NumCPU
  pub cpus : ℕ
  -- Format(time.RFC3339Nano) of time.UnixMicro
  pub micro_text : ℤ → Text

-- `t.Unix()`: whole seconds since 1970.
unfoldable pub unix_seconds : Time → ℤ
unix_seconds t =
    let s = t / second in
    if leb 62135596800 s then pos (s - 62135596800) else negsuc (62135596800 - s - 1)

-- `if value < 0 { value = -value }` on an `int64`.
abbrev absolute : ℤ → ℤ
absolute (pos n) = pos n
absolute (negsuc n) = wrap64 (pos (n + 1))

-- `humanDuration`
unfoldable pub human_duration : {F : Type 0} → Floats F → ℤ → Text
human_duration float value =
    let d = absolute value in
    if leb_ℤ (pos 86400000000000) d
    then float.fixed 1 (float.divide (float.hours d) (float.of_uint 24)) ++ bytes " days"
    else if leb_ℤ (pos 3600000000000) d
    then float.fixed 1 (float.hours d) ++ bytes " hours"
    else float.fixed 0 (float.minutes d) ++ bytes " minutes"

-- The trimmed output of a program, "unknown" if it is empty or the program did not run.
unfoldable pub systemctl_state : Host → Text → Text → Text
systemctl_state host command unit =
    elim (host.run (bytes "/usr/bin/systemctl") (command ∷ unit ∷ [])) [
      | not_run e ↦ bytes "unknown"
      | answered r ↦
          let value = trim_space r.output in if is_empty value then bytes "unknown" else value
    ]
