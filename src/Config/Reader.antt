-- ===== src/Config/Reader.antt =====
-- internal/config: `Unmarshal`, line by line, and `Load`. The lines are those of bufio.Scanner.
use gotify_vps_agent.Prelude.{
  ℕ, suc, Bool, true, false, ◌&&◌, List, [], ◌∷◌, ◌++◌, none, some, any, take, drop, length, ltb,
  ◌==◌, ◌-◌, ◌||◌, if◌then◌else◌,
}
use mathlib.Core.List.{reverse}
use gotify_vps_agent.Prelude.Text.{Text, bytes, text_eq, is_empty}
use gotify_vps_agent.Strings.{trim_space}
use gotify_vps_agent.Strings.Lines.{raw_lines, without_return, max_line}
use gotify_vps_agent.File.{ReadOutcome, missing, unopened, unread, contents}
use gotify_vps_agent.Config.{Config, Go, default}
use gotify_vps_agent.Config.Line.{strip_comment, cut_equals}
use gotify_vps_agent.Config.Values.{AssignError}
use gotify_vps_agent.Config.Sections.{assign}
use gotify_vps_agent.Config.Validity.{ConfigError, validate}

pub data LineError : Type 0 where
  unknown_section expected_key_value duplicate_key line_too_long : LineError
  assign_failed : AssignError → LineError

-- `strings.HasPrefix(line, "[") && strings.HasSuffix(line, "]")`
abbrev ends_bracket : Text → Bool
ends_bracket [] = false
ends_bracket (b ∷ back) = b == b']'

unfoldable pub is_header : Text → Bool
is_header [] = false
is_header (b ∷ s) = b == b'[' && ends_bracket (reverse (b ∷ s))

unfoldable pub is_section : Text → Bool
is_section section =
    text_eq section (bytes "agent")
    || text_eq section (bytes "gotify")
    || text_eq section (bytes "thresholds")
    || text_eq section (bytes "checks")
    || text_eq section (bytes "services")

-- What the loop carries from line to line.
pub record Reading (F : Type 0) : Type 0 where
  pub cfg : Config F
  pub section : Text
  pub seen : List Text

pub data Step (F : Type 0) : Type 0 where
  carry_on : Reading F → Step F
  stop : Reading F → LineError → Step F

-- `section + "\x00" + key`
abbrev pub identity_of : Text → Text → Text
identity_of section key = section ++ 0 ∷ key

-- The line of a header, and the line of an assignment.
unfoldable pub read_header : {F : Type 0} → Reading F → Text → Step F
unfolding is_section
read_header r line =
    let section = trim_space (take (length line - 2) (drop 1 line)) in
    let next = record r { section = section } in
    if is_section section then carry_on next else stop next unknown_section

unfoldable pub read_assignment : {F : Type 0} → Go F → Reading F → Text → Text → Step F
read_assignment go r key raw =
    let identity = identity_of r.section key in
    let (cfg, err) = assign go r.cfg r.section key raw in
    let next = record r { cfg = cfg; seen = identity ∷ r.seen } in
    if any (text_eq identity) r.seen
    then stop r duplicate_key
    else elim err [ none ↦ carry_on next | some e ↦ stop next (assign_failed e) ]

-- The body of the loop, on a line as the scanner returns it.
unfoldable pub read_line : {F : Type 0} → Go F → Reading F → Text → Step F
unfolding is_header
read_line go r scanned =
    let line = trim_space (strip_comment scanned) in
    if is_empty line
    then carry_on r
    else if is_header line
    then read_header r line
    else elim (cut_equals line) [
      | none ↦ stop r expected_key_value
      | some (key, raw) ↦ read_assignment go r (trim_space key) (trim_space raw)
    ]

abbrev pub then_read : {F : Type 0} → (Reading F → Step F) → Step F → Step F
then_read f (carry_on r) = f r
then_read f (stop r e) = stop r e

unfoldable pub read_lines : {F : Type 0} → Go F → List Text → Reading F → Step F
read_lines go [] r = carry_on r
read_lines go (raw ∷ rest) r = elim (ltb max_line (length raw)) [
  | true ↦ stop r line_too_long
  | false ↦ then_read (read_lines go rest) (read_line go r (without_return (reverse raw)))
]

unfoldable pub unmarshal : {F : Type 0} → Go F → Text → Config F → Step F
unmarshal go text cfg =
    read_lines go (raw_lines text) (record { cfg = cfg; section = []; seen = [] })

pub data Loaded (F : Type 0) : Type 0 where
  loaded : Config F → Loaded F
  unavailable too_big : Loaded F
  unparsed : LineError → Loaded F
  invalid : ConfigError → Loaded F

abbrev pub max_config_bytes : ℕ
max_config_bytes = 262144

abbrev pub checked : {F : Type 0} → Go F → Step F → Loaded F
checked go (stop r e) = unparsed e
checked go (carry_on r) = elim (validate go r.cfg) [ some e ↦ invalid e | none ↦ loaded r.cfg ]

unfoldable pub load : {F : Type 0} → Go F → Text → ReadOutcome → Loaded F
load go host missing = unavailable
load go host unopened = unavailable
load go host unread = unavailable
load go host (contents text) =
    let data_read = take (suc max_config_bytes) text in
    if ltb max_config_bytes (length data_read)
    then too_big
    else checked go (unmarshal go data_read (default go host))
