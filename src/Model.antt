-- ===== src/Model.antt =====
-- internal/model: results of checks, and the events that are sent about them.
use gotify_vps_agent.Prelude.{Bool, true, false, ◌∷◌, ◌++◌, if◌then◌else◌}
use gotify_vps_agent.Prelude.Int.{ℤ, pos}
use gotify_vps_agent.Prelude.Text.{Text, bytes, is_empty, text_eq}
use gotify_vps_agent.Strings.{trim_space}

-- A status is a string: `status_other` holds one that is none of the three, which only a file can
-- bring in.
pub data Status : Type 0 where
  status_ok status_warning status_critical : Status
  status_other : Text → Status

abbrev pub status_eq : Status → Status → Bool
status_eq status_ok status_ok = true
status_eq status_warning status_warning = true
status_eq status_critical status_critical = true
status_eq (status_other s) (status_other t) = text_eq s t
status_eq _ _ = false

abbrev pub status_text : Status → Text
status_text status_ok = bytes "OK"
status_text status_warning = bytes "WARNING"
status_text status_critical = bytes "CRITICAL"
status_text (status_other s) = s

pub record Result : Type 0 where
  pub id : Text
  pub title : Text
  pub status : Status
  pub message : Text
  pub immediate : Bool
  pub occurrence : Text

pub data EventKind : Type 0 where
  event_problem event_escalation event_recovery event_reminder event_occurrence : EventKind
  event_other : Text → EventKind

abbrev pub kind_text : EventKind → Text
kind_text event_problem = bytes "problem"
kind_text event_escalation = bytes "escalation"
kind_text event_recovery = bytes "recovery"
kind_text event_reminder = bytes "reminder"
kind_text event_occurrence = bytes "occurrence"
kind_text (event_other s) = s

abbrev pub is_problem : EventKind → Bool
is_problem event_problem = true
is_problem _ = false

abbrev pub is_escalation : EventKind → Bool
is_escalation event_escalation = true
is_escalation _ = false

abbrev pub is_recovery : EventKind → Bool
is_recovery event_recovery = true
is_recovery _ = false

abbrev pub is_reminder : EventKind → Bool
is_reminder event_reminder = true
is_reminder _ = false

abbrev pub is_occurrence : EventKind → Bool
is_occurrence event_occurrence = true
is_occurrence _ = false

pub record Event : Type 0 where
  pub check_id : Text
  pub title : Text
  pub status : Status
  pub kind : EventKind
  pub message : Text
  pub priority : ℤ
  pub fingerprint : Text

-- A field after a NUL byte, left out where it is empty.
abbrev pub with_occurrence : Text → Text → Text
with_occurrence value occurrence = if is_empty occurrence then value else value ++ 0 ∷ occurrence

-- `Result.Fingerprint`. `hex_digest` is hex.EncodeToString of sha256.Sum256.
unfoldable pub fingerprint : (Text → Text) → Result → Text
fingerprint hex_digest r =
    hex_digest
      (with_occurrence (r.id ++ 0 ∷ status_text r.status ++ 0 ∷ trim_space r.message) r.occurrence)

abbrev status_priority : Status → ℤ
status_priority status_critical = pos 10
status_priority status_warning = pos 5
status_priority _ = pos 3

unfoldable pub priority : Status → EventKind → ℤ
priority status kind = if is_recovery kind then pos 3 else status_priority status
