-- ===== src/Config/Values.antt =====
-- internal/config: the values of one assignment, and what a line of the file can be refused for.
use gotify_vps_agent.Prelude.{
  ℕ, zero, suc, Bool, true, false, ◌||◌, [], ◌∷◌, Option, none, some, leb, ◌==◌, if◌then◌else◌,
}
use gotify_vps_agent.Prelude.Int.{ℤ, pos, negsuc}
use gotify_vps_agent.Prelude.Text.{Text, bytes, text_eq}
use gotify_vps_agent.Strings.Lines.{digits}
use gotify_vps_agent.Config.{Go}

pub data AssignError : Type 0 where
  invalid_string invalid_boolean invalid_integer invalid_number : AssignError
  unknown_key empty_service : AssignError

-- A value and an error, as Go returns them.
pub record Parsed (A : Type 0) : Type 0 where
  pub value : A
  pub error : Option AssignError

parsed : {A : Type 0} → A → AssignError → Option A → Parsed A
parsed zero_value e none = record { value = zero_value; error = some e }
parsed zero_value e (some a) = record { value = a; error = none }

-- strconv.ParseBool
unfoldable pub parse_bool : Text → Option Bool
parse_bool raw =
    if text_eq raw (bytes "1")
      || text_eq raw (bytes "t")
      || text_eq raw (bytes "T")
      || text_eq raw (bytes "TRUE")
      || text_eq raw (bytes "true")
      || text_eq raw (bytes "True")
    then some true
    else if text_eq raw (bytes "0")
        || text_eq raw (bytes "f")
        || text_eq raw (bytes "F")
        || text_eq raw (bytes "FALSE")
        || text_eq raw (bytes "false")
        || text_eq raw (bytes "False")
    then some false
    else none

-- The range of an `int` of 64 bits.
positive : Option ℕ → Option ℤ
positive none = none
positive (some n) = if leb n 9223372036854775807 then some (pos n) else none

negative : Option ℕ → Option ℤ
negative none = none
negative (some zero) = some (pos 0)
negative (some (suc n)) = if leb n 9223372036854775807 then some (negsuc n) else none

-- strconv.Atoi
unfoldable pub atoi : Text → Option ℤ
unfolding positive negative
atoi [] = none
atoi (b ∷ s) =
    if b == b'-'
    then negative (digits s)
    else if b == b'+'
    then positive (digits s)
    else positive (digits (b ∷ s))

unfoldable pub int_value : Text → Parsed ℤ
unfolding parsed
int_value raw = parsed (pos 0) invalid_integer (atoi raw)

unfoldable pub bool_value : Text → Parsed Bool
unfolding parsed
bool_value raw = parsed false invalid_boolean (parse_bool raw)

unfoldable pub string_value : {F : Type 0} → Go F → Text → Parsed Text
unfolding parsed
string_value go raw = parsed [] invalid_string (go.unquote raw)

unfoldable pub float_value : {F : Type 0} → Go F → Text → Parsed F
unfolding parsed
float_value go raw = parsed (go.tenths 0) invalid_number (go.parse_float raw)
