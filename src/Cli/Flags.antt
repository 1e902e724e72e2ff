-- ===== src/Cli/Flags.antt =====
-- Go's package flag, for the flags that the command line has.
use gotify_vps_agent.Prelude.{
  Bool, true, false, ◌||◌, List, [], ◌∷◌, Option, none, some, ◌==◌, if◌then◌else◌,
}
use gotify_vps_agent.Prelude.Text.{Text, bytes}
use gotify_vps_agent.Prelude.Dict.{Dict, lookup, insert}
use gotify_vps_agent.Strings.Search.{cut}
use gotify_vps_agent.Config.Values.{parse_bool}

pub data FlagKind : Type 0 where
  bool_flag string_flag : FlagKind

-- The values of the flags that are set, and the arguments behind them; or an error.
pub data Flags : Type 0 where
  flags : Dict Text → List Text → Flags
  bad_flags : Flags

-- What an argument is: the end of the flags, to be kept or dropped, a name with a value or without,
-- or nothing that the syntax allows.
pub data Shape : Type 0 where
  plain terminator malformed_flag : Shape
  named : Text → Option Text → Shape

-- A name may not be empty or start with a minus or an equals sign.
unfoldable pub name_shape : Text → Shape
name_shape [] = malformed_flag
name_shape (b ∷ s) = if b == b'-' || b == b'=' then malformed_flag else elim (cut b'=' (b ∷ s)) [
  | none ↦ named (b ∷ s) none
  | some (name, value) ↦ named name (some value)
]

unfoldable pub shape : Text → Shape
shape [] = plain
shape (a ∷ []) = plain
shape (a ∷ b ∷ s) =
    if a == b'-'
    then if b == b'-'
      then elim s [ [] ↦ terminator | c ∷ rest ↦ name_shape (c ∷ rest) ]
      else name_shape (b ∷ s)
    else plain

-- What is to be done with a flag: an error, a value to set, or a value to take from the next argument.
pub data Step : Type 0 where
  bad_step : Step
  set_step : Text → Text → Step
  wait_step : Text → Step

unfoldable pub bool_step : Text → Text → Option Bool → Step
bool_step name value none = bad_step
bool_step name value (some true) = set_step name (bytes "true")
bool_step name value (some false) = set_step name (bytes "false")

unfoldable pub flag_step : Option FlagKind → Text → Option Text → Step
flag_step none name value = bad_step
flag_step (some bool_flag) name none = set_step name (bytes "true")
flag_step (some bool_flag) name (some value) = bool_step name value (parse_bool value)
flag_step (some string_flag) name none = wait_step name
flag_step (some string_flag) name (some value) = set_step name value

-- `FlagSet.Parse`; `waiting` is the flag whose value is the next argument.
unfoldable pub parse_from : Dict FlagKind → Option Text → List Text → Dict Text → Flags
parse_from kinds (some name) [] values = bad_flags
parse_from kinds (some name) (value ∷ rest) values =
    parse_from kinds none rest (insert name value values)
parse_from kinds none [] values = flags values []
parse_from kinds none (arg ∷ rest) values = elim (shape arg) [
  | plain ↦ flags values (arg ∷ rest)
  | terminator ↦ flags values rest
  | malformed_flag ↦ bad_flags
  | named name value ↦ elim (flag_step (lookup name kinds) name value) [
    | bad_step ↦ bad_flags
    | set_step key text ↦ parse_from kinds none rest (insert key text values)
    | wait_step key ↦ parse_from kinds (some key) rest values
  ]
]

abbrev pub parse_flags : Dict FlagKind → List Text → Flags
parse_flags kinds args = parse_from kinds none args []

-- The value of a flag that holds a truth value, false if it is not set.
unfoldable pub is_set : Text → Dict Text → Bool
is_set name values = elim (lookup name values) [
  | none ↦ false
  | some text ↦ elim (parse_bool text) [ none ↦ false | some b ↦ b ]
]
