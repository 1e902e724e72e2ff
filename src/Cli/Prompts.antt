-- ===== src/Cli/Prompts.antt =====
-- internal/cli/cli.go, promptString, promptFloat and promptYesNo: what is read of the input, which is
-- a list of lines. A read beyond the last gives an empty line. What is printed is left out.
use gotify_vps_agent.Prelude.{
  Bool, true, false, ◌||◌, List, [], ◌∷◌, Option, none, some, if◌then◌else◌,
}
use gotify_vps_agent.Prelude.Text.{Text, bytes, text_eq, is_empty}
use gotify_vps_agent.Strings.{trim_space}
use gotify_vps_agent.Strings.Lines.{to_lower}

-- `promptString`: the value, and the lines that are left.
unfoldable pub prompt_string : Text → List Text → Text × List Text
prompt_string current [] = (current, [])
prompt_string current (line ∷ rest) =
    let value = trim_space line in (if is_empty value then current else value, rest)

-- `promptFloat`; `parse_float` is strconv.ParseFloat.
unfoldable pub prompt_float : {F : Type 0} → (Text → Option F) → F → List Text → F × List Text
prompt_float parse_float current [] = (current, [])
prompt_float parse_float current (line ∷ rest) =
    let again = prompt_float parse_float current rest in
    if is_empty (trim_space line)
    then (current, rest)
    else elim (parse_float (trim_space line)) [ none ↦ again | some parsed ↦ (parsed, rest) ]

-- `promptYesNo`
unfoldable pub prompt_yes_no : Bool → List Text → Bool × List Text
prompt_yes_no default_yes [] = (default_yes, [])
prompt_yes_no default_yes (line ∷ rest) =
    let value = to_lower (trim_space line) in
    let again = prompt_yes_no default_yes rest in
    if is_empty value
    then (default_yes, rest)
    else if text_eq value (bytes "y") || text_eq value (bytes "yes")
    then (true, rest)
    else if text_eq value (bytes "n") || text_eq value (bytes "no")
    then (false, rest)
    else again
