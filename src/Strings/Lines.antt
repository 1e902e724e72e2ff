-- ===== src/Strings/Lines.antt =====
-- Lines as bufio.Scanner returns them, lower case, and unsigned numbers.
use mathlib.Core.List.{reverse}
use gotify_vps_agent.Prelude.{
  ℕ, ◌+◌, ◌-◌, ◌*◌, Bool, true, false, ◌&&◌, List, [], ◌∷◌, map, Option, none, some, ltb, leb, ◌==◌,
  if◌then◌else◌, length,
}
use gotify_vps_agent.Prelude.Text.{Text, is_empty}
use gotify_vps_agent.Strings.{trim_space}
use gotify_vps_agent.Strings.Search.{split, replace}

-- The raw lines of a text, without their newline; an empty last line is none.
split_from : Text → Text → List Text
split_from [] [] = []
split_from (b ∷ line) [] = reverse (b ∷ line) ∷ []
split_from line (b ∷ s) = elim (b == 10) [
  | true ↦ reverse line ∷ split_from [] s
  | false ↦ split_from (b ∷ line) s
]

unfoldable pub raw_lines : Text → List Text
unfolding split_from
raw_lines text = split_from [] text

-- bufio.ScanLines drops one carriage return at the end of a line; the line is given backwards.
abbrev pub without_return : List ℕ → Text
without_return [] = []
without_return (b ∷ back) = if b == 13 then reverse back else reverse (b ∷ back)

-- The lines up to one that does not fit the scanner's buffer, and whether there was one. A buffer of
-- `max + 1` bytes holds the newline too.
scan_lines : ℕ → List Text → List Text × Bool
scan_lines max [] = ([], false)
scan_lines max (raw ∷ rest) = elim (ltb max (length raw)) [
  | true ↦ ([], true)
  | false ↦
      let (lines, too_long) = scan_lines max rest in
      (without_return (reverse raw) ∷ lines, too_long)
]

unfoldable pub scan : ℕ → Text → List Text × Bool
unfolding scan_lines raw_lines
scan max text = scan_lines max (raw_lines text)

-- The size of a bufio.Scanner's buffer, the newline not counted.
abbrev pub max_line : ℕ
max_line = 65535

abbrev lower_byte : ℕ → ℕ
lower_byte b = if leb b'A' b && leb b b'Z' then b + 32 else b

-- ASCII letters in lower case.
unfoldable pub lower_ascii : Text → Text
lower_ascii s = map lower_byte s

-- strings.ToLower as far as ASCII text is looked for in it: of the other runes, only the sign for
-- kelvin and the capital I with a dot become ASCII letters.
unfoldable pub to_lower : Text → Text
unfolding lower_ascii
to_lower s =
    lower_ascii
      (replace ((0xe2 ∷ 0x84 ∷ 0xaa ∷ [], b'k' ∷ []) ∷ (0xc4 ∷ 0xb0 ∷ [], b'i' ∷ []) ∷ []) s)

-- Text as a pattern that ignores case sees it: the long s and the sign for kelvin are letters too.
unfoldable pub fold_case : Text → Text
unfolding lower_ascii
fold_case s =
    lower_ascii
      (replace ((0xe2 ∷ 0x84 ∷ 0xaa ∷ [], b'k' ∷ []) ∷ (0xc5 ∷ 0xbf ∷ [], b's' ∷ []) ∷ []) s)

digits_from : ℕ → Text → Option ℕ
digits_from n [] = some n
digits_from n (b ∷ s) = elim (leb b'0' b && leb b b'9') [
  | true ↦ digits_from (n * 10 + (b - b'0')) s
  | false ↦ none
]

-- The number that a text of one or more decimal digits stands for.
unfoldable pub digits : Text → Option ℕ
unfolding digits_from
digits [] = none
digits (b ∷ s) = digits_from 0 (b ∷ s)

-- strconv.ParseUint(s, 10, 64)
unfoldable pub parse_uint : Text → Option ℕ
parse_uint s = elim (digits s) [
  | none ↦ none
  | some n ↦ if ltb n 18446744073709551616 then some n else none
]

trimmed_lines : List Text → List Text
trimmed_lines [] = []
trimmed_lines (line ∷ rest) =
    let text = trim_space line in
    let others = trimmed_lines rest in if is_empty text then others else text ∷ others

-- `nonEmptyLines` of internal/checks.
unfoldable pub non_empty_lines : Text → List Text
unfolding trimmed_lines
non_empty_lines output = trimmed_lines (split 10 output)
