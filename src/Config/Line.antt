-- ===== src/Config/Line.antt =====
-- internal/config, one line of the file: `stripComment`, and strings.Cut at the equals sign.
use gotify_vps_agent.Prelude.{
  ℕ, zero, suc, Bool, true, false, not, ◌&&◌, [], ◌∷◌, ◌++◌, Option, none, some, ◌==◌,
  if◌then◌else◌, length, take, drop,
}
use gotify_vps_agent.Prelude.Text.{Text}
use gotify_vps_agent.Strings.{decode_rune}

-- The body of the loop: the next values of `quoted` and `escaped`, or the end of the line.
scan_rune : ℕ → Bool → Bool → Option (Bool × Bool)
scan_rune r quoted escaped =
    if escaped
    then some (quoted, false)
    else if r == b'\\' && quoted
    then some (quoted, true)
    else if r == b'"'
    then some (not quoted, false)
    else if r == b'#' && not quoted
    then none
    else some (quoted, false)

-- The loop. A round takes a byte or more, so the length of the line is fuel enough.
strip_from : ℕ → Text → Bool → Bool → Text
unfolding scan_rune
strip_from zero line quoted escaped = line
strip_from (suc fuel) [] quoted escaped = []
strip_from (suc fuel) (a ∷ s) quoted escaped =
    let (r, size) = decode_rune (a ∷ s) in
    elim (scan_rune r quoted escaped) [
      | none ↦ []
      | some (q, e) ↦ take size (a ∷ s) ++ strip_from fuel (drop size (a ∷ s)) q e
    ]

unfoldable pub strip_comment : Text → Text
unfolding strip_from
strip_comment line = strip_from (length line) line false false

-- strings.Cut(line, "=")
unfoldable pub cut_equals : Text → Option (Text × Text)
cut_equals [] = none
cut_equals (b ∷ s) = elim (b == b'=') [
  | true ↦ some ([], s)
  | false ↦ elim (cut_equals s) [ none ↦ none | some (before, after) ↦ some (b ∷ before, after) ]
]
