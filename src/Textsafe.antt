-- ===== src/Textsafe.antt =====
-- internal/textsafe: text from outside is cut to a length and stripped of control characters.
pub mod Safety
use gotify_vps_agent.Prelude.{
  ℕ, zero, suc, ◌+◌, Bool, ◌&&◌, ◌||◌, not, List, [], ◌∷◌, ◌++◌, ltb, leb, ◌==◌, if◌then◌else◌,
  length, drop,
}
use gotify_vps_agent.Prelude.Int.{ℤ, pos, negsuc}
use gotify_vps_agent.Prelude.Text.{Text}
use gotify_vps_agent.Strings.{decode_rune, encode_rune, trim_space}

-- The condition under which a rune is written.
is_plain : ℕ → Bool
is_plain r = r == 10 || r == 9 || (leb 0x20 r && not (r == 0x7f))

-- The loop of `Sanitize`. A round takes a byte or more off `value`, so its length is fuel enough.
sanitize_from : ℕ → Text → ℕ → Text → Text
unfolding is_plain
sanitize_from zero value limit builder = builder
sanitize_from (suc fuel) [] limit builder = builder
sanitize_from (suc fuel) (a ∷ s) limit builder =
    let (r, size) = decode_rune (a ∷ s) in
    let encoded = encode_rune r in
    let skipped = sanitize_from fuel (drop size (a ∷ s)) limit builder in
    let written = sanitize_from fuel (drop size (a ∷ s)) limit (builder ++ encoded) in
    if ltb (length builder) limit
    then (if is_plain r
        then (if ltb limit (length builder + length encoded) then builder else written)
        else skipped)
    else builder

-- `if limit < 0 { limit = 0 }`
abbrev pub clamp_limit : ℤ → ℕ
clamp_limit (pos n) = n
clamp_limit (negsuc n) = 0

unfoldable pub sanitize : Text → ℤ → Text
unfolding sanitize_from
sanitize value limit = trim_space (sanitize_from (length value) value (clamp_limit limit) [])
