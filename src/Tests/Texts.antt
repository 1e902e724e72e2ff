-- ===== src/Tests/Texts.antt =====
-- Texts: trimming, UTF-8, sanitizing, decimal numbers.
use gotify_vps_agent.Prelude.{◌≤◌, ◌≡◌, refl, [], ◌∷◌, ◌++◌, arith, length, All}
use gotify_vps_agent.Prelude.Int.{pos, negsuc}
use gotify_vps_agent.Prelude.Text.{bytes, decimal}
use gotify_vps_agent.Strings.{trim_space, decode_rune, encode_rune}
use gotify_vps_agent.Textsafe.{sanitize}
use gotify_vps_agent.Textsafe.Safety.{IsPlain, sanitize_bounds, sanitize-clean}

trimmed : trim_space (9 ∷ 0xc2 ∷ 0xa0 ∷ bytes "a b" ++ 0xe2 ∷ 0x80 ∷ 0xa8 ∷ 10 ∷ []) ≡ bytes "a b"
unfolding trim_space
trimmed = refl

-- A byte that is not UTF-8 becomes U+FFFD, a control character goes, a rune is not cut in two.
sanitized :
    sanitize (b'a' ∷ 0xff ∷ 0x1b ∷ 0xe2 ∷ 0x82 ∷ 0xac ∷ []) (pos 6) ≡ b'a' ∷ 0xef ∷ 0xbf ∷ 0xbd ∷ []
unfolding sanitize trim_space decode_rune encode_rune
sanitized = refl

printed : decimal (negsuc 41) ≡ bytes "-42"
unfolding decimal
printed = refl

sanitize_bounds_example :
    (length (sanitize (bytes " ok" ++ 0 ∷ 255 ∷ []) (pos 3)) ≤ 3)
    × All IsPlain (sanitize (bytes " ok" ++ 0 ∷ 255 ∷ []) (pos 3))
sanitize_bounds_example = sanitize_bounds (bytes " ok" ++ 0 ∷ 255 ∷ []) (pos 3)

sanitize-clean_example : sanitize (bytes " ok ") (pos 256) ≡ trim_space (bytes " ok ")
sanitize-clean_example = sanitize-clean (bytes " ok ") (pos 256) (ground arith) (omega arith)
