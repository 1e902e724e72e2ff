-- ===== src/Textsafe/Safety.antt =====
-- What `Sanitize` promises about every input: its length, its bytes, and what it leaves alone.
use gotify_vps_agent.Prelude.{
  ℕ, zero, suc, ◌+◌, ◌≤◌, ◌<◌, ◌≡◌, ap, ◌≢◌, ◌⊎◌, true, [], ◌∷◌, ◌++◌, append-nil, append_assoc,
  arith, length, drop, length-append, All, All-append,
}
use gotify_vps_agent.Prelude.Int.{ℤ}
use gotify_vps_agent.Prelude.Text.{Text}
use gotify_vps_agent.Strings.{decode_rune, encode_rune, trim_space}
use gotify_vps_agent.Strings.Bounds.{length-trim_space, All-trim_space}
use gotify_vps_agent.Textsafe.{is_plain, sanitize_from, clamp_limit, sanitize}

-- A byte that is no control character but for a newline and a tab.
abbrev pub IsPlain : ℕ → Type 0
IsPlain b = (b ≡ 10) ⊎ (b ≡ 9) ⊎ ((32 ≤ b) × (b ≢ 127))

encode_rune-IsPlain : (r : ℕ) → is_plain r ≡ true → All IsPlain (encode_rune r)
unfolding encode_rune is_plain
encode_rune-IsPlain r h = ground arith

length-sanitize_from :
    (fuel : ℕ) (value : Text) (limit : ℕ) (builder : Text)
    → length builder ≤ limit
    → length (sanitize_from fuel value limit builder) ≤ limit
unfolding sanitize_from
length-sanitize_from zero value limit builder h = h
length-sanitize_from (suc fuel) [] limit builder h = h
length-sanitize_from (suc fuel) (a ∷ s) limit builder h =
    let (r, size) = decode_rune (a ∷ s) in
    ground (
      arith,
      length-sanitize_from fuel (drop size (a ∷ s)) limit builder h,
      length-sanitize_from fuel (drop size (a ∷ s)) limit (builder ++ encode_rune r),
      length-append builder (encode_rune r),
    )

sanitize_from-IsPlain :
    (fuel : ℕ) (value : Text) (limit : ℕ) (builder : Text)
    → All IsPlain builder
    → All IsPlain (sanitize_from fuel value limit builder)
unfolding sanitize_from
sanitize_from-IsPlain zero value limit builder h = h
sanitize_from-IsPlain (suc fuel) [] limit builder h = h
sanitize_from-IsPlain (suc fuel) (a ∷ s) limit builder h =
    let (r, size) = decode_rune (a ∷ s) in
    ground (
      arith,
      h,
      sanitize_from-IsPlain fuel (drop size (a ∷ s)) limit builder h,
      λ (p : is_plain r ≡ true).
          sanitize_from-IsPlain fuel (drop size (a ∷ s)) limit (builder ++ encode_rune r)
            (All-append IsPlain builder (encode_rune r) h (encode_rune-IsPlain r p)),
    )

-- For every text and every limit, the sanitized text has at most `limit` bytes (none under a
-- negative limit), and each of its bytes is a newline, a tab, or no control character: neither
-- below 0x20 nor 0x7f.
pub sanitize_bounds :
    (value : Text) (limit : ℤ)
    → (length (sanitize value limit) ≤ clamp_limit limit) × All IsPlain (sanitize value limit)
unfolding sanitize
sanitize_bounds value limit =
    let out = sanitize_from (length value) value (clamp_limit limit) [] in
    (
      omega (
        arith,
        length-sanitize_from (length value) value (clamp_limit limit) [],
        length-trim_space out,
      ),
      All-trim_space IsPlain out (sanitize_from-IsPlain (length value) value _ [] tt),
    )

-- Printable ASCII, newlines and tabs.
abbrev pub IsCleanAscii : ℕ → Type 0
IsCleanAscii b = (b < 128) × IsPlain b

decode_rune-ascii : (a : ℕ) (s : Text) → a < 128 → decode_rune (a ∷ s) ≡ (a, 1)
unfolding decode_rune
decode_rune-ascii a s h = ground arith

encode_rune-ascii : (a : ℕ) → a < 128 → encode_rune a ≡ a ∷ []
unfolding encode_rune
encode_rune-ascii a h = ground arith

IsPlain-is_plain : (a : ℕ) → IsPlain a → is_plain a ≡ true
unfolding is_plain
IsPlain-is_plain a h = ground arith

sanitize_from-clean :
    (fuel : ℕ) (value : Text) (limit : ℕ) (builder : Text)
    → All IsCleanAscii value
    → length value ≤ fuel
    → length builder + length value ≤ limit
    → sanitize_from fuel value limit builder ≡ builder ++ value
unfolding sanitize_from
sanitize_from-clean zero [] limit builder c f l = rw append-nil
sanitize_from-clean zero (a ∷ s) limit builder c f l = absurd (omega arith)
sanitize_from-clean (suc fuel) [] limit builder c f l = rw append-nil
sanitize_from-clean (suc fuel) (a ∷ s) limit builder c f l =
    rw (decode_rune-ascii a s c.0.0, encode_rune-ascii a c.0.0)
      (ground (
        arith,
        IsPlain-is_plain a c.0.1,
        length-append builder (a ∷ []),
        append_assoc builder (a ∷ []) s,
        sanitize_from-clean fuel s limit (builder ++ a ∷ []) c.1 (omega arith)
            (omega (arith, length-append builder (a ∷ []))),
      ))

-- On clean ASCII text that fits the limit `Sanitize` does nothing but trim white space: the loop
-- reaches the end of the text and drops none of it.
pub sanitize-clean :
    (value : Text) (limit : ℤ)
    → All IsCleanAscii value
    → length value ≤ clamp_limit limit
    → sanitize value limit ≡ trim_space value
unfolding sanitize
sanitize-clean value limit c l =
    let whole = sanitize_from-clean (length value) value (clamp_limit limit) [] c (omega arith) in
    ap trim_space (whole (omega arith))
