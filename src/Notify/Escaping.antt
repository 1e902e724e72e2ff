-- ===== src/Notify/Escaping.antt =====
-- What escaped Markdown can contain.
use gotify_vps_agent.Prelude.{
  ℕ, ◌≡◌, ◌≢◌, ◌⊎◌, inl, inr, Bool, true, false, [], ◌∷◌, ◌++◌, arith, All,
}
use gotify_vps_agent.Prelude.Text.{Text}
use gotify_vps_agent.Notify.{flatten_lines, escape_byte, escape_bytes, escape_markdown}

abbrev pub IsOneLine : ℕ → Type 0
IsOneLine b = (b ≢ 10) × (b ≢ 13)

-- A byte that neither ends a line nor starts or ends an HTML tag.
abbrev pub IsHarmless : ℕ → Type 0
IsHarmless b = (b ≢ 10) × (b ≢ 13) × (b ≢ b'<') × (b ≢ b'>')

-- A harmless byte that has no meaning in Markdown either.
abbrev pub IsInert : ℕ → Type 0
IsInert b = IsHarmless b × (b ≢ b'*') × (b ≢ b'_') × (b ≢ b'`') × (b ≢ b'[') × (b ≢ b']') × (b ≢ 92)

-- Read from the left, every byte is inert, a backslash, or a harmless byte behind a backslash, and
-- no backslash is left over at the end. The flag says that a backslash has just been read.
abbrev pub IsEscaped : Bool → Text → Type 0
IsEscaped false [] = Unit {0}
IsEscaped true [] = ⊥
IsEscaped false (b ∷ s) = ((b ≡ 92) × IsEscaped true s) ⊎ (IsInert b × IsEscaped false s)
IsEscaped true (b ∷ s) = IsHarmless b × IsEscaped false s

IsEscaped-append :
    (flag : Bool) (s t : Text) → IsEscaped flag s → IsEscaped false t → IsEscaped flag (s ++ t)
IsEscaped-append false [] t h k = k
IsEscaped-append true [] t h k = absurd h
IsEscaped-append false (b ∷ s) t (inl (e, h)) k = inl (e, IsEscaped-append true s t h k)
IsEscaped-append false (b ∷ s) t (inr (i, h)) k = inr (i, IsEscaped-append false s t h k)
IsEscaped-append true (b ∷ s) t h k = (h.0, IsEscaped-append false s t h.1 k)

escape_byte-IsEscaped : (b : ℕ) → IsOneLine b → IsEscaped false (escape_byte b)
unfolding escape_byte
escape_byte-IsEscaped b h = ground arith

flatten_lines-IsOneLine : (s : Text) → All IsOneLine (flatten_lines s)
unfolding flatten_lines
flatten_lines-IsOneLine [] = tt
flatten_lines-IsOneLine (a ∷ []) = ground arith
flatten_lines-IsOneLine (a ∷ b ∷ s) =
    ground (arith, flatten_lines-IsOneLine s, flatten_lines-IsOneLine (b ∷ s))

escape_bytes-IsEscaped : (s : Text) → All IsOneLine s → IsEscaped false (escape_bytes s)
unfolding escape_bytes
escape_bytes-IsEscaped [] h = tt
escape_bytes-IsEscaped (b ∷ s) h =
    IsEscaped-append false (escape_byte b) (escape_bytes s) (escape_byte-IsEscaped b h.0)
      (escape_bytes-IsEscaped s h.1)

pub escape_markdown-IsEscaped : (value : Text) → IsEscaped false (escape_markdown value)
unfolding escape_markdown
escape_markdown-IsEscaped value =
    escape_bytes-IsEscaped (flatten_lines value) (flatten_lines-IsOneLine value)
