-- ===== src/Strings.antt =====
-- What the program uses of Go's packages strings and unicode/utf8, over the bytes of a string.
pub mod Bounds
pub mod Search
pub mod Lines
pub mod Format
use mathlib.Core.List.{reverse}
use gotify_vps_agent.Prelude.{
  ℕ, zero, suc, ◌+◌, ◌-◌, ◌*◌, ◌/◌, ◌%◌, ◌^◌, Bool, true, false, ◌&&◌, ◌||◌, List, [], ◌∷◌, ◌++◌,
  Option, none, some, ltb, leb, ◌==◌, if◌then◌else◌, length, drop,
}
use gotify_vps_agent.Prelude.Text.{Text, bytes}

abbrev within : ℕ → ℕ → ℕ → Bool
within lo hi b = leb lo b && leb b hi

-- unicode.IsSpace of a rune of one, two or three bytes.
unfoldable pub is_space : ℕ → Bool
is_space b = within 9 13 b || b == 32

unfoldable pub is_space_pair : ℕ → ℕ → Bool
is_space_pair a b = a == 0xc2 && (b == 0x85 || b == 0xa0)

unfoldable pub is_space_triple : ℕ → ℕ → ℕ → Bool
is_space_triple a b c =
    (a == 0xe1 && b == 0x9a && c == 0x80)
    || (a == 0xe2 && b == 0x80 && (within 0x80 0x8a c || c == 0xa8 || c == 0xa9 || c == 0xaf))
    || (a == 0xe2 && b == 0x81 && c == 0x9f)
    || (a == 0xe3 && b == 0x80 && c == 0x80)

-- The bytes of the white space rune that a string starts with, or 0.
unfoldable pub space_size : Text → ℕ
unfolding is_space is_space_pair is_space_triple
space_size [] = 0
space_size (a ∷ []) = if is_space a then 1 else 0
space_size (a ∷ b ∷ []) = if is_space a then 1 else if is_space_pair a b then 2 else 0
space_size (a ∷ b ∷ c ∷ s) =
    if is_space a
    then 1
    else if is_space_pair a b
    then 2
    else if is_space_triple a b c
    then 3
    else 0

-- The same for the white space rune that a string ends with, the last byte given first.
unfoldable pub space_size_back : Text → ℕ
unfolding is_space is_space_pair is_space_triple
space_size_back [] = 0
space_size_back (c ∷ []) = if is_space c then 1 else 0
space_size_back (c ∷ b ∷ []) = if is_space c then 1 else if is_space_pair b c then 2 else 0
space_size_back (c ∷ b ∷ a ∷ s) =
    if is_space c
    then 1
    else if is_space_pair b c
    then 2
    else if is_space_triple a b c
    then 3
    else 0

-- Drops what `size` measures as long as it is not 0. Each round drops a byte or more.
trim_by : (Text → ℕ) → ℕ → Text → Text
trim_by size zero s = s
trim_by size (suc fuel) s =
    let rest = trim_by size fuel (drop (size s) s) in if size s == 0 then s else rest

-- strings.TrimSpace
unfoldable pub trim_space : Text → Text
unfolding trim_by space_size space_size_back
trim_space s =
    let left = trim_by space_size (length s) s in
    reverse (trim_by space_size_back (length left) (reverse left))

-- utf8.RuneError
abbrev pub rune_error : ℕ
rune_error = 0xfffd

is_cont : ℕ → Bool
is_cont b = within 0x80 0xbf b

decode_two : ℕ → Text → ℕ × ℕ
unfolding is_cont
decode_two a [] = (rune_error, 1)
decode_two a (b ∷ s) = if is_cont b then ((a - 0xc0) * 0x40 + (b - 0x80), 2) else (rune_error, 1)

-- The second byte of a rune of three bytes, which keeps out overlong forms and surrogates.
second_of_three : ℕ → ℕ → Bool
second_of_three a b =
    if a == 0xe0
    then within 0xa0 0xbf b
    else if a == 0xed
    then within 0x80 0x9f b
    else within 0x80 0xbf b

second_of_four : ℕ → ℕ → Bool
second_of_four a b =
    if a == 0xf0
    then within 0x90 0xbf b
    else if a == 0xf4
    then within 0x80 0x8f b
    else within 0x80 0xbf b

decode_three : ℕ → Text → ℕ × ℕ
unfolding is_cont second_of_three
decode_three a [] = (rune_error, 1)
decode_three a (b ∷ []) = (rune_error, 1)
decode_three a (b ∷ c ∷ s) =
    if second_of_three a b && is_cont c
    then ((a - 0xe0) * 0x1000 + (b - 0x80) * 0x40 + (c - 0x80), 3)
    else (rune_error, 1)

decode_four : ℕ → Text → ℕ × ℕ
unfolding is_cont second_of_four
decode_four a [] = (rune_error, 1)
decode_four a (b ∷ []) = (rune_error, 1)
decode_four a (b ∷ c ∷ []) = (rune_error, 1)
decode_four a (b ∷ c ∷ d ∷ s) =
    if second_of_four a b && is_cont c && is_cont d
    then ((a - 0xf0) * 0x40000 + (b - 0x80) * 0x1000 + (c - 0x80) * 0x40 + (d - 0x80), 4)
    else (rune_error, 1)

-- utf8.DecodeRuneInString: a rune and its size, and (RuneError, 1) where the bytes are not UTF-8.
unfoldable pub decode_rune : Text → ℕ × ℕ
unfolding decode_two decode_three decode_four
decode_rune [] = (rune_error, 0)
decode_rune (a ∷ s) =
    if ltb a 0x80
    then (a, 1)
    else if within 0xc2 0xdf a
    then decode_two a s
    else if within 0xe0 0xef a
    then decode_three a s
    else if within 0xf0 0xf4 a
    then decode_four a s
    else (rune_error, 1)

-- string(r) of a rune that `decode_rune` returned.
unfoldable pub encode_rune : ℕ → Text
encode_rune r =
    if ltb r 0x80
    then r ∷ []
    else if ltb r 0x800
    then (0xc0 + r / 0x40) ∷ (0x80 + r % 0x40) ∷ []
    else if ltb r 0x10000
    then (0xe0 + r / 0x1000) ∷ (0x80 + r / 0x40 % 0x40) ∷ (0x80 + r % 0x40) ∷ []
    else (0xf0 + r / 0x40000)
      ∷ (0x80 + r / 0x1000 % 0x40)
      ∷ (0x80 + r / 0x40 % 0x40)
      ∷ (0x80 + r % 0x40)
      ∷ []
