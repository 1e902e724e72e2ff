-- ===== src/Strings/Search.antt =====
-- More of Go's package strings: prefixes, cutting, splitting, fields and replacing, over bytes.
use mathlib.Core.List.{reverse}
use gotify_vps_agent.Prelude.{
  ℕ, zero, suc, ◌-◌, Bool, true, false, ◌&&◌, ◌||◌, List, [], ◌∷◌, ◌++◌, Option, none, some, ◌==◌,
  if◌then◌else◌, length,
}
use gotify_vps_agent.Prelude.Text.{Text, is_empty, text_eq}
use gotify_vps_agent.Strings.{space_size}

-- strings.HasPrefix(s, prefix)
unfoldable pub has_prefix : Text → Text → Bool
has_prefix s [] = true
has_prefix [] (p ∷ prefix) = false
has_prefix (b ∷ s) (p ∷ prefix) = b == p && has_prefix s prefix

-- strings.HasSuffix(s, suffix)
unfoldable pub has_suffix : Text → Text → Bool
unfolding has_prefix
has_suffix s suffix = has_prefix (reverse s) (reverse suffix)

-- strings.Contains(s, part)
unfoldable pub contains : Text → Text → Bool
unfolding has_prefix
contains [] part = is_empty part
contains (b ∷ s) part = has_prefix (b ∷ s) part || contains s part

-- strings.Cut at one byte.
unfoldable pub cut : ℕ → Text → Option (Text × Text)
cut separator [] = none
cut separator (b ∷ s) = elim (b == separator) [
  | true ↦ some ([], s)
  | false ↦ elim (cut separator s) [ none ↦ none | some (before, after) ↦ some (b ∷ before, after) ]
]

onto_first : ℕ → List Text → List Text
onto_first b [] = (b ∷ []) ∷ []
onto_first b (s ∷ rest) = (b ∷ s) ∷ rest

-- strings.Split at one byte.
unfoldable pub split : ℕ → Text → List Text
unfolding onto_first
split separator [] = [] ∷ []
split separator (b ∷ s) =
    let rest = split separator s in if b == separator then [] ∷ rest else onto_first b rest

end_field : Text → List Text → List Text
end_field [] rest = rest
end_field (b ∷ back) rest = reverse (b ∷ back) ∷ rest

-- `skip` bytes of a white space rune are left; `back` is the field so far, last byte first.
fields_from : Text → ℕ → Text → List Text
unfolding end_field
fields_from [] skip back = end_field back []
fields_from (b ∷ s) (suc skip) back = fields_from s skip back
fields_from (b ∷ s) zero back =
    let size = space_size (b ∷ s) in
    let rest = fields_from s (size - 1) (if size == 0 then b ∷ back else []) in
    if size == 0 then rest else end_field back rest

-- strings.Fields
unfoldable pub fields : Text → List Text
unfolding fields_from
fields s = fields_from s 0 []

-- The first pair whose old text stands at the front.
replacement : List (Text × Text) → Text → Option (Text × Text)
unfolding has_prefix
replacement [] s = none
replacement ((old, new) ∷ pairs) s =
    if has_prefix s old then some (old, new) else replacement pairs s

replace_from : List (Text × Text) → Text → ℕ → Text
unfolding replacement
replace_from pairs [] skip = []
replace_from pairs (b ∷ s) (suc skip) = replace_from pairs s skip
replace_from pairs (b ∷ s) zero = elim (replacement pairs (b ∷ s)) [
  | none ↦ b ∷ replace_from pairs s 0
  | some (old, new) ↦ new ++ replace_from pairs s (length old - 1)
]

-- strings.NewReplacer(...).Replace and strings.ReplaceAll, where no old text is empty.
unfoldable pub replace : List (Text × Text) → Text → Text
unfolding replace_from
replace pairs s = replace_from pairs s 0

-- strings.TrimRight of one byte, and strings.Trim of one byte; the text backwards first.
unfoldable pub trim_left_byte : ℕ → Text → Text
trim_left_byte c [] = []
trim_left_byte c (b ∷ s) = elim (b == c) [ true ↦ trim_left_byte c s | false ↦ b ∷ s ]

unfoldable pub trim_right_byte : ℕ → Text → Text
unfolding trim_left_byte
trim_right_byte c s = reverse (trim_left_byte c (reverse s))

unfoldable pub trim_byte : ℕ → Text → Text
unfolding trim_left_byte trim_right_byte
trim_byte c s = trim_right_byte c (trim_left_byte c s)

-- strings.Join
unfoldable pub join : Text → List Text → Text
join separator [] = []
join separator (s ∷ []) = s
join separator (s ∷ t ∷ rest) = s ++ separator ++ join separator (t ∷ rest)

-- The texts of a list contain one equal to this one.
abbrev pub among : Text → List Text → Bool
among s [] = false
among s (t ∷ rest) = text_eq s t || among s rest
