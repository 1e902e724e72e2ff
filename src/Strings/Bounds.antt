-- ===== src/Strings/Bounds.antt =====
-- Trimming and decoding never lengthen a string, and trimming keeps a property of all bytes.
use mathlib.Core.List.{reverse, reverse-cons}
use gotify_vps_agent.Prelude.{
  ℕ, zero, suc, ◌≤◌, ◌≡◌, refl, ap, List, [], ◌∷◌, arith, length, drop, length-append, length-drop,
  All, All-append, All-drop,
}
use gotify_vps_agent.Prelude.Text.{Text}
use gotify_vps_agent.Strings.{trim_by, trim_space, decode_rune, space_size, space_size_back}

length-reverse {ℓ} : {A : Type ℓ} (xs : List A) → length (reverse xs) ≡ length xs
length-reverse [] = refl
length-reverse (x ∷ xs) =
    omega
      (arith, ap length (reverse-cons x xs), length-append (reverse xs) (x ∷ []), length-reverse xs)

All-reverse {ℓ κ} : {A : Type ℓ} (P : A → Type κ) (xs : List A) → All P xs → All P (reverse xs)
All-reverse P [] h = tt
All-reverse P (x ∷ xs) h =
    rw (reverse-cons x xs) (All-append P (reverse xs) (x ∷ []) (All-reverse P xs h.1) (h.0, tt))

length-trim_by : (size : Text → ℕ) (fuel : ℕ) (s : Text) → length (trim_by size fuel s) ≤ length s
unfolding trim_by
length-trim_by size zero s = omega arith
length-trim_by size (suc fuel) s =
    ground (arith, length-trim_by size fuel (drop (size s) s), length-drop (size s) s)

All-trim_by {κ} :
    (P : ℕ → Type κ) (size : Text → ℕ) (fuel : ℕ) (s : Text) → All P s → All P (trim_by size fuel s)
unfolding trim_by
All-trim_by P size zero s h = h
All-trim_by P size (suc fuel) s h =
    ground (arith, h, All-trim_by P size fuel (drop (size s) s) (All-drop P (size s) s h))

pub length-trim_space : (s : Text) → length (trim_space s) ≤ length s
unfolding trim_space
length-trim_space s =
    let left = trim_by space_size (length s) s in
    omega (
      arith,
      length-trim_by space_size (length s) s,
      length-reverse left,
      length-trim_by space_size_back (length left) (reverse left),
      length-reverse (trim_by space_size_back (length left) (reverse left)),
    )

pub All-trim_space {κ} : (P : ℕ → Type κ) (s : Text) → All P s → All P (trim_space s)
unfolding trim_space
All-trim_space P s h =
    let left = trim_by space_size (length s) s in
    All-reverse P (trim_by space_size_back (length left) (reverse left)) (
      All-trim_by P space_size_back (length left) (reverse left)
        (All-reverse P left (All-trim_by P space_size (length s) s h)))

-- A rune that is decoded takes up at least one byte and at most four.
pub decode_rune_size :
    (a : ℕ) (s : Text) → (1 ≤ (decode_rune (a ∷ s)).1) × ((decode_rune (a ∷ s)).1 ≤ 4)
unfolding decode_rune
decode_rune_size a [] = ground arith
decode_rune_size a (b ∷ []) = ground arith
decode_rune_size a (b ∷ c ∷ []) = ground arith
decode_rune_size a (b ∷ c ∷ d ∷ s) = ground arith
