-- ===== src/Prelude/Int.antt =====
-- Go's `int`, `int64` and `time.Duration`: integers over the native numbers, wrapped to 64 bits.
use Prim.Native.Nat.{ℕ, zero, suc, ◌-◌, ◌*◌, ◌%◌, ◌<◌}
use mathlib.Core.Path.{◌≡◌}
use mathlib.Core.Bool.{Bool, true, false}
use native.Mathlib.Omega.{arith}
use gotify_vps_agent.Prelude.Tests.{ltb, leb, ◌==◌, if◌then◌else◌}

-- `negsuc n` is -(n + 1).
pub data ℤ : Type 0 where
  pos : ℕ → ℤ
  negsuc : ℕ → ℤ

abbrev pub leb_ℤ : ℤ → ℤ → Bool
leb_ℤ (pos a) (pos b) = leb a b
leb_ℤ (pos a) (negsuc b) = false
leb_ℤ (negsuc a) (pos b) = true
leb_ℤ (negsuc a) (negsuc b) = leb b a

abbrev pub ltb_ℤ : ℤ → ℤ → Bool
ltb_ℤ (pos a) (pos b) = ltb a b
ltb_ℤ (pos a) (negsuc b) = false
ltb_ℤ (negsuc a) (pos b) = true
ltb_ℤ (negsuc a) (negsuc b) = ltb b a

abbrev pub eqb_ℤ : ℤ → ℤ → Bool
eqb_ℤ (pos a) (pos b) = a == b
eqb_ℤ (pos a) (negsuc b) = false
eqb_ℤ (negsuc a) (pos b) = false
eqb_ℤ (negsuc a) (negsuc b) = a == b

-- The larger of two integers.
abbrev pub max_ℤ : ℤ → ℤ → ℤ
max_ℤ a b = if leb_ℤ b a then a else b

-- The integer that 64 bits stand for.
abbrev pub signed64 : ℕ → ℤ
signed64 u = if ltb u 9223372036854775808 then pos u else negsuc (18446744073709551615 - u)

-- The 64 bits that an integer is cut to.
abbrev pub bits64 : ℤ → ℕ
bits64 (pos n) = n % 18446744073709551616
bits64 (negsuc n) = 18446744073709551615 - n % 18446744073709551616

unfoldable pub wrap64 : ℤ → ℤ
wrap64 z = signed64 (bits64 z)

-- `n++` on an `int`.
unfoldable pub inc : ℤ → ℤ
unfolding wrap64
inc (pos n) = wrap64 (pos (suc n))
inc (negsuc zero) = pos 0
inc (negsuc (suc n)) = negsuc n

-- Below the largest `int` an increment is exact.
pub inc-pos : (n : ℕ) → n < 9223372036854775807 → inc (pos n) ≡ pos (suc n)
unfolding inc
inc-pos n h = ground arith

pub inc_nonneg : (z : ℤ) (n : ℕ) → inc z ≡ pos n → leb_ℤ (pos n) (pos 9223372036854775807) ≡ true
unfolding inc
inc_nonneg (pos m) n e = ground arith
inc_nonneg (negsuc zero) n e = ground arith
inc_nonneg (negsuc (suc m)) n e = ground arith

-- `d * k` on a `time.Duration`, for a positive constant `k`.
unfoldable pub scale64 : ℤ → ℕ → ℤ
unfolding wrap64
scale64 (pos n) k = wrap64 (pos (n * k))
scale64 (negsuc n) k = wrap64 (negsuc (suc n * k - 1))

pub leb_ℤ_refl : (a : ℤ) → leb_ℤ a a ≡ true
leb_ℤ_refl a = ground arith

pub leb_ℤ_trans : (a b c : ℤ) → leb_ℤ a b ≡ true → leb_ℤ b c ≡ true → leb_ℤ a c ≡ true
leb_ℤ_trans a b c h k = ground arith

pub eqb_ℤ_refl : (a : ℤ) → eqb_ℤ a a ≡ true
eqb_ℤ_refl a = ground arith

pub ltb_ℤ→leb : (a b : ℤ) → ltb_ℤ a b ≡ true → leb_ℤ a b ≡ true
ltb_ℤ→leb a b h = ground arith

pub not_ltb_ℤ→leb : (a b : ℤ) → ltb_ℤ a b ≡ false → leb_ℤ b a ≡ true
not_ltb_ℤ→leb a b h = ground arith
