-- ===== src/Clock.antt =====
-- What the program uses of Go's package time. A `time.Time` is the number of nanoseconds since the
-- zero Time (1 January of year 1, UTC), so the zero Time is 0; earlier times do not occur.
use gotify_vps_agent.Prelude.{
  ℕ, ◌+◌, ◌-◌, ◌*◌, ◌%◌, ◌≤◌, ◌<◌, ◌≡◌, Bool, arith, ltb, leb, ◌==◌, if◌then◌else◌, min,
}
use gotify_vps_agent.Prelude.Int.{ℤ, pos, negsuc, leb_ℤ, signed64, scale64}

abbrev pub Time : Type 0
Time = ℕ

abbrev pub second : ℕ
second = 1000000000

abbrev pub minute : ℕ
minute = 60000000000

abbrev pub hour : ℕ
hour = 3600000000000

abbrev pub is_zero : Time → Bool
is_zero t = t == 0

abbrev pub before : Time → Time → Bool
before a b = ltb a b

-- `t.UnixNano()`: nanoseconds since 1970, cut to 64 bits.
unfoldable pub unix_nano : Time → ℤ
unix_nano t = signed64 ((t + 73786976294838206464 - 62135596800000000000) % 18446744073709551616)

-- `a.Sub(b)`: a `time.Duration`, which saturates.
unfoldable pub sub_time : Time → Time → ℤ
sub_time a b =
    if leb b a
    then pos (min (a - b) 9223372036854775807)
    else negsuc (min (b - a - 1) 9223372036854775807)

-- A difference of two times reaches a positive duration of `h` hours, `h` at most 8760, exactly when
-- the later time has come that far.
pub sub_time-hours :
    (h now then' : ℕ)
    → 0 < h
    → h ≤ 8760
    → leb_ℤ (scale64 (pos h) hour) (sub_time now then') ≡ leb (then' + h * hour) now
unfolding sub_time scale64
sub_time-hours h now then' p q = ground arith
