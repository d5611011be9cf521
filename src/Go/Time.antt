-- ===== src/Go/Time.antt =====
-- `time.Time` and `time.Duration`. An instant is its distance in nanoseconds from Go's zero time,
-- 1 January of year 1, UTC; the wall clock and the monotonic reading of `time.Now` are one clock.
use ocsp.Base.{ℕ, ◌+◌, ◌-◌, ◌%◌, ◌^◌, Bool, false, if◌then◌else◌, eqb, arith, ◌≡◌}
use ocsp.Base.Int.{ℤ, pos, negsuc, ◌+ℤ◌, ◌-ℤ◌, ◌≤ℤ◌, ◌<ℤ◌, ltb_ℤ, int_laws}

abbrev pub Time : Type 0
Time = ℤ

abbrev pub Duration : Type 0
Duration = ℤ

-- `time.Time{}`
abbrev pub zero_time : Time
zero_time = pos 0

-- `t.IsZero()`
abbrev pub is_zero : Time → Bool
is_zero (pos n) = eqb n 0
is_zero (negsuc n) = false

-- `t.Before(u)`
abbrev pub before : Time → Time → Bool
before t u = ltb_ℤ t u

-- `t.After(u)`
abbrev pub after : Time → Time → Bool
after t u = ltb_ℤ u t

abbrev pub second : ℕ
second = 1_000_000_000

abbrev pub minute : ℕ
minute = 60_000_000_000

abbrev pub day : ℕ
day = 86_400_000_000_000

-- `-d` of a positive duration
abbrev pub negated : ℕ → Duration
negated d = pos 0 -ℤ pos d

-- A `Duration` is an int64, and `t.Sub(u)` stops at its ends.
abbrev pub max_duration : Duration
max_duration = pos (2 ^ 63 - 1)

abbrev pub min_duration : Duration
min_duration = negsuc (2 ^ 63 - 1)

abbrev pub saturate : ℤ → Duration
saturate d =
    if ltb_ℤ max_duration d then max_duration else if ltb_ℤ d min_duration then min_duration else d

abbrev pub sub : Time → Time → Duration
sub t u = saturate (t -ℤ u)

-- Arithmetic on an int64 wraps around.
unfoldable pub wrap_int64 : ℤ → ℤ
wrap_int64 (pos n) =
    let r = n % 2 ^ 64 in if ltb_ℤ max_duration (pos r) then pos r -ℤ pos (2 ^ 64) else pos r
wrap_int64 (negsuc n) =
    let r = 2 ^ 64 - 1 - n % 2 ^ 64 in
    if ltb_ℤ max_duration (pos r) then pos r -ℤ pos (2 ^ 64) else pos r

-- `t.Truncate(time.Second)`: down to a multiple of a second since the zero time.
unfoldable pub truncate_second : Time → Time
truncate_second (pos n) = pos (n - n % second)
truncate_second (negsuc n) = negsuc (n + (second - 1 - n % second))

pub truncate_second-le : (t : Time) → truncate_second t ≤ℤ t
unfolding truncate_second
truncate_second-le (pos n) = omega arith
truncate_second-le (negsuc n) = omega arith

-- Less than a second is lost.
pub lt-truncate_second : (t : Time) → t <ℤ truncate_second t +ℤ pos second
unfolding truncate_second
lt-truncate_second (pos n) = omega int_laws
lt-truncate_second (negsuc n) = omega int_laws

truncates : let t : Time = pos 1_999_999_999 in truncate_second t ≡ pos 1_000_000_000
unfolding truncate_second
truncates = ground arith
