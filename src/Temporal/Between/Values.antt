-- ===== src/Temporal/Between/Values.antt =====
-- temporal.rs: division of signed numbers, and what durations read of a value.
use graphdblite.Base.{
  ℕ, suc, ◌-◌, ◌*◌, ◌/◌, ◌%◌, Bool, true, false, Option, none, some, ltb, if◌then◌else◌, Bytes,
}
use graphdblite.Base.Int.{ℤ, pos, negsuc}
use graphdblite.Types.Value.{Value, date, local_time, time, local_date_time, date_time}
use graphdblite.Temporal.Text.{negated}

-- `/`, `div_euclid` and `rem_euclid` by a positive number.
abbrev pub quotient : ℤ → ℕ → ℤ
quotient (pos n) k = pos (n / k)
quotient (negsuc n) k = negated (suc n / k)

abbrev pub div_euclid : ℤ → ℕ → ℤ
div_euclid (pos n) k = pos (n / k)
div_euclid (negsuc n) k = negsuc (n / k)

abbrev pub rem_euclid : ℤ → ℕ → ℕ
rem_euclid (pos n) k = n % k
rem_euclid (negsuc n) k = k - 1 - n % k

-- A number in two's complement, of which half the values are not negative.
abbrev pub folded : ℕ → ℕ → ℤ
folded half r = if ltb r half then pos r else negsuc (2 * half - 1 - r)

abbrev pub wrapped : ℕ → ℤ → ℤ
wrapped half (pos n) = folded half (n % (2 * half))
wrapped half (negsuc n) = folded half (2 * half - 1 - n % (2 * half))

abbrev pub wrap_i64 : ℤ → ℤ
wrap_i64 z = wrapped 0x8000000000000000 z

abbrev pub wrap_i32 : ℤ → ℤ
wrap_i32 z = wrapped 0x80000000 z

unfoldable pub extract_date : Value → Option ℤ
extract_date (date d) = some d
extract_date (local_date_time d s n) = some d
extract_date (date_time d s n off tz) = some d
extract_date other = none

-- The second of the day and the nanosecond.
unfoldable pub extract_time : Value → Option (ℕ × ℕ)
extract_time (date d) = some (0, 0)
extract_time (local_time s n) = some (s, n)
extract_time (time s n off) = some (s, n)
extract_time (local_date_time d s n) = some (s, n)
extract_time (date_time d s n off tz) = some (s, n)
extract_time other = none

unfoldable pub extract_offset_secs : Value → ℤ
extract_offset_secs (time s n off) = off
extract_offset_secs (date_time d s n off tz) = off
extract_offset_secs other = pos 0

unfoldable pub is_time_only : Value → Bool
is_time_only (local_time s n) = true
is_time_only (time s n off) = true
is_time_only other = false

unfoldable pub has_date : Value → Bool
has_date (date d) = true
has_date (local_date_time d s n) = true
has_date (date_time d s n off tz) = true
has_date other = false

unfoldable pub is_offset_aware : Value → Bool
is_offset_aware (time s n off) = true
is_offset_aware (date_time d s n off tz) = true
is_offset_aware other = false

unfoldable pub extract_tz_name : Value → Option Bytes
extract_tz_name (date_time d s n off tz) = tz
extract_tz_name other = none
