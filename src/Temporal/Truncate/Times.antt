-- ===== src/Temporal/Truncate/Times.antt =====
-- temporal.rs: a truncated time is the last multiple of the unit.
use graphdblite.Base.{ℕ, ◌+◌, ◌*◌, ◌/◌, ◌%◌, ◌<◌, some, ◌≡◌, Bytes, text, arith}
use graphdblite.Temporal.Outcome.{ok}
use graphdblite.Temporal.Truncate.{Chronology, at, truncate_time_core}

-- A unit of truncation and its nanoseconds; one of a day or more takes all of the time.
pub data IsUnit : Bytes → ℕ → Type 0 where
  millennium : IsUnit (text "millennium") 86400000000000
  century : IsUnit (text "century") 86400000000000
  decade : IsUnit (text "decade") 86400000000000
  year : IsUnit (text "year") 86400000000000
  week_year : IsUnit (text "weekYear") 86400000000000
  quarter : IsUnit (text "quarter") 86400000000000
  month : IsUnit (text "month") 86400000000000
  week : IsUnit (text "week") 86400000000000
  day : IsUnit (text "day") 86400000000000
  hours : IsUnit (text "hour") 3600000000000
  minutes : IsUnit (text "minute") 60000000000
  seconds : IsUnit (text "second") 1000000000
  milliseconds : IsUnit (text "millisecond") 1000000
  microseconds : IsUnit (text "microsecond") 1000

-- chrono makes a time from each hour, minute, second and nanosecond below a second.
abbrev pub MakesTimes : Chronology → Type 0
MakesTimes C =
    (h m s n : ℕ)
    → h < 24
    → m < 60
    → s < 60
    → n < 1000000000
    → C.from_hms_nano_opt h m s n ≡ some (h * 3600 + m * 60 + s, n)

module _ (C : Chronology) (L : MakesTimes C) where
  made :
      (h m s n total : ℕ)
      → h < 24
      → m < 60
      → s < 60
      → n < 1000000000
      → (h * 3600 + m * 60 + s) * 1000000000 + n ≡ total
      → (s' : ℕ) × (n' : ℕ) × (at C h m s n ≡ ok (s', n')) × (s' * 1000000000 + n' ≡ total)
  made h m s n total hh hm hs hn e = (h * 3600 + m * 60 + s, n, rw (L h m s n hh hm hs hn), e)

  midnight :
      (s n : ℕ)
      → s < 86400
      → n < 1000000000
      → (s' : ℕ) × (n' : ℕ) × (at C 0 0 0 0 ≡ ok (s', n'))
        × (s' * 1000000000 + n' ≡ (s * 1000000000 + n) / 86400000000000 * 86400000000000)
  midnight s n h k =
      made 0 0 0 0 ((s * 1000000000 + n) / 86400000000000 * 86400000000000) (omega arith)
        (omega arith) (omega arith) (omega arith) (omega arith)

  -- Where chrono makes a time from each hour, minute, second and nanosecond below a second,
  -- truncate_time_core succeeds on a time that is no leap second, at each of its units, and the
  -- nanoseconds since midnight are the last multiple of the unit that is not past the time.
  pub truncate_time_core-IsMultiple :
      {unit : Bytes} {step : ℕ}
      → IsUnit unit step
      → (s n : ℕ) → s < 86400
      → n < 1000000000
      → (s' : ℕ) × (n' : ℕ) × (truncate_time_core C unit (s, n) ≡ ok (s', n'))
        × (s' * 1000000000 + n' ≡ (s * 1000000000 + n) / step * step)
  unfolding truncate_time_core
  truncate_time_core-IsMultiple millennium s n h k = midnight s n h k
  truncate_time_core-IsMultiple century s n h k = midnight s n h k
  truncate_time_core-IsMultiple decade s n h k = midnight s n h k
  truncate_time_core-IsMultiple year s n h k = midnight s n h k
  truncate_time_core-IsMultiple week_year s n h k = midnight s n h k
  truncate_time_core-IsMultiple quarter s n h k = midnight s n h k
  truncate_time_core-IsMultiple month s n h k = midnight s n h k
  truncate_time_core-IsMultiple week s n h k = midnight s n h k
  truncate_time_core-IsMultiple day s n h k = midnight s n h k
  truncate_time_core-IsMultiple hours s n h k =
      made (s / 3600) 0 0 0 ((s * 1000000000 + n) / 3600000000000 * 3600000000000) (omega arith)
        (omega arith) (omega arith) (omega arith) (omega arith)
  truncate_time_core-IsMultiple minutes s n h k =
      made (s / 3600) (s / 60 % 60) 0 0 ((s * 1000000000 + n) / 60000000000 * 60000000000)
        (omega arith) (omega arith) (omega arith) (omega arith) (omega arith)
  truncate_time_core-IsMultiple seconds s n h k =
      made (s / 3600) (s / 60 % 60) (s % 60) 0 ((s * 1000000000 + n) / 1000000000 * 1000000000)
        (omega arith) (omega arith) (omega arith) (omega arith) (omega arith)
  truncate_time_core-IsMultiple milliseconds s n h k =
      made (s / 3600) (s / 60 % 60) (s % 60) (n / 1000000 * 1000000)
        ((s * 1000000000 + n) / 1000000 * 1000000) (omega arith) (omega arith) (omega arith)
        (omega arith) (omega arith)
  truncate_time_core-IsMultiple microseconds s n h k =
      made (s / 3600) (s / 60 % 60) (s % 60) (n / 1000 * 1000) ((s * 1000000000 + n) / 1000 * 1000)
        (omega arith) (omega arith) (omega arith) (omega arith) (omega arith)
