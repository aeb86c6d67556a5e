-- ===== src/Checks/Durations.antt =====
-- Durations between small dates, with a calendar in which every month has 31 days.
use graphdblite.Base.{ℕ, ◌<◌, ◌≡◌, refl, arith}
use graphdblite.Base.Int.{ℤ, pos, ◌+ℤ◌}
use graphdblite.Types.Value.{date, local_date_time}
use graphdblite.Temporal.Outcome.{ok}
use graphdblite.Temporal.Parse.{times}
use graphdblite.Temporal.Stored.DateTime.{CypherDuration}
use graphdblite.Temporal.Between.{
  shifted_nanos, effective_offset_dst, offset_of_local, duration_in_days, duration_in_seconds,
  lasting, duration_between,
}
use graphdblite.Temporal.Between.Values.{
  extract_time, is_offset_aware, extract_tz_name, extract_date,
}
use graphdblite.Temporal.Between.Exact.{
  duration_in_days_lem, IsRest, duration_in_seconds_lem, nanos_between, time_between, nanos_of,
}
use graphdblite.Temporal.Between.Months.{IsDay}
use graphdblite.Temporal.Between.Whole.{IsWhole}
use graphdblite.Temporal.Between.Elapsed.{duration_between-IsWhole}
use graphdblite.Checks.EvenCalendar.{even, even_day, even_laws}

abbrev early : ℤ
early = even_day (pos 2014) 3 31

abbrev late : ℤ
late = even_day (pos 2015) 2 3

early-IsDay : IsDay even early
unfolding even_day
early-IsDay = record { made = refl; before_last = omega arith }

late-IsDay : IsDay even late
unfolding even_day
late-IsDay = record { made = refl; before_last = omega arith }

duration_between-IsWhole_example :
    (r : CypherDuration) × (advanced : ℤ) × (duration_between even
        (date early)
        (local_date_time late 3600 0)
      ≡ ok r)
    × IsWhole even early late (CypherDuration.months r) advanced
    × (nanos_of r
        ≡ nanos_between advanced late
            (time_between even (date early) (local_date_time late 3600 0)))
unfolding even_day extract_date
duration_between-IsWhole_example =
    duration_between-IsWhole even even_laws (date early) (local_date_time late 3600 0) early late
      refl refl early-IsDay late-IsDay (omega arith)

time_of_day : time_between even (date (pos 9)) (local_date_time (pos 7) 3600 5) ≡ pos 3600000000005
unfolding shifted_nanos effective_offset_dst extract_time is_offset_aware extract_tz_name
    offset_of_local
time_of_day = refl

duration_in_days_lem_example :
    (days rest : ℤ) × (duration_in_days even (date (pos 9)) (local_date_time (pos 7) 3600 5)
      ≡ lasting (pos 0) days (pos 0) 0)
    × IsRest
        (nanos_between
          (pos 9)
          (pos 7)
          (time_between even (date (pos 9)) (local_date_time (pos 7) 3600 5)))
        86400000000000
        days
        rest
unfolding extract_date
duration_in_days_lem_example =
    duration_in_days_lem even (date (pos 9)) (local_date_time (pos 7) 3600 5) (pos 9) (pos 7) refl
      refl (omega arith, omega arith) (rw time_of_day (omega arith), rw time_of_day (omega arith))

duration_in_seconds_lem_example :
    (seconds : ℤ) × (nanos : ℕ) × (duration_in_seconds even
        (date (pos 9))
        (local_date_time (pos 7) 3600 5)
      ≡ lasting (pos 0) (pos 0) seconds nanos)
    × (times seconds 1000000000 +ℤ pos nanos
        ≡ nanos_between
            (pos 9)
            (pos 7)
            (time_between even (date (pos 9)) (local_date_time (pos 7) 3600 5)))
    × (nanos < 1000000000)
unfolding extract_date
duration_in_seconds_lem_example =
    duration_in_seconds_lem even (date (pos 9)) (local_date_time (pos 7) 3600 5) (pos 9) (pos 7)
      refl refl (omega arith, omega arith)
      (rw time_of_day (omega arith), rw time_of_day (omega arith))
