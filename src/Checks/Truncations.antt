-- ===== src/Checks/Truncations.antt =====
-- Truncated dates and times, on the calendar in which every month has 31 days.
use graphdblite.Base.{
  ℕ, ◌+◌, ◌*◌, ◌/◌, ◌≡◌, refl, ◌&&◌, Option, none, some, ltb, if◌then◌else◌, text, arith,
}
use graphdblite.Base.Int.{ℤ, pos, negsuc, ◌+ℤ◌, ◌<ℤ◌}
use graphdblite.Types.Value.{i64, date_time, field, no_fields}
use graphdblite.Temporal.Outcome.{ok}
use graphdblite.Temporal.Between.Values.{div_euclid, rem_euclid, extract_time}
use graphdblite.Temporal.Between.Months.{IsDay}
use graphdblite.Temporal.Truncate.{
  Chronology, truncate_date_core, truncate_time_core, truncate_time,
}
use graphdblite.Temporal.Truncate.Times.{MakesTimes, milliseconds, truncate_time_core-IsMultiple}
use graphdblite.Temporal.Truncate.Dates.{ten, truncate_date_core-IsLater}
use graphdblite.Checks.EvenCalendar.{even, even_day, even_laws}

abbrev clock_time : ℕ → ℕ → ℕ → ℕ → Option (ℕ × ℕ)
clock_time h m s n =
    if (ltb h 24 && ltb m 60) && (ltb s 60 && ltb n 1000000000)
    then some (h * 3600 + m * 60 + s, n)
    else none

abbrev even_weeks : Chronology
even_weeks = record {
  calendar = even;
  from_hms_nano_opt = clock_time;
  with_nanosecond = λ t n. if ltb n 2000000000 then some (t.0, n) else none;
  days_from_monday = λ d. rem_euclid d 7;
  iso_year = λ d. div_euclid d 372;
  week_one = λ y. none;
  plus_days = λ d n. some (d +ℤ n);
  with_day = λ d n. none;
  with_month = λ d n. none;
}

even_weeks-MakesTimes : MakesTimes even_weeks
even_weeks-MakesTimes h m s n hh hm hs hn = ground arith

-- The nanosecond of an override is added to the milliseconds that are kept.
overridden :
    truncate_time even_weeks
      (text "millisecond")
      (date_time (pos 0) 45000 645876123 (pos 0) none)
      (field (text "nanosecond") (i64 (pos 2)) no_fields)
    ≡ ok (45000, 645000002)
unfolding truncate_time extract_time graphdblite.Types.Value.get_field
overridden = refl

truncate_time_core-IsMultiple_example :
    (s : ℕ) × (n : ℕ) × (truncate_time_core even_weeks (text "millisecond") (45000, 645876123)
      ≡ ok (s, n))
    × (s * 1000000000 + n ≡ (45000 * 1000000000 + 645876123) / 1000000 * 1000000)
truncate_time_core-IsMultiple_example =
    truncate_time_core-IsMultiple even_weeks even_weeks-MakesTimes milliseconds 45000 645876123
      (omega arith) (omega arith)

-- The fifteenth of March in the year -44.
abbrev ides : ℤ
ides = even_day (negsuc 43) 3 15

ides-IsDay : IsDay even ides
unfolding even_day
ides-IsDay = record { made = refl; before_last = omega arith }

truncate_date_core-IsLater_example :
    (x : ℤ) × (truncate_date_core even_weeks (text "decade") ides ≡ ok x) × (ides <ℤ x)
unfolding even_day
truncate_date_core-IsLater_example =
    truncate_date_core-IsLater even_weeks even_laws ten 43 ides ides-IsDay refl (omega arith)
