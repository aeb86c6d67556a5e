-- ===== src/Temporal/Truncate.antt =====
-- temporal.rs: `date.truncate` and `time.truncate`. A date is its day number, a time its second of the
-- day and its nanosecond; `as u32` and the sum of two `u32` wrap, as in a release build.
pub mod Times
pub mod Dates
use graphdblite.Base.{
  ℕ, ◌+◌, ◌-◌, ◌*◌, ◌/◌, ◌%◌, Bool, ◌||◌, Option, none, some, ◌++◌, if◌then◌else◌, Bytes, bytes_eq,
  text,
}
use graphdblite.Base.Int.{ℤ, pos, ◌-ℤ◌}
use graphdblite.Types.Value.{Value, i64, Properties, get_field}
use graphdblite.Temporal.Outcome.{Outcome, ok, invalid, or_invalid, ◌>>=◌}
use graphdblite.Temporal.Text.{negated, padded_int}
use graphdblite.Temporal.Parse.{times}
use graphdblite.Temporal.Between.{Calendar, unwrapped}
use graphdblite.Temporal.Between.Values.{quotient, rem_euclid, wrap_i64, extract_date, extract_time}

-- What chrono does with times and with the weeks of day numbers; `none` of `plus_days` is the panic of
-- its `+`.
pub record Chronology : Type 0 where
  pub calendar : Calendar
  pub from_hms_nano_opt : ℕ → ℕ → ℕ → ℕ → Option (ℕ × ℕ)
  pub with_nanosecond : ℕ × ℕ → ℕ → Option (ℕ × ℕ)
  pub days_from_monday : ℤ → ℕ
  pub iso_year : ℤ → ℤ
  pub week_one : ℤ → Option ℤ
  pub plus_days : ℤ → ℤ → Option ℤ
  pub with_day : ℤ → ℕ → Option ℤ
  pub with_month : ℤ → ℕ → Option ℤ

abbrev pub as_u32 : ℤ → ℕ
as_u32 z = rem_euclid z 0x100000000

-- `{}` of an `i64`.
abbrev shown : ℤ → Bytes
shown z = padded_int 1 z

abbrev int_of : Option Value → Option ℤ
int_of none = none
int_of (some (i64 z)) = some z
int_of (some other) = none

-- An override that a map holds as an integer.
abbrev override : {A : Type 0} → Bytes → Properties → (ℤ → A → Outcome A) → A → Outcome A
override key map change a = elim (int_of (get_field key map)) [ none ↦ ok a | some z ↦ change z a ]

abbrev hour : ℕ × ℕ → ℕ
hour (s, n) = s / 3600

abbrev minute : ℕ × ℕ → ℕ
minute (s, n) = s / 60 % 60

abbrev second : ℕ × ℕ → ℕ
second (s, n) = s % 60

abbrev nanosecond : ℕ × ℕ → ℕ
nanosecond (s, n) = n

abbrev is_date_unit : Bytes → Bool
is_date_unit unit =
    (bytes_eq unit (text "millennium")
      || (bytes_eq unit (text "century")
          || (bytes_eq unit (text "decade") || bytes_eq unit (text "year"))))
    || ((bytes_eq unit (text "weekYear") || bytes_eq unit (text "quarter"))
        || (bytes_eq unit (text "month")
            || (bytes_eq unit (text "week") || bytes_eq unit (text "day"))))

abbrev is_day_unit : Bytes → Bool
is_day_unit unit =
    (bytes_eq unit (text "day") || (bytes_eq unit (text "hour") || bytes_eq unit (text "minute")))
    || (bytes_eq unit (text "second")
        || (bytes_eq unit (text "millisecond") || bytes_eq unit (text "microsecond")))

module _ (C : Chronology) where
  abbrev first_of : ℤ → ℕ → Outcome ℤ
  first_of y m = unwrapped (C.calendar.from_ymd_opt y m 1)

  -- January the first of the year, truncated to a number of years.
  abbrev pub years : ℕ → ℤ → Outcome ℤ
  years k date = first_of (times (quotient (C.calendar.year date) k) k) 1

  unfoldable pub truncate_date_core : Bytes → ℤ → Outcome ℤ
  truncate_date_core unit date =
      if bytes_eq unit (text "millennium")
      then years 1000 date
      else (if bytes_eq unit (text "century")
          then years 100 date
          else (if bytes_eq unit (text "decade")
              then years 10 date
              else (if bytes_eq unit (text "year")
                  then first_of (C.calendar.year date) 1
                  else (if bytes_eq unit (text "weekYear")
                      then unwrapped (C.week_one (C.iso_year date))
                      else (if bytes_eq unit (text "quarter")
                          then first_of (C.calendar.year date)
                              ((C.calendar.month date - 1) / 3 * 3 + 1)
                          else (if bytes_eq unit (text "month")
                              then first_of (C.calendar.year date) (C.calendar.month date)
                              else (if bytes_eq unit (text "week")
                                  then unwrapped
                                      (C.plus_days date (negated (C.days_from_monday date)))
                                  else (if is_day_unit unit
                                      then ok date
                                      else invalid (
                                          text "unsupported truncation unit for date: "
                                          ++ unit)))))))))

  unfoldable pub truncate_date : Bytes → Value → Properties → Outcome ℤ
  unfolding truncate_date_core
  truncate_date unit val map = do
    date ←
        or_invalid (text "truncate_date requires a temporal with a date component")
          (extract_date val)
    d ← truncate_date_core unit date
    d1 ←
        override (text "day") map
          (λ z d. or_invalid (text "invalid day: " ++ shown z) (C.with_day d (as_u32 z))) d
    d2 ←
        override (text "dayOfWeek") map
          (λ z d. unwrapped (C.plus_days d (wrap_i64 (z -ℤ pos (C.days_from_monday d + 1))))) d1
    override (text "month") map
        (λ z d. or_invalid (text "invalid month: " ++ shown z) (C.with_month d (as_u32 z))) d2

  abbrev pub at : ℕ → ℕ → ℕ → ℕ → Outcome (ℕ × ℕ)
  at h m s n = unwrapped (C.from_hms_nano_opt h m s n)

  unfoldable pub truncate_time_core : Bytes → ℕ × ℕ → Outcome (ℕ × ℕ)
  truncate_time_core unit t =
      if is_date_unit unit
      then at 0 0 0 0
      else (if bytes_eq unit (text "hour")
          then at (hour t) 0 0 0
          else (if bytes_eq unit (text "minute")
              then at (hour t) (minute t) 0 0
              else (if bytes_eq unit (text "second")
                  then at (hour t) (minute t) (second t) 0
                  else (if bytes_eq unit (text "millisecond")
                      then at (hour t) (minute t) (second t) (nanosecond t / 1000000 * 1000000)
                      else (if bytes_eq unit (text "microsecond")
                          then at (hour t) (minute t) (second t) (nanosecond t / 1000 * 1000)
                          else invalid (text "unsupported truncation unit for time: " ++ unit))))))

  unfoldable pub truncate_time : Bytes → Value → Properties → Outcome (ℕ × ℕ)
  unfolding truncate_time_core
  truncate_time unit val map = do
    time ←
        or_invalid (text "truncate_time requires a temporal with a time component")
          (extract_time val)
    t ← truncate_time_core unit time
    override (text "nanosecond") map
        (λ z t.
          or_invalid (text "invalid nanosecond: " ++ shown z)
            (C.with_nanosecond t ((nanosecond t + as_u32 z) % 0x100000000)))
        t
