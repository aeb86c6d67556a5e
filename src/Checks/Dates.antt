-- ===== src/Checks/Dates.antt =====
-- Texts and stored fields of small dates and times, with a calendar in which every month has 31 days.
use graphdblite.Base.{
  ℕ, ◌≡◌, refl, ◌&&◌, Option, none, some, ◌++◌, ltb, leb, if◌then◌else◌, text, arith,
}
use graphdblite.Base.Int.{ℤ, pos, negsuc, pos_part, neg_part}
use graphdblite.Temporal.Chrono.{Chrono, ChronoLaws, IsDate, IsTime, IsOffset}
use graphdblite.Temporal.Outcome.{ok, invalid}
use graphdblite.Temporal.Format.{fmt_date}
use graphdblite.Temporal.Iso.{fmt_date_time, date_time_from_iso_string}
use graphdblite.Temporal.ParseDate.{parse_date_str}
use graphdblite.Temporal.DateText.{parse_date_str-fmt_date_negative}
use graphdblite.Temporal.DateTimeText.{date_time_from_iso_string-fmt_date_time}
use graphdblite.Temporal.Settles.{IsSettled}
use graphdblite.Temporal.SettlesDateTime.{date_time_from_iso_string-IsSettled}
use graphdblite.Temporal.Stored.DateTime.{
  serialize_date_time, visit_seq_date_time, visit_map_date_time,
}
use graphdblite.Temporal.Stored.Serde
use graphdblite.Temporal.Stored.Laws.{values, visit-serialize_date_time}

record PlainDate : Type 0 where
  y : ℤ
  m : ℕ
  d : ℕ

record PlainTime : Type 0 where
  h : ℕ
  mi : ℕ
  s : ℕ
  n : ℕ

abbrev plain_date : ℤ → ℕ → ℕ → Option PlainDate
plain_date y m d =
    if (leb (pos_part y) 9999 && leb (neg_part y) 9999) && (leb m 12 && leb d 31)
    then some (record { y = y; m = m; d = d })
    else none

abbrev plain_time : ℕ → ℕ → ℕ → ℕ → Option PlainTime
plain_time h mi s n =
    if (ltb h 24 && ltb mi 60) && (ltb s 60 && ltb n 2000000000)
    then some (record { h = h; mi = mi; s = s; n = n })
    else none

abbrev plain_offset : ℤ → Option ℤ
plain_offset z = if ltb (pos_part z) 86400 && ltb (neg_part z) 86400 then some z else none

abbrev plain : Chrono
plain = record {
  Date = PlainDate;
  Time = PlainTime;
  DateTime = PlainDate × PlainTime;
  Offset = ℤ;
  Weekday = ℕ;
  mon = 0;
  tue = 1;
  wed = 2;
  thu = 3;
  fri = 4;
  sat = 5;
  sun = 6;
  from_ymd_opt = plain_date;
  from_yo_opt = λ y d. none;
  from_isoywd_opt = λ y w d. none;
  year = λ t. t.y;
  month = λ t. t.m;
  day = λ t. t.d;
  from_hms_opt = λ h mi s. plain_time h mi s 0;
  from_hms_nano_opt = plain_time;
  hour = λ t. t.h;
  minute = λ t. t.mi;
  second = λ t. t.s;
  nanosecond = λ t. t.n;
  new = λ d t. (d, t);
  date = λ dt. dt.0;
  time = λ dt. dt.1;
  east_opt = plain_offset;
  utc = pos 0;
  local_minus_utc = λ z. z;
  Tz = ℕ;
  tz_named = λ name. none;
  earliest_offset = λ tz dt. none;
}

plain_date-IsDate :
    (y : ℤ) (m d : ℕ) (made : PlainDate) → plain_date y m d ≡ some made → IsDate plain y m d made
plain_date-IsDate y m d made e = record {
  year_lem = ground arith;
  month_lem = ground arith;
  day_lem = ground arith;
  below = ground arith;
  above = ground arith;
  is_month = ground arith;
  is_day = ground arith;
}

plain_time-IsTime :
    (h mi s n : ℕ) (made : PlainTime) → plain_time h mi s n ≡ some made → IsTime plain h mi s n made
plain_time-IsTime h mi s n made e = record {
  hour_lem = ground arith;
  minute_lem = ground arith;
  second_lem = ground arith;
  nanosecond_lem = ground arith;
  is_hour = ground arith;
  is_minute = ground arith;
  is_second = ground arith;
  is_nanosecond = ground arith;
}

plain_offset-IsOffset : (z made : ℤ) → plain_offset z ≡ some made → IsOffset plain z made
plain_offset-IsOffset z made e = record {
  secs_lem = ground arith;
  east = ground arith;
  west = ground arith;
}

plain_laws : ChronoLaws plain
plain_laws = record {
  from_ymd = plain_date-IsDate;
  from_hms_nano = plain_time-IsTime;
  from_hms = λ h mi s. refl;
  east = plain_offset-IsOffset;
  east_utc = refl;
  date-new = λ d t. refl;
  time-new = λ d t. refl;
}

abbrev day_2015 : PlainDate
day_2015 = record { y = pos 2015; m = 7; d = 21 }

abbrev evening : PlainTime
evening = record { h = 21; mi = 40; s = 32; n = 142000000 }

written :
    fmt_date_time plain ((day_2015, evening), (pos 7200, some (text "Europe/Stockholm")))
    ≡ text "2015-07-21T21:40:32.142+02:00[Europe/Stockholm]"
unfolding fmt_date_time graphdblite.Temporal.Format.fmt_date graphdblite.Temporal.Text.decimal
    graphdblite.Temporal.Format.fmt_local_time graphdblite.Temporal.Format.fmt_offset
written = refl

date_time_from_iso_string-fmt_date_time_example :
    date_time_from_iso_string plain
      (fmt_date_time plain ((day_2015, evening), (pos 7200, some (text "Europe/Stockholm"))))
    ≡ ok ((day_2015, evening), (pos 7200, some (text "Europe/Stockholm")))
date_time_from_iso_string-fmt_date_time_example =
    date_time_from_iso_string-fmt_date_time plain plain_laws 2015 7 21 21 40 32 142000000 (pos 7200)
      day_2015 evening (pos 7200) (some (text "Europe/Stockholm")) refl refl (omega arith) refl refl

date_time_from_iso_string-IsSettled_example :
    IsSettled (date_time_from_iso_string plain (text "2015-07-21T21:40+05"))
date_time_from_iso_string-IsSettled_example =
    date_time_from_iso_string-IsSettled plain (text "2015-07-21T21:40+05") (omega arith)

visit-serialize_date_time_example :
    (visit_seq_date_time plain (
        values
          (serialize_date_time plain ((day_2015, evening), (negsuc 3599, some (text "Etc/GMT+1")))))
      ≡ Serde.ok ((day_2015, evening), (negsuc 3599, some (text "Etc/GMT+1"))))
    × (visit_map_date_time plain
          (serialize_date_time plain ((day_2015, evening), (negsuc 3599, some (text "Etc/GMT+1"))))
        ≡ Serde.ok ((day_2015, evening), (negsuc 3599, some (text "Etc/GMT+1"))))
visit-serialize_date_time_example =
    visit-serialize_date_time plain plain_laws (pos 2015) 7 21 21 40 32 142000000 (negsuc 3599)
      day_2015 evening (negsuc 3599) (some (text "Etc/GMT+1")) refl refl refl

abbrev before_christ : PlainDate
before_christ = record { y = negsuc 43; m = 3; d = 15 }

parse_date_str-fmt_date_negative_example :
    parse_date_str plain (fmt_date plain before_christ)
    ≡ invalid (text "invalid date: " ++ fmt_date plain before_christ)
parse_date_str-fmt_date_negative_example =
    parse_date_str-fmt_date_negative plain plain_laws 43 3 15 before_christ refl
