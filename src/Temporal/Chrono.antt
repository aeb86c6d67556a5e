-- ===== src/Temporal/Chrono.antt =====
-- The chrono crate as temporal.rs uses it: the types and functions are parameters, and what its
-- documentation says of them is the record of laws.
use graphdblite.Base.{ℕ, ◌<◌, ◌≤◌, Bytes, Option, some, ◌≡◌}
use graphdblite.Base.Int.{ℤ, pos, pos_part, neg_part}

pub record Chrono : Type 1 where
  pub Date : Type 0
  pub Time : Type 0
  pub DateTime : Type 0
  pub Offset : Type 0
  pub Weekday : Type 0
  pub mon : Weekday
  pub tue : Weekday
  pub wed : Weekday
  pub thu : Weekday
  pub fri : Weekday
  pub sat : Weekday
  pub sun : Weekday
  pub from_ymd_opt : ℤ → ℕ → ℕ → Option Date
  pub from_yo_opt : ℤ → ℕ → Option Date
  pub from_isoywd_opt : ℤ → ℕ → Weekday → Option Date
  pub year : Date → ℤ
  pub month : Date → ℕ
  pub day : Date → ℕ
  pub from_hms_opt : ℕ → ℕ → ℕ → Option Time
  pub from_hms_nano_opt : ℕ → ℕ → ℕ → ℕ → Option Time
  pub hour : Time → ℕ
  pub minute : Time → ℕ
  pub second : Time → ℕ
  pub nanosecond : Time → ℕ
  pub new : Date → Time → DateTime
  pub date : DateTime → Date
  pub time : DateTime → Time
  pub east_opt : ℤ → Option Offset
  pub utc : Offset
  pub local_minus_utc : Offset → ℤ
  pub Tz : Type 0
  pub tz_named : Bytes → Option Tz
  -- The offset of the earliest instant with that local time.
  pub earliest_offset : Tz → DateTime → Option Offset

-- A date has the year, the month and the day that it was made from, which are a month of the year
-- and a day of the month, in a year that `i32` holds.
pub record IsDate (C : Chrono) (y : ℤ) (m d : ℕ) (made : C.Date) : Type 0 where
  pub year_lem : C.year made ≡ y
  pub month_lem : C.month made ≡ m
  pub day_lem : C.day made ≡ d
  pub below : pos_part y ≤ 0x7fffffff
  pub above : neg_part y ≤ 0x80000000
  pub is_month : m ≤ 12
  pub is_day : d ≤ 31

-- A time has the parts that it was made from; a leap second is a fraction above a second.
pub record IsTime (C : Chrono) (h m s n : ℕ) (made : C.Time) : Type 0 where
  pub hour_lem : C.hour made ≡ h
  pub minute_lem : C.minute made ≡ m
  pub second_lem : C.second made ≡ s
  pub nanosecond_lem : C.nanosecond made ≡ n
  pub is_hour : h < 24
  pub is_minute : m < 60
  pub is_second : s < 60
  pub is_nanosecond : n < 2000000000

-- An offset has the seconds that it was made from, less than a day to the east or to the west.
pub record IsOffset (C : Chrono) (secs : ℤ) (made : C.Offset) : Type 0 where
  pub secs_lem : C.local_minus_utc made ≡ secs
  pub east : pos_part secs < 86400
  pub west : neg_part secs < 86400

pub record ChronoLaws (C : Chrono) : Type 0 where
  pub from_ymd :
      (y : ℤ) (m d : ℕ) (made : C.Date) → C.from_ymd_opt y m d ≡ some made → IsDate C y m d made
  pub from_hms_nano :
      (h m s n : ℕ) (made : C.Time)
      → C.from_hms_nano_opt h m s n ≡ some made
      → IsTime C h m s n made
  pub from_hms : (h m s : ℕ) → C.from_hms_opt h m s ≡ C.from_hms_nano_opt h m s 0
  pub east : (secs : ℤ) (made : C.Offset) → C.east_opt secs ≡ some made → IsOffset C secs made
  pub east_utc : C.east_opt (pos 0) ≡ some C.utc
  pub date-new : (d : C.Date) (t : C.Time) → C.date (C.new d t) ≡ d
  pub time-new : (d : C.Date) (t : C.Time) → C.time (C.new d t) ≡ t
