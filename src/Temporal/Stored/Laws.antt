-- ===== src/Temporal/Stored/Laws.antt =====
-- temporal.rs: what was stored comes back, by position and by name.
use graphdblite.Base.{
  ℕ, ◌≤◌, true, List, [], ◌∷◌, Option, none, some, leb, ◌≡◌, refl, Bytes, text, arith,
}
use graphdblite.Base.Int.{ℤ, pos, negsuc, pos_part, neg_part}
use graphdblite.Temporal.Chrono.{Chrono, ChronoLaws, IsDate, IsTime, IsOffset}
use graphdblite.Temporal.Iso.{CypherDateTime}
use graphdblite.Temporal.Stored.Serde.{Stored, int, next_string, De, ok, in_range}
use graphdblite.Temporal.Stored.DateTime.{
  CypherDuration, serialize_duration, visit_seq_duration, visit_map_duration, serialize_date_time,
  visit_seq_date_time, visit_map_date_time, tz_field,
}

-- The values without the names of the fields.
abbrev pub values : List (Bytes × Stored) → List Stored
values [] = []
values ((name, v) ∷ rest) = v ∷ values rest

pub in_range_lem :
    (above below : ℕ) (z : ℤ)
    → pos_part z ≤ above
    → neg_part z ≤ below
    → in_range above below z ≡ true
in_range_lem above below (pos n) h k = ground arith
in_range_lem above below (negsuc n) h k = ground arith

pub leb_of_le : (a b : ℕ) → a ≤ b → leb a b ≡ true
leb_of_le a b h = ground arith

-- A number that an `i64` holds.
abbrev pub IsI64 : ℤ → Type 0
IsI64 z = (pos_part z ≤ 0x7fffffffffffffff) × (neg_part z ≤ 0x8000000000000000)

pub record IsStorable (r : CypherDuration) : Type 0 where
  pub is_months : IsI64 r.months
  pub is_days : IsI64 r.days
  pub is_seconds : IsI64 r.seconds
  pub is_nanos : IsI64 r.nanos

i64_lem : (z : ℤ) → IsI64 z → in_range 0x7fffffffffffffff 0x8000000000000000 z ≡ true
i64_lem z (h, k) = in_range_lem 0x7fffffffffffffff 0x8000000000000000 z h k

-- A stored duration is read back by position and by name.
pub visit-serialize_duration :
    (r : CypherDuration)
    → IsStorable r
    → (visit_seq_duration (values (serialize_duration r)) ≡ ok r)
      × (visit_map_duration (serialize_duration r) ≡ ok r)
unfolding serialize_duration visit_seq_duration visit_map_duration
visit-serialize_duration r h =
    let months = i64_lem r.months h.is_months in
    let days = i64_lem r.days h.is_days in
    let seconds = i64_lem r.seconds h.is_seconds in
    let nanos = i64_lem r.nanos h.is_nanos in
    rw (months, days, seconds, nanos) (refl, rw (months, days, seconds, nanos) refl)

-- What the visitors check of a date, a time and an offset.
record Reads (C : Chrono) (y : ℤ) (m d h mi s n : ℕ) (secs : ℤ) : Type 0 where
  year_ok : in_range 0x7fffffff 0x80000000 y ≡ true
  month_ok : leb m 0xffffffff ≡ true
  day_ok : leb d 0xffffffff ≡ true
  hour_ok : leb h 0xffffffff ≡ true
  minute_ok : leb mi 0xffffffff ≡ true
  second_ok : leb s 0xffffffff ≡ true
  nanosecond_ok : leb n 0xffffffff ≡ true
  offset_ok : in_range 0x7fffffff 0x80000000 secs ≡ true

module _ (C : Chrono) (L : ChronoLaws C) where
  reads :
      (y : ℤ) (m d h mi s n : ℕ) (secs : ℤ) (date : C.Date) (time : C.Time) (off : C.Offset)
      → IsDate C y m d date
      → IsTime C h mi s n time
      → IsOffset C secs off
      → Reads C y m d h mi s n secs
  reads y m d h mi s n secs date time off ld lt lo = record {
    year_ok = in_range_lem 0x7fffffff 0x80000000 y ld.below ld.above;
    month_ok = leb_of_le m 0xffffffff (omega (arith, ld.is_month));
    day_ok = leb_of_le d 0xffffffff (omega (arith, ld.is_day));
    hour_ok = leb_of_le h 0xffffffff (omega (arith, lt.is_hour));
    minute_ok = leb_of_le mi 0xffffffff (omega (arith, lt.is_minute));
    second_ok = leb_of_le s 0xffffffff (omega (arith, lt.is_second));
    nanosecond_ok = leb_of_le n 0xffffffff (omega (arith, lt.is_nanosecond));
    offset_ok =
        in_range_lem 0x7fffffff 0x80000000 secs (omega (arith, lo.east)) (omega (arith, lo.west));
  }

  -- The fields that are written for a date-time.
  serialize_date_time_lem :
      (y : ℤ) (m d h mi s n : ℕ) (secs : ℤ) (date : C.Date) (time : C.Time) (off : C.Offset)
      (tz : Option Bytes)
      → IsDate C y m d date
      → IsTime C h mi s n time
      → IsOffset C secs off
      → serialize_date_time C (C.new date time, (off, tz))
        ≡ (text "year", int y)
          ∷ ((text "month", int (pos m))
              ∷ ((text "day", int (pos d))
                  ∷ ((text "hour", int (pos h))
                      ∷ ((text "minute", int (pos mi))
                          ∷ ((text "second", int (pos s))
                              ∷ ((text "nanosecond", int (pos n))
                                  ∷ ((text "offset_seconds", int secs) ∷ tz_field C tz)))))))
  unfolding serialize_date_time
  serialize_date_time_lem y m d h mi s n secs date time off tz ld lt lo =
      rw
        (
          L.date-new date time,
          L.time-new date time,
          ld.year_lem,
          ld.month_lem,
          ld.day_lem,
          lt.hour_lem,
          lt.minute_lem,
          lt.second_lem,
          lt.nanosecond_lem,
          lo.secs_lem,
        )
        refl

  visit_seq-serialize_date_time :
      (y : ℤ) (m d h mi s n : ℕ) (secs : ℤ) (date : C.Date) (time : C.Time) (off : C.Offset)
      (tz : Option Bytes)
      → C.from_ymd_opt y m d ≡ some date
      → C.from_hms_nano_opt h mi s n ≡ some time
      → C.east_opt secs ≡ some off
      → visit_seq_date_time C (values (serialize_date_time C (C.new date time, (off, tz))))
        ≡ ok (C.new date time, (off, tz))
  unfolding visit_seq_date_time
  visit_seq-serialize_date_time y m d h mi s n secs date time off tz made_date made_time made_off =
      let ld = L.from_ymd y m d date made_date in
      let lt = L.from_hms_nano h mi s n time made_time in
      let lo = L.east secs off made_off in
      let r = reads y m d h mi s n secs date time off ld lt lo in
      rw
        (
          serialize_date_time_lem y m d h mi s n secs date time off tz ld lt lo,
          r.year_ok,
          r.month_ok,
          r.day_ok,
          r.hour_ok,
          r.minute_ok,
          r.second_ok,
          r.nanosecond_ok,
          r.offset_ok,
          made_date,
          made_time,
          made_off,
        )
        (zone tz)
    where
      zone :
          (tz : Option Bytes)
          → ◌≡◌ {A = De (CypherDateTime C)}
              (ok (C.new date time, (off, next_string (values (tz_field C tz)))))
              (ok (C.new date time, (off, tz)))
      zone none = refl
      zone (some name) = refl

  visit_map-serialize_date_time :
      (y : ℤ) (m d h mi s n : ℕ) (secs : ℤ) (date : C.Date) (time : C.Time) (off : C.Offset)
      (tz : Option Bytes)
      → C.from_ymd_opt y m d ≡ some date
      → C.from_hms_nano_opt h mi s n ≡ some time
      → C.east_opt secs ≡ some off
      → visit_map_date_time C (serialize_date_time C (C.new date time, (off, tz)))
        ≡ ok (C.new date time, (off, tz))
  unfolding visit_map_date_time
  visit_map-serialize_date_time y m d h mi s n secs date time off none made_date made_time
        made_off =
      let ld = L.from_ymd y m d date made_date in
      let lt = L.from_hms_nano h mi s n time made_time in
      let lo = L.east secs off made_off in
      let r = reads y m d h mi s n secs date time off ld lt lo in
      rw
        (
          serialize_date_time_lem y m d h mi s n secs date time off none ld lt lo,
          r.year_ok,
          r.month_ok,
          r.day_ok,
          r.hour_ok,
          r.minute_ok,
          r.second_ok,
          r.nanosecond_ok,
          r.offset_ok,
        )
        (rw
          (
            r.year_ok, r.month_ok, r.day_ok, r.hour_ok, r.minute_ok, r.second_ok, r.nanosecond_ok,
            r.offset_ok, made_date, made_time, made_off,
          )
          refl)
  visit_map-serialize_date_time y m d h mi s n secs date time off (some tz) made_date made_time
        made_off =
      let ld = L.from_ymd y m d date made_date in
      let lt = L.from_hms_nano h mi s n time made_time in
      let lo = L.east secs off made_off in
      let r = reads y m d h mi s n secs date time off ld lt lo in
      rw
        (
          serialize_date_time_lem y m d h mi s n secs date time off (some tz) ld lt lo,
          r.year_ok,
          r.month_ok,
          r.day_ok,
          r.hour_ok,
          r.minute_ok,
          r.second_ok,
          r.nanosecond_ok,
          r.offset_ok,
        )
        (rw
          (
            r.year_ok, r.month_ok, r.day_ok, r.hour_ok, r.minute_ok, r.second_ok, r.nanosecond_ok,
            r.offset_ok, made_date, made_time, made_off,
          )
          refl)

  -- A stored date-time, with its offset and the name of its zone, is read back by position and by name.
  pub visit-serialize_date_time :
      (y : ℤ) (m d h mi s n : ℕ) (secs : ℤ) (date : C.Date) (time : C.Time) (off : C.Offset)
      (tz : Option Bytes)
      → C.from_ymd_opt y m d ≡ some date
      → C.from_hms_nano_opt h mi s n ≡ some time
      → C.east_opt secs ≡ some off
      → (visit_seq_date_time C (values (serialize_date_time C (C.new date time, (off, tz))))
          ≡ ok (C.new date time, (off, tz)))
        × (visit_map_date_time C (serialize_date_time C (C.new date time, (off, tz)))
            ≡ ok (C.new date time, (off, tz)))
  visit-serialize_date_time y m d h mi s n secs date time off tz made_date made_time made_off = (
    visit_seq-serialize_date_time y m d h mi s n secs date time off tz made_date made_time made_off,
    visit_map-serialize_date_time y m d h mi s n secs date time off tz made_date made_time made_off,
  )
