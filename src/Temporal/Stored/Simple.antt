-- ===== src/Temporal/Stored/Simple.antt =====
-- temporal.rs: the stored forms of dates, times and date-times without a zone, and short sequences.
use graphdblite.Base.{ℕ, some, ◌≡◌, refl, arith}
use graphdblite.Base.Int.{ℤ}
use graphdblite.Temporal.Chrono.{Chrono, ChronoLaws}
use graphdblite.Temporal.Stored.Serde.{ok}
use graphdblite.Temporal.Stored.Laws.{values, in_range_lem, leb_of_le}
use graphdblite.Temporal.Stored.{
  serialize_date, visit_seq_date, visit_map_date, serialize_local_time, visit_seq_local_time,
  visit_map_local_time, serialize_time, visit_seq_time, visit_map_time, serialize_local_date_time,
  visit_seq_local_date_time, visit_map_local_date_time,
}

module _ (C : Chrono) (L : ChronoLaws C) where
  -- A stored date is read back by position and by name.
  pub visit-serialize_date :
      (y : ℤ) (m d : ℕ) (date : C.Date)
      → C.from_ymd_opt y m d ≡ some date
      → (visit_seq_date C (values (serialize_date C date)) ≡ ok date)
        × (visit_map_date C (serialize_date C date) ≡ ok date)
  unfolding serialize_date visit_seq_date visit_map_date
  visit-serialize_date y m d date made_date =
      let ld = L.from_ymd y m d date made_date in
      let ok0 = in_range_lem 0x7fffffff 0x80000000 y ld.below ld.above in
      let ok1 = leb_of_le m 0xffffffff (omega (arith, ld.is_month)) in
      let ok2 = leb_of_le d 0xffffffff (omega (arith, ld.is_day)) in
      rw (ld.year_lem, ld.month_lem, ld.day_lem, ok0, ok1, ok2, made_date)
        (refl, rw (ok0, ok1, ok2, made_date) refl)

  -- So is a stored time.
  pub visit-serialize_local_time :
      (h mi s n : ℕ) (time : C.Time)
      → C.from_hms_nano_opt h mi s n ≡ some time
      → (visit_seq_local_time C (values (serialize_local_time C time)) ≡ ok time)
        × (visit_map_local_time C (serialize_local_time C time) ≡ ok time)
  unfolding serialize_local_time visit_seq_local_time visit_map_local_time
  visit-serialize_local_time h mi s n time made_time =
      let lt = L.from_hms_nano h mi s n time made_time in
      let ok0 = leb_of_le h 0xffffffff (omega (arith, lt.is_hour)) in
      let ok1 = leb_of_le mi 0xffffffff (omega (arith, lt.is_minute)) in
      let ok2 = leb_of_le s 0xffffffff (omega (arith, lt.is_second)) in
      let ok3 = leb_of_le n 0xffffffff (omega (arith, lt.is_nanosecond)) in
      rw
        (
          lt.hour_lem, lt.minute_lem, lt.second_lem, lt.nanosecond_lem, ok0, ok1, ok2, ok3,
          made_time,
        )
        (refl, rw (ok0, ok1, ok2, ok3, made_time) refl)

  -- So is a stored time with its offset.
  pub visit-serialize_time :
      (h mi s n : ℕ) (secs : ℤ) (time : C.Time) (off : C.Offset)
      → C.from_hms_nano_opt h mi s n ≡ some time
      → C.east_opt secs ≡ some off
      → (visit_seq_time C (values (serialize_time C (time, off))) ≡ ok (time, off))
        × (visit_map_time C (serialize_time C (time, off)) ≡ ok (time, off))
  unfolding serialize_time visit_seq_time visit_map_time
  visit-serialize_time h mi s n secs time off made_time made_off =
      let lt = L.from_hms_nano h mi s n time made_time in
      let lo = L.east secs off made_off in
      let ok0 = leb_of_le h 0xffffffff (omega (arith, lt.is_hour)) in
      let ok1 = leb_of_le mi 0xffffffff (omega (arith, lt.is_minute)) in
      let ok2 = leb_of_le s 0xffffffff (omega (arith, lt.is_second)) in
      let ok3 = leb_of_le n 0xffffffff (omega (arith, lt.is_nanosecond)) in
      let ok4 =
        in_range_lem 0x7fffffff 0x80000000 secs (omega (arith, lo.east)) (omega (arith, lo.west)) in
      rw
        (
          lt.hour_lem, lt.minute_lem, lt.second_lem, lt.nanosecond_lem, lo.secs_lem, ok0, ok1, ok2,
          ok3, ok4, made_time, made_off,
        )
        (refl, rw (ok0, ok1, ok2, ok3, ok4, made_time, made_off) refl)

  -- So is a stored date and time.
  pub visit-serialize_local_date_time :
      (y : ℤ) (m d : ℕ) (h mi s n : ℕ) (date : C.Date) (time : C.Time)
      → C.from_ymd_opt y m d ≡ some date
      → C.from_hms_nano_opt h mi s n ≡ some time
      → (visit_seq_local_date_time C (values (serialize_local_date_time C (C.new date time)))
          ≡ ok (C.new date time))
        × (visit_map_local_date_time C (serialize_local_date_time C (C.new date time))
            ≡ ok (C.new date time))
  unfolding serialize_local_date_time visit_seq_local_date_time visit_map_local_date_time
  visit-serialize_local_date_time y m d h mi s n date time made_date made_time =
      let ld = L.from_ymd y m d date made_date in
      let lt = L.from_hms_nano h mi s n time made_time in
      let ok0 = in_range_lem 0x7fffffff 0x80000000 y ld.below ld.above in
      let ok1 = leb_of_le m 0xffffffff (omega (arith, ld.is_month)) in
      let ok2 = leb_of_le d 0xffffffff (omega (arith, ld.is_day)) in
      let ok3 = leb_of_le h 0xffffffff (omega (arith, lt.is_hour)) in
      let ok4 = leb_of_le mi 0xffffffff (omega (arith, lt.is_minute)) in
      let ok5 = leb_of_le s 0xffffffff (omega (arith, lt.is_second)) in
      let ok6 = leb_of_le n 0xffffffff (omega (arith, lt.is_nanosecond)) in
      rw
        (
          L.date-new date time,
          L.time-new date time,
          ld.year_lem,
          ld.month_lem,
          ld.day_lem,
          lt.hour_lem,
          lt.minute_lem,
          lt.second_lem,
          lt.nanosecond_lem,
          ok0,
          ok1,
          ok2,
          ok3,
          ok4,
          ok5,
          ok6,
          made_date,
          made_time,
        )
        (refl, rw (ok0, ok1, ok2, ok3, ok4, ok5, ok6, made_date, made_time) refl)
