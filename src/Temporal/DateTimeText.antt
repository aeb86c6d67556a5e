-- ===== src/Temporal/DateTimeText.antt =====
-- temporal.rs: date-times that were written are read back.
use graphdblite.Base.{
  All-append, ℕ, ◌<◌, true, false, ◌==◌, [], ◌∷◌, ◌++◌, Option, none, some, ◌≡◌, refl, Bytes, arith,
  Bool-cases, inl, inr, append-nil, append_assoc, sym,
}
use graphdblite.Base.Int.{ℤ, pos, negsuc, int_eq}
use graphdblite.Temporal.Outcome.{ok}
use graphdblite.Temporal.Chrono.{Chrono, ChronoLaws}
use graphdblite.Temporal.Text.{cut, trim_end_matches}
use graphdblite.Temporal.Text.Cuts.{Avoids, cut-none, cut-append}
use graphdblite.Temporal.Parse.{last_is}
use graphdblite.Temporal.Format.{fmt_offset, fmt_local_time, fmt_date, clock, magnitude, sign_of}
use graphdblite.Temporal.OffsetText.{parse_offset-fmt_offset}
use graphdblite.Temporal.TimeText.{
  parse_time_str-fmt_local_time, fmt_local_time-IsTimeByte, clock-IsTimeByte,
}
use graphdblite.Temporal.DateText.{parse_date_str-fmt_date, fmt_date-IsDateByte, above_dates}
use graphdblite.Temporal.IsoText.{split_time_offset-fmt_offset, times-Avoids}
use graphdblite.Temporal.Iso.{
  cut_date, fmt_local_date_time, local_date_time_from_iso_string, fmt_tz, tz_suffix, fmt_date_time,
  date_time_from_iso_string, date_time_of_parts, offset_at,
}

-- A closing bracket behind a name that ends in none is trimmed off.
trim_end_matches-bracket :
    (c : ℕ) (s : Bytes) → last_is c s ≡ false → trim_end_matches c (s ++ c ∷ []) ≡ s
trim_end_matches-bracket c [] h = ground arith
trim_end_matches-bracket c (x ∷ []) h =
    let same : (c == c) ≡ true = ground arith in rw (same, h) refl
trim_end_matches-bracket c (x ∷ (y ∷ s)) h = rw (trim_end_matches-bracket c (y ∷ s) h) refl

-- A name of a time zone that ends in no bracket.
abbrev pub IsZoneName : Option Bytes → Type 0
IsZoneName none = Unit {0}
IsZoneName (some tz) = last_is b']' tz ≡ false

module _ (C : Chrono) (L : ChronoLaws C) where
  cut_date-fmt_date :
      (d : C.Date) (rest : Bytes)
      → cut_date (fmt_date C d ++ b'T' ∷ rest) ≡ some (fmt_date C d, rest)
  cut_date-fmt_date d rest =
      let no_t = above_dates b'T' (omega arith) (fmt_date C d) (fmt_date-IsDateByte C L d) in
      rw (cut-append b'T' (fmt_date C d) rest no_t) refl

  -- A date and time of a year from 0 on is read back, unless it is a leap second.
  pub local_date_time_from_iso_string-fmt_local_date_time :
      (y m d h mi s n : ℕ) (date : C.Date) (time : C.Time)
      → C.from_ymd_opt (pos y) m d ≡ some date
      → C.from_hms_nano_opt h mi s n ≡ some time
      → n < 1000000000
      → local_date_time_from_iso_string C (fmt_local_date_time C (C.new date time))
        ≡ ok (C.new date time)
  unfolding local_date_time_from_iso_string fmt_local_date_time
  local_date_time_from_iso_string-fmt_local_date_time y m d h mi s n date time made_date made_time
        small =
      rw
        (
          L.date-new date time,
          L.time-new date time,
          cut_date-fmt_date date (fmt_local_time C time),
          parse_date_str-fmt_date C L y m d date made_date,
          parse_time_str-fmt_local_time C L h mi s n time made_time small,
        )
        refl

  fmt_offset-no_bracket :
      (secs : ℤ) (off : C.Offset) → C.east_opt secs ≡ some off → Avoids b'[' (fmt_offset C off)
  unfolding fmt_offset
  fmt_offset-no_bracket secs off made =
      let o = L.east secs off made in
      let digits =
        times-Avoids b'[' refl (clock (magnitude secs)) (clock-IsTimeByte (magnitude secs)) in
      elim (Bool-cases (int_eq secs (pos 0))) [
        | inl e ↦ rw (o.secs_lem, e) (refl, tt)
        | inr e ↦ rw (o.secs_lem, e) (sign_lem secs, digits)
      ]
    where
      sign_lem : (z : ℤ) → (sign_of z == b'[') ≡ false
      sign_lem (pos n) = refl
      sign_lem (negsuc n) = refl

  -- The name in brackets, behind the time and its offset.
  tz_suffix_lem :
      (zone_text : Bytes) (tz : Option Bytes)
      → Avoids b'[' zone_text
      → IsZoneName tz
      → tz_suffix (zone_text ++ fmt_tz tz) (cut b'[' (zone_text ++ fmt_tz tz)) ≡ (zone_text, tz)
  tz_suffix_lem zone_text none h name = rw (append-nil zone_text, cut-none b'[' zone_text h) refl
  tz_suffix_lem zone_text (some tz) h name =
      rw (cut-append b'[' zone_text (tz ++ b']' ∷ []) h, trim_end_matches-bracket b']' tz name) refl

  -- A date-time of a year from 0 on is read back with its offset and the name of its zone, unless
  -- it is a leap second or the name ends in a closing bracket.
  pub date_time_from_iso_string-fmt_date_time :
      (y m d h mi s n : ℕ) (secs : ℤ) (date : C.Date) (time : C.Time) (off : C.Offset)
      (tz : Option Bytes)
      → C.from_ymd_opt (pos y) m d ≡ some date
      → C.from_hms_nano_opt h mi s n ≡ some time
      → n < 1000000000
      → C.east_opt secs ≡ some off
      → IsZoneName tz
      → date_time_from_iso_string C (fmt_date_time C (C.new date time, (off, tz)))
        ≡ ok (C.new date time, (off, tz))
  unfolding date_time_from_iso_string fmt_date_time date_time_of_parts offset_at
  date_time_from_iso_string-fmt_date_time y m d h mi s n secs date time off tz made_date made_time
        small east name =
      let zone_text = fmt_local_time C time ++ fmt_offset C off in
      let no_bracket =
        All-append (λ c. (c == b'[') ≡ false) (fmt_local_time C time) (fmt_offset C off)
          (times-Avoids b'[' refl (fmt_local_time C time) (fmt_local_time-IsTimeByte C time))
          (fmt_offset-no_bracket secs off east) in
      rw
        (
          L.date-new date time,
          L.time-new date time,
          sym (append_assoc (fmt_local_time C time) (fmt_offset C off) (fmt_tz tz)),
          cut_date-fmt_date date (zone_text ++ fmt_tz tz),
          parse_date_str-fmt_date C L y m d date made_date,
          tz_suffix_lem zone_text tz no_bracket name,
          split_time_offset-fmt_offset C L secs off time east,
          parse_time_str-fmt_local_time C L h mi s n time made_time small,
          parse_offset-fmt_offset C L secs off east,
        )
        refl
