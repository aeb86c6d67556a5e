-- ===== src/Temporal/Iso.antt =====
-- temporal.rs: the temporal types, how they are written, and `from_iso_string`.
use graphdblite.Base.{[], ◌∷◌, ◌++◌, Option, none, some, Bytes, text}
use graphdblite.Temporal.Outcome.{Outcome, ok, invalid, or_invalid, ◌>>=◌}
use graphdblite.Temporal.Chrono.{Chrono}
use graphdblite.Temporal.Text.{cut, or_else, trim_end_matches}
use graphdblite.Temporal.Parse.{parse_offset, parse_time_str, split_time_offset}
use graphdblite.Temporal.ParseDate.{parse_date_str}
use graphdblite.Temporal.Format.{fmt_offset, fmt_local_time, fmt_date}

abbrev pub fmt_tz : Option Bytes → Bytes
fmt_tz none = []
fmt_tz (some tz) = b'[' ∷ (tz ++ b']' ∷ [])

abbrev pub cut_date : Bytes → Option (Bytes × Bytes)
cut_date s = or_else (cut b'T' s) (cut b't' s)

-- The text before a bracket, and the name in it.
abbrev pub tz_suffix : Bytes → Option (Bytes × Bytes) → Bytes × Option Bytes
tz_suffix s none = (s, none)
tz_suffix s (some (before, after)) = (before, some (trim_end_matches b']' after))

module _ (C : Chrono) where
  abbrev pub CypherTime : Type 0
  CypherTime = C.Time × C.Offset

  -- The local date and time, the offset and the name of the time zone.
  abbrev pub CypherDateTime : Type 0
  CypherDateTime = C.DateTime × (C.Offset × Option Bytes)

  unfoldable pub fmt_time : CypherTime → Bytes
  fmt_time (t, off) = fmt_local_time C t ++ fmt_offset C off

  unfoldable pub fmt_local_date_time : C.DateTime → Bytes
  fmt_local_date_time dt = fmt_date C (C.date dt) ++ b'T' ∷ fmt_local_time C (C.time dt)

  unfoldable pub fmt_date_time : CypherDateTime → Bytes
  fmt_date_time (dt, (off, tz)) =
      fmt_date C (C.date dt)
      ++ (b'T' ∷ (fmt_local_time C (C.time dt) ++ (fmt_offset C off ++ fmt_tz tz)))

  abbrev pub offset_or_utc : Option Bytes → Outcome C.Offset
  offset_or_utc none = ok C.utc
  offset_or_utc (some o) = parse_offset C o

  unfoldable pub time_of_parts : Bytes × Option Bytes → Outcome CypherTime
  time_of_parts (time_part, off_part) = do
    t ← parse_time_str C time_part
    off ← offset_or_utc off_part
    ok (t, off)

  -- `CypherTime::from_iso_string`.
  unfoldable pub time_from_iso_string : Bytes → Outcome CypherTime
  time_from_iso_string s = time_of_parts (split_time_offset s)

  abbrev expected_t : Bytes → Bytes
  expected_t s = text "expected 'T' separator in: " ++ s

  -- `CypherLocalDateTime::from_iso_string`.
  unfoldable pub local_date_time_from_iso_string : Bytes → Outcome C.DateTime
  local_date_time_from_iso_string s = do
    (before, after) ← or_invalid (expected_t s) (cut_date s)
    date ← parse_date_str C before
    time ← parse_time_str C after
    ok (C.new date time)

  unfoldable pub resolve_tz_name_at : Bytes → C.DateTime → Outcome (C.Offset × Option Bytes)
  resolve_tz_name_at name dt = do
    tz ← or_invalid (text "unknown timezone: " ++ name) (C.tz_named name)
    off ←
        or_invalid (text "ambiguous or invalid datetime in timezone: " ++ name)
          (C.earliest_offset tz dt)
    ok (off, some name)

  -- The offset that is written or, without one, that the zone has at that time.
  unfoldable pub offset_at : Bytes → Option Bytes → Option Bytes → C.DateTime → Outcome C.Offset
  offset_at s (some off_str) tz_name dt = parse_offset C off_str
  offset_at s none (some tz) dt = do (resolved, name) ← resolve_tz_name_at tz dt; ok resolved
  offset_at s none none dt = invalid (text "CypherDateTime requires an offset or timezone: " ++ s)

  unfoldable pub date_time_of_parts :
      Bytes → C.Date → Option Bytes → Bytes × Option Bytes → Outcome CypherDateTime
  date_time_of_parts s date tz_name (time_part, off_part) = do
    time ← parse_time_str C time_part
    off ← offset_at s off_part tz_name (C.new date time)
    ok (C.new date time, (off, tz_name))

  abbrev zoned : Bytes → C.Date → Bytes × Option Bytes → Outcome CypherDateTime
  zoned s date (time_off, tz_name) = date_time_of_parts s date tz_name (split_time_offset time_off)

  -- `CypherDateTime::from_iso_string`.
  unfoldable pub date_time_from_iso_string : Bytes → Outcome CypherDateTime
  date_time_from_iso_string s = do
    (before, time_and_off) ← or_invalid (expected_t s) (cut_date s)
    date ← parse_date_str C before
    zoned s date (tz_suffix time_and_off (cut b'[' time_and_off))
