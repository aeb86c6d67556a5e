-- ===== src/Temporal/Stored/DateTime.antt =====
-- temporal.rs: `Serialize` and `Deserialize` of `CypherDateTime` and `CypherDuration`.
use graphdblite.Base.{List, [], ◌∷◌, Option, none, some, Bytes, text}
use graphdblite.Base.Int.{ℤ, pos}
use graphdblite.Temporal.Chrono.{Chrono}
use graphdblite.Temporal.Iso.{CypherDateTime}
use graphdblite.Temporal.Stored.Serde.{
  Stored, int, string, De, ok, ◌>>=◌, custom_or, Kind, u32_kind, i32_kind, i64_kind, string_kind,
  next, next_string, read_u32, read_i32, read_i64, collect, required, optional_string,
}

-- `CypherDuration`.
pub record CypherDuration : Type 0 where
  pub months : ℤ
  pub days : ℤ
  pub seconds : ℤ
  pub nanos : ℤ

unfoldable pub serialize_duration : CypherDuration → List (Bytes × Stored)
serialize_duration r =
    (text "months", int r.months)
    ∷ ((text "days", int r.days)
        ∷ ((text "seconds", int r.seconds) ∷ ((text "nanos", int r.nanos) ∷ [])))

abbrev pub duration_of : ℤ → ℤ → ℤ → ℤ → CypherDuration
duration_of months days seconds nanos = record {
  months = months;
  days = days;
  seconds = seconds;
  nanos = nanos;
}

unfoldable pub visit_seq_duration : List Stored → De CypherDuration
visit_seq_duration seq = do
  (months, seq1) ← next read_i64 0 seq
  (days, seq2) ← next read_i64 1 seq1
  (seconds, seq3) ← next read_i64 2 seq2
  (nanos, seq4) ← next read_i64 3 seq3
  ok (duration_of months days seconds nanos)

abbrev pub duration_fields : List (Bytes × Kind)
duration_fields =
    (text "months", i64_kind)
    ∷ ((text "days", i64_kind) ∷ ((text "seconds", i64_kind) ∷ ((text "nanos", i64_kind) ∷ [])))

unfoldable pub visit_map_duration : List (Bytes × Stored) → De CypherDuration
visit_map_duration map = do
  slots ← collect duration_fields [] map
  months ← required read_i64 (text "months") slots
  days ← required read_i64 (text "days") slots
  seconds ← required read_i64 (text "seconds") slots
  nanos ← required read_i64 (text "nanos") slots
  ok (duration_of months days seconds nanos)

module _ (C : Chrono) where
  abbrev pub tz_field : Option Bytes → List (Bytes × Stored)
  tz_field none = []
  tz_field (some tz) = (text "tz_name", string tz) ∷ []

  unfoldable pub serialize_date_time : CypherDateTime C → List (Bytes × Stored)
  serialize_date_time (dt, (offset, tz)) =
      (text "year", int (C.year (C.date dt)))
      ∷ ((text "month", int (pos (C.month (C.date dt))))
          ∷ ((text "day", int (pos (C.day (C.date dt))))
              ∷ ((text "hour", int (pos (C.hour (C.time dt))))
                  ∷ ((text "minute", int (pos (C.minute (C.time dt))))
                      ∷ ((text "second", int (pos (C.second (C.time dt))))
                          ∷ ((text "nanosecond", int (pos (C.nanosecond (C.time dt))))
                              ∷ ((text "offset_seconds", int (C.local_minus_utc offset))
                                  ∷ tz_field tz)))))))

  unfoldable pub visit_seq_date_time : List Stored → De (CypherDateTime C)
  visit_seq_date_time seq = do
    (y, seq1) ← next read_i32 0 seq
    (mo, seq2) ← next read_u32 1 seq1
    (d, seq3) ← next read_u32 2 seq2
    (h, seq4) ← next read_u32 3 seq3
    (mi, seq5) ← next read_u32 4 seq4
    (s, seq6) ← next read_u32 5 seq5
    (n, seq7) ← next read_u32 6 seq6
    (o, seq8) ← next read_i32 7 seq7
    let tz_name = next_string seq8
    date ← custom_or (text "invalid date") (C.from_ymd_opt y mo d)
    time ← custom_or (text "invalid time") (C.from_hms_nano_opt h mi s n)
    offset ← custom_or (text "invalid offset") (C.east_opt o)
    ok (C.new date time, (offset, tz_name))

  abbrev pub date_time_fields : List (Bytes × Kind)
  date_time_fields =
      (text "year", i32_kind)
      ∷ ((text "month", u32_kind)
          ∷ ((text "day", u32_kind)
              ∷ ((text "hour", u32_kind)
                  ∷ ((text "minute", u32_kind)
                      ∷ ((text "second", u32_kind)
                          ∷ ((text "nanosecond", u32_kind)
                              ∷ ((text "offset_seconds", i32_kind)
                                  ∷ ((text "tz_name", string_kind) ∷ []))))))))

  unfoldable pub visit_map_date_time : List (Bytes × Stored) → De (CypherDateTime C)
  visit_map_date_time map = do
    slots ← collect date_time_fields [] map
    y ← required read_i32 (text "year") slots
    mo ← required read_u32 (text "month") slots
    d ← required read_u32 (text "day") slots
    h ← required read_u32 (text "hour") slots
    mi ← required read_u32 (text "minute") slots
    s ← required read_u32 (text "second") slots
    n ← required read_u32 (text "nanosecond") slots
    o ← required read_i32 (text "offset_seconds") slots
    tz_name ← optional_string (text "tz_name") slots
    date ← custom_or (text "invalid date") (C.from_ymd_opt y mo d)
    time ← custom_or (text "invalid time") (C.from_hms_nano_opt h mi s n)
    offset ← custom_or (text "invalid offset") (C.east_opt o)
    ok (C.new date time, (offset, tz_name))
