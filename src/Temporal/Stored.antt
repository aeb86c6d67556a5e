-- ===== src/Temporal/Stored.antt =====
-- temporal.rs: `Serialize` and `Deserialize` of the temporal types. A serialised struct is the list of
-- its fields with their names; a format that leaves the names out is read by `visit_seq`, and one that
-- keeps them by `visit_map`.
pub mod Serde
pub mod DateTime
pub mod Laws
pub mod Simple
use graphdblite.Base.{List, [], ◌∷◌, Bytes, text}
use graphdblite.Base.Int.{pos}
use graphdblite.Temporal.Chrono.{Chrono}
use graphdblite.Temporal.Iso.{CypherTime}
use graphdblite.Temporal.Stored.Serde.{
  Stored, int, De, ok, ◌>>=◌, custom_or, Kind, u32_kind, i32_kind, next, read_u32, read_i32,
  collect, required,
}

module _ (C : Chrono) where
  unfoldable pub serialize_date : C.Date → List (Bytes × Stored)
  serialize_date date =
      (text "year", int (C.year date))
      ∷ ((text "month", int (pos (C.month date))) ∷ ((text "day", int (pos (C.day date))) ∷ []))

  unfoldable pub visit_seq_date : List Stored → De C.Date
  visit_seq_date seq = do
    (y, seq1) ← next read_i32 0 seq
    (mo, seq2) ← next read_u32 1 seq1
    (d, seq3) ← next read_u32 2 seq2
    date ← custom_or (text "invalid date") (C.from_ymd_opt y mo d)
    ok date

  abbrev pub date_fields : List (Bytes × Kind)
  date_fields = (text "year", i32_kind) ∷ ((text "month", u32_kind) ∷ ((text "day", u32_kind) ∷ []))

  unfoldable pub visit_map_date : List (Bytes × Stored) → De C.Date
  visit_map_date map = do
    slots ← collect date_fields [] map
    y ← required read_i32 (text "year") slots
    mo ← required read_u32 (text "month") slots
    d ← required read_u32 (text "day") slots
    date ← custom_or (text "invalid date") (C.from_ymd_opt y mo d)
    ok date

  unfoldable pub serialize_local_time : C.Time → List (Bytes × Stored)
  serialize_local_time time =
      (text "hour", int (pos (C.hour time)))
      ∷ ((text "minute", int (pos (C.minute time)))
          ∷ ((text "second", int (pos (C.second time)))
              ∷ ((text "nanosecond", int (pos (C.nanosecond time))) ∷ [])))

  unfoldable pub visit_seq_local_time : List Stored → De C.Time
  visit_seq_local_time seq = do
    (h, seq1) ← next read_u32 0 seq
    (mi, seq2) ← next read_u32 1 seq1
    (s, seq3) ← next read_u32 2 seq2
    (n, seq4) ← next read_u32 3 seq3
    time ← custom_or (text "invalid time") (C.from_hms_nano_opt h mi s n)
    ok time

  abbrev pub local_time_fields : List (Bytes × Kind)
  local_time_fields =
      (text "hour", u32_kind)
      ∷ ((text "minute", u32_kind)
          ∷ ((text "second", u32_kind) ∷ ((text "nanosecond", u32_kind) ∷ [])))

  unfoldable pub visit_map_local_time : List (Bytes × Stored) → De C.Time
  visit_map_local_time map = do
    slots ← collect local_time_fields [] map
    h ← required read_u32 (text "hour") slots
    mi ← required read_u32 (text "minute") slots
    s ← required read_u32 (text "second") slots
    n ← required read_u32 (text "nanosecond") slots
    time ← custom_or (text "invalid time") (C.from_hms_nano_opt h mi s n)
    ok time

  unfoldable pub serialize_time : CypherTime C → List (Bytes × Stored)
  serialize_time (time, offset) =
      (text "hour", int (pos (C.hour time)))
      ∷ ((text "minute", int (pos (C.minute time)))
          ∷ ((text "second", int (pos (C.second time)))
              ∷ ((text "nanosecond", int (pos (C.nanosecond time)))
                  ∷ ((text "offset_seconds", int (C.local_minus_utc offset)) ∷ []))))

  unfoldable pub visit_seq_time : List Stored → De (CypherTime C)
  visit_seq_time seq = do
    (h, seq1) ← next read_u32 0 seq
    (mi, seq2) ← next read_u32 1 seq1
    (s, seq3) ← next read_u32 2 seq2
    (n, seq4) ← next read_u32 3 seq3
    (o, seq5) ← next read_i32 4 seq4
    time ← custom_or (text "invalid time") (C.from_hms_nano_opt h mi s n)
    offset ← custom_or (text "invalid offset") (C.east_opt o)
    ok (time, offset)

  abbrev pub time_fields : List (Bytes × Kind)
  time_fields =
      (text "hour", u32_kind)
      ∷ ((text "minute", u32_kind)
          ∷ ((text "second", u32_kind)
              ∷ ((text "nanosecond", u32_kind) ∷ ((text "offset_seconds", i32_kind) ∷ []))))

  unfoldable pub visit_map_time : List (Bytes × Stored) → De (CypherTime C)
  visit_map_time map = do
    slots ← collect time_fields [] map
    h ← required read_u32 (text "hour") slots
    mi ← required read_u32 (text "minute") slots
    s ← required read_u32 (text "second") slots
    n ← required read_u32 (text "nanosecond") slots
    o ← required read_i32 (text "offset_seconds") slots
    time ← custom_or (text "invalid time") (C.from_hms_nano_opt h mi s n)
    offset ← custom_or (text "invalid offset") (C.east_opt o)
    ok (time, offset)

  unfoldable pub serialize_local_date_time : C.DateTime → List (Bytes × Stored)
  serialize_local_date_time dt =
      (text "year", int (C.year (C.date dt)))
      ∷ ((text "month", int (pos (C.month (C.date dt))))
          ∷ ((text "day", int (pos (C.day (C.date dt))))
              ∷ ((text "hour", int (pos (C.hour (C.time dt))))
                  ∷ ((text "minute", int (pos (C.minute (C.time dt))))
                      ∷ ((text "second", int (pos (C.second (C.time dt))))
                          ∷ ((text "nanosecond", int (pos (C.nanosecond (C.time dt)))) ∷ []))))))

  unfoldable pub visit_seq_local_date_time : List Stored → De C.DateTime
  visit_seq_local_date_time seq = do
    (y, seq1) ← next read_i32 0 seq
    (mo, seq2) ← next read_u32 1 seq1
    (d, seq3) ← next read_u32 2 seq2
    (h, seq4) ← next read_u32 3 seq3
    (mi, seq5) ← next read_u32 4 seq4
    (s, seq6) ← next read_u32 5 seq5
    (n, seq7) ← next read_u32 6 seq6
    date ← custom_or (text "invalid date") (C.from_ymd_opt y mo d)
    time ← custom_or (text "invalid time") (C.from_hms_nano_opt h mi s n)
    ok (C.new date time)

  abbrev pub local_date_time_fields : List (Bytes × Kind)
  local_date_time_fields =
      (text "year", i32_kind)
      ∷ ((text "month", u32_kind)
          ∷ ((text "day", u32_kind)
              ∷ ((text "hour", u32_kind)
                  ∷ ((text "minute", u32_kind)
                      ∷ ((text "second", u32_kind) ∷ ((text "nanosecond", u32_kind) ∷ []))))))

  unfoldable pub visit_map_local_date_time : List (Bytes × Stored) → De C.DateTime
  visit_map_local_date_time map = do
    slots ← collect local_date_time_fields [] map
    y ← required read_i32 (text "year") slots
    mo ← required read_u32 (text "month") slots
    d ← required read_u32 (text "day") slots
    h ← required read_u32 (text "hour") slots
    mi ← required read_u32 (text "minute") slots
    s ← required read_u32 (text "second") slots
    n ← required read_u32 (text "nanosecond") slots
    date ← custom_or (text "invalid date") (C.from_ymd_opt y mo d)
    time ← custom_or (text "invalid time") (C.from_hms_nano_opt h mi s n)
    ok (C.new date time)
