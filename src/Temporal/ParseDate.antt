-- ===== src/Temporal/ParseDate.antt =====
-- temporal.rs: the parsers of calendar, ordinal and week dates.
use graphdblite.Base.{
  ℕ, List, [], ◌∷◌, ◌++◌, Option, none, some, length, leb, contains, ◌==◌, if◌then◌else◌, Bytes,
  text,
}
use graphdblite.Base.Int.{ℤ}
use graphdblite.Temporal.Outcome.{Outcome, ok, invalid, or_invalid, ◌>>=◌}
use graphdblite.Temporal.Chrono.{Chrono}
use graphdblite.Temporal.Text.{slice, parse_u32, parse_i32, cut, split_at, without, decimal}

-- `parse_num` at each of its types.
abbrev pub parse_num_i32 : Bytes → Outcome ℤ
parse_num_i32 s = parse_i32 s

abbrev pub parse_num_u32 : Bytes → Outcome ℕ
parse_num_u32 s = parse_u32 s

module _ (C : Chrono) where
  abbrev pub date_of : Bytes → Option C.Date → Outcome C.Date
  date_of s made = or_invalid (text "invalid date: " ++ s) made

  abbrev pub ordinal_of : Bytes → Option C.Date → Outcome C.Date
  ordinal_of s made = or_invalid (text "invalid ordinal date: " ++ s) made

  -- The parts between hyphens.
  unfoldable pub parse_hyphens : Bytes → List Bytes → Outcome C.Date
  parse_hyphens s (years ∷ (months ∷ (days ∷ []))) = do
    y ← parse_i32 years
    m ← parse_u32 months
    d ← parse_u32 days
    date_of s (C.from_ymd_opt y m d)
  parse_hyphens s (years ∷ (second_part ∷ [])) = do
    y ← parse_i32 years
    part2 ← parse_u32 second_part
    if length second_part == 3
        then ordinal_of s (C.from_yo_opt y part2)
        else date_of s (C.from_ymd_opt y part2 1)
  parse_hyphens s other = invalid (text "invalid date: " ++ s)

  unfoldable pub parse_compact_date : Bytes → Outcome C.Date
  parse_compact_date s =
      if length s == 8
      then (do
        y ← slice 0 4 s >>= parse_num_i32
        m ← slice 4 6 s >>= parse_num_u32
        d ← slice 6 (length s) s >>= parse_num_u32
        date_of s (C.from_ymd_opt y m d))
      else (if length s == 7
          then (do
            y ← slice 0 4 s >>= parse_num_i32
            d ← slice 4 (length s) s >>= parse_num_u32
            ordinal_of s (C.from_yo_opt y d))
          else (if length s == 6
              then (do
                y ← slice 0 4 s >>= parse_num_i32
                m ← slice 4 (length s) s >>= parse_num_u32
                date_of s (C.from_ymd_opt y m 1))
              else (if length s == 4
                  then (do y ← parse_num_i32 s; date_of s (C.from_ymd_opt y 1 1))
                  else invalid (text "invalid date: " ++ s))))

  abbrev weekday_of : Bytes → ℕ → Outcome C.Weekday
  weekday_of s day =
      if day == 1
      then ok C.mon
      else (if day == 2
          then ok C.tue
          else (if day == 3
              then ok C.wed
              else (if day == 4
                  then ok C.thu
                  else (if day == 5
                      then ok C.fri
                      else (if day == 6
                          then ok C.sat
                          else (if day == 7
                              then ok C.sun
                              else invalid (
                                  text "invalid day of week "
                                  ++ (decimal day ++ (text " in: " ++ s)))))))))

  -- The week and the day behind the W; the day is Monday where there is none.
  unfoldable pub week_and_day : Bytes → Bytes → Outcome (ℕ × ℕ)
  week_and_day s after_w =
      if leb 3 (length after_w)
      then (do
        wk ← slice 0 2 after_w >>= parse_u32
        d ← slice 2 3 after_w >>= parse_u32
        ok (wk, d))
      else (if length after_w == 2
          then (do wk ← parse_u32 after_w; ok (wk, 1))
          else invalid (text "invalid week date: " ++ s))

  unfoldable pub parse_week_parts : Bytes → Option (Bytes × Bytes) → Outcome C.Date
  parse_week_parts s none = invalid (text "invalid week date: " ++ s)
  parse_week_parts s (some (before_w, after_w)) = do
    year ← parse_i32 before_w
    (week, day) ← week_and_day s after_w
    weekday ← weekday_of s day
    or_invalid (text "invalid week date: " ++ s) (C.from_isoywd_opt year week weekday)

  unfoldable pub parse_week_date : Bytes → Outcome C.Date
  parse_week_date s = parse_week_parts s (cut b'W' (without b'-' s))

  unfoldable pub parse_date_str : Bytes → Outcome C.Date
  parse_date_str s =
      if contains s b'W'
      then parse_week_date s
      else (if contains s b'-' then parse_hyphens s (split_at b'-' s) else parse_compact_date s)
