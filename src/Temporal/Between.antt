-- ===== src/Temporal/Between.antt =====
-- temporal.rs: `duration.between`, `inMonths`, `inDays` and `inSeconds`. Numbers are `i64`; a product
-- that can leave its range is wrapped, as a release build does.
pub mod Values
pub mod Exact
pub mod Numbers
pub mod Months
pub mod Whole
pub mod Elapsed
use graphdblite.Base.{
  ℕ, ◌+◌, ◌*◌, Bool, true, false, not, ◌&&◌, ◌||◌, Option, none, some, ◌==◌, if◌then◌else◌, Bytes,
  min,
}
use graphdblite.Base.Int.{ℤ, pos, negsuc, ◌+ℤ◌, ◌-ℤ◌, ltb_ℤ, int_eq}
use graphdblite.Types.Value.{Value}
use graphdblite.Temporal.Outcome.{Outcome, ok, panicked, ◌>>=◌}
use graphdblite.Temporal.Text.{or_else}
use graphdblite.Temporal.Parse.{times}
use graphdblite.Temporal.Stored.DateTime.{CypherDuration}
use graphdblite.Temporal.Between.Values.{
  quotient, div_euclid, rem_euclid, wrap_i64, wrap_i32, extract_date, extract_time,
  extract_offset_secs, is_time_only, has_date, is_offset_aware, extract_tz_name,
}

-- The calendar of chrono on day numbers, and the offset of the earliest instant with a local date,
-- second of the day and nanosecond in a named zone.
pub record Calendar : Type 0 where
  pub year : ℤ → ℤ
  pub month : ℤ → ℕ
  pub day : ℤ → ℕ
  pub from_ymd_opt : ℤ → ℕ → ℕ → Option ℤ
  pub offset_in_tz : Bytes → ℤ → ℕ × ℕ → Option ℤ

abbrev pub or_default {ℓ} : {A : Type ℓ} → A → Option A → A
or_default a none = a
or_default a (some b) = b

abbrev pub is_some {ℓ} : {A : Type ℓ} → Option A → Bool
is_some none = false
is_some (some a) = true

abbrev pub unwrapped {ℓ} : {A : Type ℓ} → Option A → Outcome A
unwrapped none = panicked
unwrapped (some a) = ok a

abbrev pub time_to_nanos : ℕ × ℕ → ℤ
time_to_nanos (s, n) = pos (s * 1000000000 + n)

abbrev pub lasting : ℤ → ℤ → ℤ → ℕ → CypherDuration
lasting months days seconds nanos = record {
  months = months;
  days = days;
  seconds = seconds;
  nanos = pos nanos;
}

abbrev pub zero_duration : CypherDuration
zero_duration = lasting (pos 0) (pos 0) (pos 0) 0

abbrev pub elapsed : Option (ℕ × ℕ) → Option ℤ
elapsed none = none
elapsed (some t) = some (time_to_nanos t)

module _ (C : Calendar) where
  unfoldable pub resolve_offset_in_tz : ℤ → ℕ × ℕ → Bytes → ℤ
  resolve_offset_in_tz d t tz_name = or_default (pos 0) (C.offset_in_tz tz_name d t)

  -- The day number of 1970-01-01 is 0.
  unfoldable pub offset_of_local : Value → Value → Option Bytes → ℤ
  offset_of_local val other none = pos 0
  offset_of_local val other (some tz_name) =
      resolve_offset_in_tz (or_default (pos 0) (or_else (extract_date val) (extract_date other)))
        (or_default (0, 0) (extract_time val)) tz_name

  unfoldable pub effective_offset_dst : Value → Value → ℤ
  effective_offset_dst val other =
      if is_offset_aware val && is_offset_aware other
      then extract_offset_secs val
      else (if is_offset_aware val
          then (if is_some (extract_tz_name val) && not (is_offset_aware other)
              then extract_offset_secs val
              else pos 0)
          else offset_of_local val other (extract_tz_name other))

  -- The nanoseconds of the time of a value, less its offset where that counts against the other.
  unfoldable pub shifted_nanos : Value → Value → ℤ
  shifted_nanos val other =
      or_default (pos 0) (elapsed (extract_time val))
      -ℤ times (effective_offset_dst val other) 1000000000

  unfoldable pub days_in_month : ℤ → ℕ → Outcome ℤ
  days_in_month y m = do
    next ←
        unwrapped (
          if m == 12
          then C.from_ymd_opt (wrap_i32 (y +ℤ pos 1)) 1 1
          else C.from_ymd_opt y (m + 1) 1)
    first ← unwrapped (C.from_ymd_opt y m 1)
    ok (next -ℤ first)

  abbrev clamped : ℕ → ℤ → ℕ
  clamped d (pos most) = min d most
  clamped d (negsuc n) = d

  unfoldable pub add_months_to_date : ℤ → ℤ → Outcome ℤ
  add_months_to_date d months =
      let total = times (C.year d) 12 +ℤ (pos (C.month d) -ℤ pos 1) +ℤ months in
      let y = wrap_i32 (div_euclid total 12) in
      let m = rem_euclid total 12 + 1 in
      do max_day ← days_in_month y m; unwrapped (C.from_ymd_opt y m (clamped (C.day d) max_day))

  abbrev corrected : ℤ → ℤ → ℤ → ℤ
  corrected months adjusted d2 =
      if ltb_ℤ (pos 0) months && ltb_ℤ d2 adjusted
      then months -ℤ pos 1
      else (if ltb_ℤ months (pos 0) && ltb_ℤ adjusted d2 then months +ℤ pos 1 else months)

  unfoldable pub month_diff : ℤ → ℤ → Outcome ℤ
  month_diff d1 d2 =
      let months = times (C.year d2 -ℤ C.year d1) 12 +ℤ pos (C.month d2) -ℤ pos (C.month d1) in
      do adjusted ← add_months_to_date d1 months; ok (corrected months adjusted d2)

  -- A difference in nanoseconds as seconds and a fraction that is not negative.
  abbrev pub clock_duration : ℤ → ℤ → ℤ → CypherDuration
  clock_duration months days nanos =
      lasting months days (div_euclid nanos 1000000000) (rem_euclid nanos 1000000000)

  -- A day is borrowed where the days and the time have opposite signs.
  abbrev pub borrowed : ℤ → ℤ → ℤ → CypherDuration
  borrowed months days nanos =
      if ltb_ℤ (pos 0) days && ltb_ℤ nanos (pos 0)
      then clock_duration months (days -ℤ pos 1) (nanos +ℤ pos 86400000000000)
      else (if ltb_ℤ days (pos 0) && ltb_ℤ (pos 0) nanos
          then clock_duration months (days +ℤ pos 1) (nanos -ℤ pos 86400000000000)
          else clock_duration months days nanos)

  unfoldable pub between_dates : Option ℤ → Option ℤ → ℤ → Outcome CypherDuration
  between_dates (some date1) (some date2) time_diff = do
    months ← month_diff date1 date2
    advanced ← add_months_to_date date1 months
    ok (borrowed months (date2 -ℤ advanced) time_diff)
  between_dates d1 d2 time_diff = ok zero_duration

  unfoldable pub duration_between : Value → Value → Outcome CypherDuration
  duration_between lhs rhs =
      let diff = shifted_nanos rhs lhs -ℤ shifted_nanos lhs rhs in
      let both_have_dates =
        (is_some (extract_date lhs) && is_some (extract_date rhs))
        && (has_date lhs && has_date rhs) in
      if (is_time_only lhs || is_time_only rhs) && not both_have_dates
      then ok (clock_duration (pos 0) (pos 0) diff)
      else between_dates (extract_date lhs) (extract_date rhs) diff

  abbrev crossed : ℤ → Bool → ℤ → ℤ → ℤ
  crossed months same_date t1 t2 =
      if same_date
      then (if ltb_ℤ (pos 0) months && ltb_ℤ t2 t1
          then months -ℤ pos 1
          else (if ltb_ℤ months (pos 0) && ltb_ℤ t1 t2 then months +ℤ pos 1 else months))
      else months

  unfoldable pub months_between : Value → Value → Option ℤ → Option ℤ → Outcome CypherDuration
  months_between lhs rhs (some date1) (some date2) = do
    months ← month_diff date1 date2
    advanced ← add_months_to_date date1 months
    ok (
        lasting
          (crossed months (int_eq advanced date2) (shifted_nanos lhs rhs) (shifted_nanos rhs lhs))
          (pos 0) (pos 0) 0)
  months_between lhs rhs d1 d2 = ok zero_duration

  unfoldable pub duration_in_months : Value → Value → Outcome CypherDuration
  duration_in_months lhs rhs =
      if is_time_only lhs || is_time_only rhs
      then ok zero_duration
      else months_between lhs rhs (extract_date lhs) (extract_date rhs)

  unfoldable pub days_between : Option ℤ → Option ℤ → ℤ → CypherDuration
  days_between (some date1) (some date2) time_diff =
      let total = wrap_i64 (wrap_i64 (times (date2 -ℤ date1) 86400000000000) +ℤ time_diff) in
      lasting (pos 0) (quotient total 86400000000000) (pos 0) 0
  days_between d1 d2 time_diff = zero_duration

  unfoldable pub duration_in_days : Value → Value → CypherDuration
  duration_in_days lhs rhs =
      if is_time_only lhs || is_time_only rhs
      then zero_duration
      else days_between (extract_date lhs) (extract_date rhs)
          (shifted_nanos rhs lhs -ℤ shifted_nanos lhs rhs)

  unfoldable pub seconds_between : Option ℤ → Option ℤ → ℤ → CypherDuration
  seconds_between (some date1) (some date2) time_diff =
      let day_secs = times (date2 -ℤ date1) 86400 in
      clock_duration (pos 0) (pos 0) (wrap_i64 (wrap_i64 (times day_secs 1000000000) +ℤ time_diff))
  seconds_between d1 d2 time_diff = zero_duration

  unfoldable pub duration_in_seconds : Value → Value → CypherDuration
  duration_in_seconds lhs rhs =
      let time_diff = shifted_nanos rhs lhs -ℤ shifted_nanos lhs rhs in
      if (is_time_only lhs || is_time_only rhs) && not (has_date lhs && has_date rhs)
      then clock_duration (pos 0) (pos 0) time_diff
      else seconds_between (extract_date lhs) (extract_date rhs) time_diff
