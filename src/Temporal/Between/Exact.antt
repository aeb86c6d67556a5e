-- ===== src/Temporal/Between/Exact.antt =====
-- temporal.rs: the durations between two values are exact while the nanoseconds fit an `i64`.
use graphdblite.Base.{ℕ, ◌<◌, true, false, ◌&&◌, some, ◌≡◌, refl, Bool-cases, inl, inr, arith}
use graphdblite.Base.Int.{ℤ, pos, negsuc, ◌+ℤ◌, ◌-ℤ◌, ◌≤ℤ◌, ltb_ℤ}
use graphdblite.Types.Value.{Value}
use graphdblite.Temporal.Outcome.{ok}
use graphdblite.Temporal.Parse.{times}
use graphdblite.Temporal.Format.{magnitude}
use graphdblite.Temporal.Stored.DateTime.{CypherDuration}
use graphdblite.Temporal.Stored.Laws.{IsI64}
use graphdblite.Temporal.Between.{
  Calendar, shifted_nanos, duration_in_days, days_between, duration_in_seconds, seconds_between,
  duration_between, between_dates, month_diff, add_months_to_date, borrowed, lasting,
}
use graphdblite.Temporal.Between.Values.{
  quotient, div_euclid, rem_euclid, wrap_i64, extract_date, is_time_only, has_date,
}

wrap_i64-IsI64 : (z : ℤ) → IsI64 z → wrap_i64 z ≡ z
wrap_i64-IsI64 (pos n) (h, k) = ground arith
wrap_i64-IsI64 (negsuc n) (h, k) = ground arith

-- A value with a date is no time alone.
date_is_no_time : (v : Value) (d : ℤ) → extract_date v ≡ some d → is_time_only v ≡ false
unfolding extract_date is_time_only
date_is_no_time v d e = ground arith

date_is_date : (v : Value) (d : ℤ) → extract_date v ≡ some d → has_date v ≡ true
unfolding extract_date has_date
date_is_date v d e = ground arith

-- Whole seconds and the fraction make up the nanoseconds.
div_euclid-rem_euclid :
    (z : ℤ) → times (div_euclid z 1000000000) 1000000000 +ℤ pos (rem_euclid z 1000000000) ≡ z
div_euclid-rem_euclid (pos n) = ground arith
div_euclid-rem_euclid (negsuc n) = ground arith

rem_euclid-below : (z : ℤ) → rem_euclid z 1000000000 < 1000000000
rem_euclid-below (pos n) = omega arith
rem_euclid-below (negsuc n) = omega arith

times-times : (z : ℤ) → times (times z 86400) 1000000000 ≡ times z 86400000000000
times-times (pos n) = ground arith
times-times (negsuc n) = ground arith

-- What a truncated quotient leaves is less than the divisor and on the same side of 0.
abbrev pub IsRest : ℤ → ℕ → ℤ → ℤ → Type 0
IsRest z k q rest =
    (times q k +ℤ rest ≡ z)
    × (magnitude rest < k)
    × (pos 0 ≤ℤ z → pos 0 ≤ℤ rest)
    × (z ≤ℤ pos 0 → rest ≤ℤ pos 0)

quotient-IsRest :
    (z : ℤ)
    → IsRest z 86400000000000
        (quotient z 86400000000000)
        (z -ℤ times (quotient z 86400000000000) 86400000000000)
quotient-IsRest (pos n) = (ground arith, ground arith, λ h. ground arith, λ h. ground arith)
quotient-IsRest (negsuc n) = (ground arith, ground arith, λ h. ground arith, λ h. ground arith)

-- The nanoseconds from one value to another: those of the days between their dates, and those between
-- their times.
abbrev pub nanos_between : ℤ → ℤ → ℤ → ℤ
nanos_between d1 d2 time_diff = times (d2 -ℤ d1) 86400000000000 +ℤ time_diff

-- What two values count of the time of day.
abbrev pub time_between : Calendar → Value → Value → ℤ
time_between C lhs rhs = shifted_nanos C rhs lhs -ℤ shifted_nanos C lhs rhs

-- The nanoseconds of days, seconds and a fraction.
abbrev pub nanos_of : CypherDuration → ℤ
nanos_of r = times r.days 86400000000000 +ℤ (times r.seconds 1000000000 +ℤ r.nanos)

borrow_day :
    (days z : ℤ)
    → times (days -ℤ pos 1) 86400000000000 +ℤ (z +ℤ pos 86400000000000)
      ≡ times days 86400000000000 +ℤ z
borrow_day (pos a) (pos b) = ground arith
borrow_day (pos a) (negsuc b) = ground arith
borrow_day (negsuc a) (pos b) = ground arith
borrow_day (negsuc a) (negsuc b) = ground arith

repay_day :
    (days z : ℤ)
    → times (days +ℤ pos 1) 86400000000000 +ℤ (z -ℤ pos 86400000000000)
      ≡ times days 86400000000000 +ℤ z
repay_day (pos a) (pos b) = ground arith
repay_day (pos a) (negsuc b) = ground arith
repay_day (negsuc a) (pos b) = ground arith
repay_day (negsuc a) (negsuc b) = ground arith

module _ (C : Calendar) where
  -- Between two values with dates, as long as the nanoseconds of the days, with and without the time,
  -- fit an i64, inDays is a number of days alone: with a rest below a day that does not point the
  -- other way they make up the nanoseconds between the values.
  pub duration_in_days_lem :
      (lhs rhs : Value) (d1 d2 : ℤ)
      → extract_date lhs ≡ some d1
      → extract_date rhs ≡ some d2
      → IsI64 (times (d2 -ℤ d1) 86400000000000)
      → IsI64 (nanos_between d1 d2 (time_between C lhs rhs))
      → (days rest : ℤ) × (duration_in_days C lhs rhs ≡ lasting (pos 0) days (pos 0) 0)
        × IsRest (nanos_between d1 d2 (time_between C lhs rhs)) 86400000000000 days rest
  unfolding duration_in_days days_between
  duration_in_days_lem lhs rhs d1 d2 l r small total =
      let z = nanos_between d1 d2 (time_between C lhs rhs) in
      (
        quotient z 86400000000000,
        z -ℤ times (quotient z 86400000000000) 86400000000000,
        rw
            (
              date_is_no_time lhs d1 l,
              date_is_no_time rhs d2 r,
              l,
              r,
              wrap_i64-IsI64 (times (d2 -ℤ d1) 86400000000000) small,
              wrap_i64-IsI64 z total,
            )
            refl,
        quotient-IsRest z,
      )

  -- Between two values with dates, as long as the nanoseconds of the days, with and without the time,
  -- fit an i64, the seconds and the nanoseconds of inSeconds make them up, and the nanoseconds are
  -- below a second.
  pub duration_in_seconds_lem :
      (lhs rhs : Value) (d1 d2 : ℤ)
      → extract_date lhs ≡ some d1
      → extract_date rhs ≡ some d2
      → IsI64 (times (d2 -ℤ d1) 86400000000000)
      → IsI64 (nanos_between d1 d2 (time_between C lhs rhs))
      → (seconds : ℤ) × (nanos : ℕ) × (duration_in_seconds C lhs rhs
          ≡ lasting (pos 0) (pos 0) seconds nanos)
        × (times seconds 1000000000 +ℤ pos nanos ≡ nanos_between d1 d2 (time_between C lhs rhs))
        × (nanos < 1000000000)
  unfolding duration_in_seconds seconds_between
  duration_in_seconds_lem lhs rhs d1 d2 l r small total =
      let e = nanos_between d1 d2 (time_between C lhs rhs) in
      (
        div_euclid e 1000000000,
        rem_euclid e 1000000000,
        rw
            (
              date_is_no_time lhs d1 l,
              date_is_no_time rhs d2 r,
              l,
              r,
              times-times (d2 -ℤ d1),
              wrap_i64-IsI64 (times (d2 -ℤ d1) 86400000000000) small,
              wrap_i64-IsI64 e total,
            )
            refl,
        div_euclid-rem_euclid e,
        rem_euclid-below e,
      )

  borrowed_lem :
      (months days z : ℤ) → nanos_of (borrowed C months days z) ≡ times days 86400000000000 +ℤ z
  borrowed_lem months days z = elim (Bool-cases (ltb_ℤ (pos 0) days && ltb_ℤ z (pos 0))) [
    | inl e ↦ rw (e, div_euclid-rem_euclid (z +ℤ pos 86400000000000)) (borrow_day days z)
    | inr e ↦ rw e (elim (Bool-cases (ltb_ℤ days (pos 0) && ltb_ℤ (pos 0) z)) [
      | inl f ↦ rw (f, div_euclid-rem_euclid (z -ℤ pos 86400000000000)) (repay_day days z)
      | inr f ↦ rw (f, div_euclid-rem_euclid z) refl
    ])
  ]

  borrowed-months : (months days z : ℤ) → CypherDuration.months (borrowed C months days z) ≡ months
  borrowed-months months days z = ground arith

  -- Between two values with dates, when the months between the dates and the first date after those
  -- months can be computed, duration_between succeeds, keeps the months, and its days, seconds and
  -- nanoseconds make up exactly the rest.
  pub duration_between_lem :
      (lhs rhs : Value) (d1 d2 months advanced : ℤ)
      → extract_date lhs ≡ some d1
      → extract_date rhs ≡ some d2
      → month_diff C d1 d2 ≡ ok months
      → add_months_to_date C d1 months ≡ ok advanced
      → (r : CypherDuration) × (duration_between C lhs rhs ≡ ok r)
        × (CypherDuration.months r ≡ months)
        × (nanos_of r ≡ nanos_between advanced d2 (time_between C lhs rhs))
  unfolding duration_between between_dates
  duration_between_lem lhs rhs d1 d2 months advanced l r diff added =
      let z = time_between C lhs rhs in
      (
        borrowed C months (d2 -ℤ advanced) z,
        rw (date_is_no_time lhs d1 l, date_is_no_time rhs d2 r, l, r, diff, added) refl,
        borrowed-months months (d2 -ℤ advanced) z,
        borrowed_lem months (d2 -ℤ advanced) z,
      )
