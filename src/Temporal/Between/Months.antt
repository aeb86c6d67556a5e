-- ===== src/Temporal/Between/Months.antt =====
-- temporal.rs: `add_months_to_date` on the dates of the calendar of chrono.
use graphdblite.Base.{
  Option, min, ℕ, ◌+◌, ◌≤◌, some, ◌≡◌, refl, Bool-cases, inl, inr, ◌==◌, if◌then◌else◌, arith,
}
use graphdblite.Base.Int.{ℤ, pos, pos_part, neg_part, ◌+ℤ◌, ◌-ℤ◌, ◌<ℤ◌, ◌≤ℤ◌}
use graphdblite.Temporal.Outcome.{ok}
use graphdblite.Temporal.Between.{Calendar, days_in_month, add_months_to_date}
use graphdblite.Temporal.Between.Values.{div_euclid, rem_euclid, wrap_i32}
use graphdblite.Temporal.Between.Numbers.{
  month_number, IsMonth, wrap_i32-small, div_euclid-bounds, rem_euclid-below, next_year-bounds,
  month_number-parts, add_none,
}

-- The first day of the month that follows.
abbrev pub next_first : Calendar → ℤ → ℕ → Option ℤ
next_first C y m = if m == 12 then C.from_ymd_opt (y +ℤ pos 1) 1 1 else C.from_ymd_opt y (m + 1) 1

-- The days of a month are those from the first on, so many as there are before the next month.
pub record MonthDays (C : Calendar) (y : ℤ) (m : ℕ) (first next : ℤ) : Type 0 where
  pub count : ℕ
  pub count_lem : next -ℤ first ≡ pos count
  pub count_pos : 1 ≤ count
  pub has : (d : ℕ) → 1 ≤ d → d ≤ count → (x : ℤ) × (C.from_ymd_opt y m d ≡ some x)
  pub only : (d : ℕ) (x : ℤ) → C.from_ymd_opt y m d ≡ some x → d ≤ count

-- What chrono documents of `NaiveDate`: its range, that each month there has a first day, the days of
-- a month, and that the dates of a later month, or later in the month, are later.
pub record CalendarLaws (C : Calendar) : Type 0 where
  pub from_year :
      (y : ℤ) (m d : ℕ) (x : ℤ)
      → C.from_ymd_opt y m d ≡ some x
      → (pos_part y ≤ 262142) × (neg_part y ≤ 262143)
  pub from_month : (y : ℤ) (m d : ℕ) (x : ℤ) → C.from_ymd_opt y m d ≡ some x → (1 ≤ m) × (m ≤ 12)
  pub from_day : (y : ℤ) (m d : ℕ) (x : ℤ) → C.from_ymd_opt y m d ≡ some x → 1 ≤ d
  pub first :
      (y : ℤ) (m : ℕ)
      → pos_part y ≤ 262142
      → neg_part y ≤ 262143
      → 1 ≤ m
      → m ≤ 12
      → (x : ℤ) × (C.from_ymd_opt y m 1 ≡ some x)
  pub month_days :
      (y : ℤ) (m : ℕ) (a b : ℤ)
      → C.from_ymd_opt y m 1 ≡ some a
      → next_first C y m ≡ some b
      → MonthDays C y m a b
  pub later :
      (y y' : ℤ) (m m' d d' : ℕ) (x x' : ℤ)
      → C.from_ymd_opt y m d ≡ some x
      → C.from_ymd_opt y' m' d' ≡ some x'
      → month_number y m <ℤ month_number y' m'
      → x <ℤ x'
  pub in_order :
      (y : ℤ) (m d d' : ℕ) (x x' : ℤ)
      → C.from_ymd_opt y m d ≡ some x
      → C.from_ymd_opt y m d' ≡ some x'
      → d ≤ d'
      → x ≤ℤ x'

-- A day number that is a date, in a year before the last that chrono has.
pub record IsDay (C : Calendar) (d : ℤ) : Type 0 where
  pub made : C.from_ymd_opt (C.year d) (C.month d) (C.day d) ≡ some d
  pub before_last : pos_part (C.year d) ≤ 262141

-- The month of a date, so many months later.
abbrev pub month_after : Calendar → ℤ → ℤ → ℤ
month_after C d months = month_number (C.year d) (C.month d) +ℤ months

module _ (C : Calendar) (L : CalendarLaws C) where
  next_first_lem :
      (y : ℤ) (m : ℕ)
      → pos_part y ≤ 262141
      → neg_part y ≤ 262143
      → 1 ≤ m
      → m ≤ 12
      → (b : ℤ) × (next_first C y m ≡ some b)
  next_first_lem y m h k l n = elim (Bool-cases (m == 12)) [
    | inl e ↦
        let (above, below) = next_year-bounds y h k in
        let (b, made) = L.first (y +ℤ pos 1) 1 above below (omega arith) (omega arith) in
        (b, rw e made)
    | inr e ↦
        let (b, made) = L.first y (m + 1) (omega arith) k (omega arith) (ground arith) in
        (b, rw e made)
  ]

  days_in_month_lem :
      (y : ℤ) (m : ℕ) (a b : ℤ)
      → pos_part y ≤ 262141
      → neg_part y ≤ 262143
      → C.from_ymd_opt y m 1 ≡ some a
      → next_first C y m ≡ some b
      → days_in_month C y m ≡ ok (b -ℤ a)
  unfolding days_in_month
  days_in_month_lem y m a b h k made next =
      let (above, below) = next_year-bounds y h k in
      let small : wrap_i32 (y +ℤ pos 1) ≡ y +ℤ pos 1 =
        wrap_i32-small (y +ℤ pos 1) (omega arith) (omega arith) in
      rw (small, next, made) refl

  -- The months of a date are added: the result stands in the month that they lead to.
  pub add_months_to_date_lem :
      (d months : ℤ)
      → IsDay C d
      → IsMonth (month_after C d months)
      → (x : ℤ) × (day : ℕ) × (add_months_to_date C d months ≡ ok x)
        × (C.from_ymd_opt
              (div_euclid (month_after C d months) 12)
              (rem_euclid (month_after C d months) 12 + 1)
              day
            ≡ some x)
  unfolding add_months_to_date
  add_months_to_date_lem d months h is_month =
      let z = month_after C d months in
      let y = div_euclid z 12 in
      let m = rem_euclid z 12 + 1 in
      let (above, below) = div_euclid-bounds z is_month in
      let month_le : m ≤ 12 = omega (arith, rem_euclid-below z) in
      let (a, made) = L.first y m (omega arith) below (omega arith) month_le in
      let (b, next) = next_first_lem y m above below (omega arith) month_le in
      let days = L.month_days y m a b made next in
      let day_pos = L.from_day (C.year d) (C.month d) (C.day d) d h.made in
      let counted = days.count_pos in
      let (x, result) = days.has (min (C.day d) days.count) (omega arith) (omega arith) in
      let small : wrap_i32 y ≡ y = wrap_i32-small y (omega arith) (omega arith) in
      (
        x,
        min (C.day d) days.count,
        rw (small, days_in_month_lem y m a b above below made next, days.count_lem, result) refl,
        result,
      )

  -- No months lead to the date itself.
  pub add_months_to_date-zero : (d : ℤ) → IsDay C d → add_months_to_date C d (pos 0) ≡ ok d
  unfolding add_months_to_date
  add_months_to_date-zero d h =
      let y = C.year d in
      let m = C.month d in
      let (above, below) = L.from_year y m (C.day d) d h.made in
      let (low, high) = L.from_month y m (C.day d) d h.made in
      let (quotient, remainder) = month_number-parts y m low high in
      let (a, made) = L.first y m above below low high in
      let (b, next) = next_first_lem y m h.before_last below low high in
      let days = L.month_days y m a b made next in
      let small : wrap_i32 y ≡ y = wrap_i32-small y (omega arith) (omega arith) in
      let is_day : min (C.day d) days.count ≡ C.day d =
        omega (arith, days.only (C.day d) d h.made) in
      rw
        (
          add_none (month_number y m),
          quotient,
          remainder,
          small,
          days_in_month_lem y m a b h.before_last below made next,
          days.count_lem,
          is_day,
          h.made,
        )
        refl
