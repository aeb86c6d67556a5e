-- ===== src/Checks/EvenCalendar.antt =====
-- A calendar in which every month has 31 days, with the range of years that chrono has.
use graphdblite.Base.{
  ℕ, ◌+◌, ◌-◌, ◌*◌, ◌/◌, ◌%◌, ◌==◌, ==_iff, ap, subst, ◌≤◌, ◌≡◌, Bool, ◌&&◌, Option, none, some,
  leb, if◌then◌else◌, arith, Bool-cases, inl, inr,
}
use graphdblite.Base.Int.{
  ℤ, pos, negsuc, pos_part, neg_part, ◌+ℤ◌, ◌-ℤ◌, ◌<ℤ◌, ◌≤ℤ◌, +ℤ_parts, -ℤ_parts, eq_of_parts,
}
use graphdblite.Temporal.Parse.{times}
use graphdblite.Temporal.Between.{Calendar}
use graphdblite.Temporal.Between.Values.{div_euclid, rem_euclid}
use graphdblite.Temporal.Between.Months.{CalendarLaws, MonthDays, next_first}
use graphdblite.Temporal.Between.Numbers.{month_number}

abbrev pub is_even_date : ℤ → ℕ → ℕ → Bool
is_even_date y m d =
    (leb (pos_part y) 262142 && leb (neg_part y) 262143)
    && ((leb 1 m && leb m 12) && (leb 1 d && leb d 31))

unfoldable pub even_day : ℤ → ℕ → ℕ → ℤ
even_day y m d = times (month_number y m) 31 +ℤ pos (d - 1)

abbrev pub even_from : ℤ → ℕ → ℕ → Option ℤ
even_from y m d = if is_even_date y m d then some (even_day y m d) else none

abbrev pub even : Calendar
even = record {
  year = λ x. div_euclid x 372;
  month = λ x. rem_euclid x 372 / 31 + 1;
  day = λ x. rem_euclid x 372 % 31 + 1;
  from_ymd_opt = even_from;
  offset_in_tz = λ tz d t. none;
}

-- A number that was made is in range, and the day's.
record IsEven (y : ℤ) (m d : ℕ) (x : ℤ) : Type 0 where
  above : pos_part y ≤ 262142
  below : neg_part y ≤ 262143
  low : 1 ≤ m
  high : m ≤ 12
  from : 1 ≤ d
  upto : d ≤ 31
  is_day : even_day y m d ≡ x

even_from-IsEven : (y : ℤ) (m d : ℕ) (x : ℤ) → even_from y m d ≡ some x → IsEven y m d x
even_from-IsEven y m d x e = record {
  above = ground arith;
  below = ground arith;
  low = ground arith;
  high = ground arith;
  from = ground arith;
  upto = ground arith;
  is_day = ground arith;
}

even_from_lem :
    (y : ℤ) (m d : ℕ)
    → pos_part y ≤ 262142
    → neg_part y ≤ 262143
    → 1 ≤ m
    → m ≤ 12
    → 1 ≤ d
    → d ≤ 31
    → even_from y m d ≡ some (even_day y m d)
even_from_lem y m d h k l n i j = ground arith

times_parts :
    (z : ℤ) → pos_part (times z 31) + neg_part z * 31 ≡ neg_part (times z 31) + pos_part z * 31
times_parts (pos n) = omega arith
times_parts (negsuc n) = ground arith

year_parts :
    (z : ℤ) → pos_part (times z 12) + neg_part z * 12 ≡ neg_part (times z 12) + pos_part z * 12
year_parts (pos n) = omega arith
year_parts (negsuc n) = ground arith

month_number_parts :
    (y : ℤ) (m : ℕ)
    → pos_part (month_number y m) + neg_part y * 12 + 1
      ≡ neg_part (month_number y m) + pos_part y * 12 + m
month_number_parts y m =
    omega (arith, year_parts y, +ℤ_parts (times y 12) (pos m -ℤ pos 1), -ℤ_parts (pos m) (pos 1))

even_day_parts :
    (y : ℤ) (m d : ℕ)
    → pos_part (even_day y m d) + neg_part (month_number y m) * 31
      ≡ neg_part (even_day y m d) + pos_part (month_number y m) * 31 + (d - 1)
unfolding even_day
even_day_parts y m d =
    let z = month_number y m in omega (arith, times_parts z, +ℤ_parts (times z 31) (pos (d - 1)))

even-later :
    (y y' : ℤ) (m m' d d' : ℕ) (x x' : ℤ)
    → even_from y m d ≡ some x
    → even_from y' m' d' ≡ some x'
    → month_number y m <ℤ month_number y' m'
    → x <ℤ x'
even-later y y' m m' d d' x x' e e' h =
    let a = even_from-IsEven y m d x e in
    let b = even_from-IsEven y' m' d' x' e' in
    omega (
      arith,
      even_day_parts y m d,
      even_day_parts y' m' d',
      ap pos_part a.is_day,
      ap neg_part a.is_day,
      ap pos_part b.is_day,
      ap neg_part b.is_day,
      a.upto,
      b.from,
    )

even-in_order :
    (y : ℤ) (m d d' : ℕ) (x x' : ℤ)
    → even_from y m d ≡ some x
    → even_from y m d' ≡ some x'
    → d ≤ d'
    → x ≤ℤ x'
even-in_order y m d d' x x' e e' h =
    let a = even_from-IsEven y m d x e in
    let b = even_from-IsEven y m d' x' e' in
    omega (
      arith,
      even_day_parts y m d,
      even_day_parts y m d',
      ap pos_part a.is_day,
      ap neg_part a.is_day,
      ap pos_part b.is_day,
      ap neg_part b.is_day,
    )

-- The month that follows has the next number.
next_first-IsNext :
    (y : ℤ) (m : ℕ) (b : ℤ)
    → 1 ≤ m
    → next_first even y m ≡ some b
    → (y' : ℤ) × (m' : ℕ) × (even_from y' m' 1 ≡ some b)
      × (month_number y' m' ≡ month_number y m +ℤ pos 1)
next_first-IsNext y m b h e = elim (Bool-cases (m == 12)) [
  | inl t ↦
      let next = month_number (y +ℤ pos 1) 1 in
      let z = month_number y m in
      (
        y +ℤ pos 1,
        1,
        subst (λ c. (if c then even_from (y +ℤ pos 1) 1 1 else even_from y (m + 1) 1) ≡ some b) t e,
        eq_of_parts next (z +ℤ pos 1) (
            omega (
              arith,
              month_number_parts (y +ℤ pos 1) 1,
              month_number_parts y m,
              +ℤ_parts y (pos 1),
              +ℤ_parts z (pos 1),
              (==_iff m 12).0 t,
            )),
      )
  | inr t ↦
      let next = month_number y (m + 1) in
      let z = month_number y m in
      (
        y,
        m + 1,
        subst (λ c. (if c then even_from (y +ℤ pos 1) 1 1 else even_from y (m + 1) 1) ≡ some b) t e,
        eq_of_parts next (z +ℤ pos 1) (
            omega
              (arith, month_number_parts y (m + 1), month_number_parts y m, +ℤ_parts z (pos 1))),
      )
]

even-MonthDays :
    (y : ℤ) (m : ℕ) (a b : ℤ)
    → even_from y m 1 ≡ some a
    → next_first even y m ≡ some b
    → MonthDays even y m a b
even-MonthDays y m a b e next =
    let f = even_from-IsEven y m 1 a e in
    let (y', m', made, after) = next_first-IsNext y m b f.low next in
    let g = even_from-IsEven y' m' 1 b made in
    record {
      count = 31;
      count_lem = eq_of_parts (b -ℤ a) (pos 31) (
          omega (
            arith,
            even_day_parts y m 1,
            even_day_parts y' m' 1,
            ap pos_part f.is_day,
            ap neg_part f.is_day,
            ap pos_part g.is_day,
            ap neg_part g.is_day,
            ap pos_part after,
            ap neg_part after,
            +ℤ_parts (month_number y m) (pos 1),
            -ℤ_parts b a,
          ));
      count_pos = omega arith;
      has = λ d h k. (even_day y m d, even_from_lem y m d f.above f.below f.low f.high h k);
      only = λ d x h. IsEven.upto (even_from-IsEven y m d x h);
    }

pub even_laws : CalendarLaws even
even_laws = record {
  from_year = λ y m d x e.
      (IsEven.above (even_from-IsEven y m d x e), IsEven.below (even_from-IsEven y m d x e));
  from_month = λ y m d x e.
      (IsEven.low (even_from-IsEven y m d x e), IsEven.high (even_from-IsEven y m d x e));
  from_day = λ y m d x e. IsEven.from (even_from-IsEven y m d x e);
  first = λ y m h k l n. (even_day y m 1, even_from_lem y m 1 h k l n (omega arith) (omega arith));
  month_days = even-MonthDays;
  later = even-later;
  in_order = even-in_order;
}
