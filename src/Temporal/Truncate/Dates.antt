-- ===== src/Temporal/Truncate/Dates.antt =====
-- temporal.rs: a truncated date is the first day of its period, but for years before 0.
use graphdblite.Base.{
  ℕ, zero, suc, ◌+◌, ◌-◌, ◌*◌, ◌/◌, ◌%◌, ◌<◌, ◌≤◌, some, ◌≡◌, ◌≢◌, refl, sym, ap, subst, Bool-cases,
  inl, inr, ltb, Bytes, text, arith,
}
use graphdblite.Base.Int.{ℤ, pos, negsuc, pos_part, neg_part, ◌<ℤ◌, ◌≤ℤ◌}
use graphdblite.Temporal.Outcome.{ok}
use graphdblite.Temporal.Text.{negated}
use graphdblite.Temporal.Parse.{times}
use graphdblite.Temporal.Between.Months.{CalendarLaws, IsDay}
use graphdblite.Temporal.Between.Numbers.{month_number}
use graphdblite.Temporal.Truncate.{Chronology, years, truncate_date_core}

-- A period of months or years.
pub data Period : Type 0 where
  millennium century decade year quarter month : Period

abbrev pub name : Period → Bytes
name millennium = text "millennium"
name century = text "century"
name decade = text "decade"
name year = text "year"
name quarter = text "quarter"
name month = text "month"

-- The first year of the period of a year, and its first month.
abbrev pub start_year : Period → ℕ → ℕ
start_year millennium y = y / 1000 * 1000
start_year century y = y / 100 * 100
start_year decade y = y / 10 * 10
start_year other y = y

abbrev pub start_month : Period → ℕ → ℕ
start_month quarter m = (m - 1) / 3 * 3 + 1
start_month month m = m
start_month other m = 1

-- A number of years of which a truncation is named.
pub data IsYears : Bytes → ℕ → Type 0 where
  thousand : IsYears (text "millennium") 1000
  hundred : IsYears (text "century") 100
  ten : IsYears (text "decade") 10

start_le : (p : Period) (y m : ℕ) → 1 ≤ m → start_year p y * 12 + start_month p m ≤ y * 12 + m
start_le millennium y m h = omega arith
start_le century y m h = omega arith
start_le decade y m h = omega arith
start_le year y m h = omega arith
start_le quarter y m h = omega arith
start_le month y m h = omega arith

start_month-bounds :
    (p : Period) (m : ℕ) → 1 ≤ m → m ≤ 12 → (1 ≤ start_month p m) × (start_month p m ≤ 12)
start_month-bounds quarter m h k = (omega arith, omega arith)
start_month-bounds month m h k = (h, k)
start_month-bounds other m h k = (omega arith, omega arith)

start_year-le : (p : Period) (y : ℕ) → start_year p y ≤ y
start_year-le millennium y = omega arith
start_year-le century y = omega arith
start_year-le decade y = omega arith
start_year-le other y = omega arith

number_lt :
    (y n m m' : ℕ)
    → 1 ≤ m
    → y * 12 + m < n * 12 + m'
    → month_number (pos y) m <ℤ month_number (pos n) m'
number_lt y n m m' h k = ground arith

none_times : (k : ℕ) → 0 * k ≡ 0
none_times k = grind arith

times-negated : (q k : ℕ) → times (negated q) k ≡ negated (q * k)
times-negated zero k = rw (none_times k) refl
times-negated (suc q) k = refl

negated-parts : (v : ℕ) → (pos_part (negated v) ≡ 0) × (neg_part (negated v) ≡ v)
negated-parts zero = (refl, refl)
negated-parts (suc v) = (refl, refl)

number_later :
    (n v m : ℕ) → v ≤ n → m ≤ 12 → month_number (negsuc n) m <ℤ month_number (negated v) 1
number_later n zero m h k = ground arith
number_later n (suc v) m h k = ground arith

module _ (C : Chronology) (L : CalendarLaws C.calendar) where
  -- The first day of a month that is not after a date's is not after the date.
  not_after :
      (y m n : ℕ) (d x : ℤ)
      → IsDay C.calendar d
      → C.calendar.year d ≡ pos n
      → C.calendar.from_ymd_opt (pos y) m 1 ≡ some x
      → y * 12 + m ≤ n * 12 + C.calendar.month d
      → x ≤ℤ d
  not_after y m n d x h e made before =
      let K = C.calendar in
      let (low, high) = L.from_month (K.year d) (K.month d) (K.day d) d h.made in
      let (low', high') = L.from_month (pos y) m 1 x made in
      let is_date : K.from_ymd_opt (pos n) (K.month d) (K.day d) ≡ some d = rw (sym e) h.made in
      let from = L.from_day (K.year d) (K.month d) (K.day d) d h.made in
      elim (Bool-cases (ltb (y * 12 + m) (n * 12 + K.month d))) [
        | inl less ↦
            let before_month : y * 12 + m < n * 12 + K.month d = ground arith in
            let earlier =
              L.later (pos y) (pos n) m (K.month d) 1 (K.day d) x d made is_date
                (number_lt y n m (K.month d) low' before_month) in
            omega (arith, earlier)
        | inr equal ↦
            let same : y * 12 + m ≡ n * 12 + K.month d = ground arith in
            let same_year : y ≡ n = omega arith in
            let same_month : m ≡ K.month d = omega arith in
            let first : K.from_ymd_opt (pos n) (K.month d) 1 ≡ some x =
              subst (λ v. K.from_ymd_opt (pos n) v 1 ≡ some x) same_month
                (subst (λ v. K.from_ymd_opt (pos v) m 1 ≡ some x) same_year made) in
            L.in_order (pos n) (K.month d) 1 (K.day d) x d first is_date from
      ]

  computed :
      (p : Period) (n : ℕ) (d x : ℤ)
      → C.calendar.year d ≡ pos n
      → C.calendar.from_ymd_opt (pos (start_year p n)) (start_month p (C.calendar.month d)) 1
        ≡ some x
      → truncate_date_core C (name p) d ≡ ok x
  unfolding truncate_date_core
  computed millennium n d x e made = rw (e, made) refl
  computed century n d x e made = rw (e, made) refl
  computed decade n d x e made = rw (e, made) refl
  computed year n d x e made = rw (e, made) refl
  computed quarter n d x e made = rw (e, made) refl
  computed month n d x e made = rw (e, made) refl

  -- A date of a year from 0 on, truncated to a period, is the first day of that period, and not after
  -- the date.
  pub truncate_date_core-IsStart :
      (p : Period) (n : ℕ) (d : ℤ)
      → IsDay C.calendar d
      → C.calendar.year d ≡ pos n
      → (x : ℤ) × (truncate_date_core C (name p) d ≡ ok x)
        × (C.calendar.from_ymd_opt (pos (start_year p n)) (start_month p (C.calendar.month d)) 1
            ≡ some x)
        × (x ≤ℤ d)
  truncate_date_core-IsStart p n d h e =
      let K = C.calendar in
      let (low, high) = L.from_month (K.year d) (K.month d) (K.day d) d h.made in
      let (low', high') = start_month-bounds p (K.month d) low high in
      let last : n ≤ 262141 = omega (arith, h.before_last, ap pos_part e) in
      let (x, made) =
        L.first (pos (start_year p n)) (start_month p (K.month d))
          (omega (arith, start_year-le p n)) (omega arith) low' high' in
      (
        x,
        computed p n d x e made,
        made,
        not_after (start_year p n) (start_month p (K.month d)) n d x h e made
            (start_le p n (K.month d) low),
      )

  years-negated :
      (k n : ℕ) (d x : ℤ)
      → C.calendar.year d ≡ negsuc n
      → C.calendar.from_ymd_opt (negated (suc n / k * k)) 1 1 ≡ some x
      → years C k d ≡ ok x
  years-negated k n d x e made = rw (e, times-negated (suc n / k) k, made) refl

  years_later :
      (k n : ℕ) (d : ℤ)
      → IsDay C.calendar d
      → C.calendar.year d ≡ negsuc n
      → suc n / k * k ≤ n
      → (x : ℤ) × (years C k d ≡ ok x) × (d <ℤ x)
  years_later k n d h e less =
      let K = C.calendar in
      let v = suc n / k * k in
      let (above, below) = negated-parts v in
      let is_date : K.from_ymd_opt (negsuc n) (K.month d) (K.day d) ≡ some d = rw (sym e) h.made in
      let (low, high) = L.from_month (K.year d) (K.month d) (K.day d) d h.made in
      let (no_more, no_less) = L.from_year (K.year d) (K.month d) (K.day d) d h.made in
      let (x, made) =
        L.first (negated v) 1 (omega arith) (omega (arith, no_less, ap neg_part e)) (omega arith)
          (omega arith) in
      (
        x,
        years-negated k n d x e made,
        L.later (negsuc n) (negated v) (K.month d) 1 (K.day d) 1 d x is_date made
            (number_later n v (K.month d) less high),
      )

  -- A date of a year before 0 that is no multiple of the unit is truncated to a later date.
  pub truncate_date_core-IsLater :
      {unit : Bytes} {k : ℕ}
      → IsYears unit k
      → (n : ℕ) (d : ℤ) → IsDay C.calendar d
      → C.calendar.year d ≡ negsuc n
      → suc n % k ≢ 0
      → (x : ℤ) × (truncate_date_core C unit d ≡ ok x) × (d <ℤ x)
  unfolding truncate_date_core
  truncate_date_core-IsLater thousand n d h e uneven = years_later 1000 n d h e (omega arith)
  truncate_date_core-IsLater hundred n d h e uneven = years_later 100 n d h e (omega arith)
  truncate_date_core-IsLater ten n d h e uneven = years_later 10 n d h e (omega arith)
