-- ===== src/Temporal/DateText.antt =====
-- temporal.rs: a date that was written is read back, for the years from 0 on.
use graphdblite.Base.{
  All-append, ℕ, suc, ◌<◌, ◌≤◌, true, false, ◌==◌, [], ◌∷◌, ◌++◌, some, contains, All, ◌≡◌, refl,
  ◌∙◌, Bytes, text, arith,
}
use graphdblite.Base.Int.{ℤ, pos, negsuc}
use graphdblite.Temporal.Outcome.{ok, invalid}
use graphdblite.Temporal.Chrono.{Chrono, ChronoLaws}
use graphdblite.Temporal.Text.{padded, padded_int, split_at}
use graphdblite.Temporal.Text.Numbers.{IsDigit, padded-IsDigit, parse_u32-padded, parse_i32-padded}
use graphdblite.Temporal.Text.Cuts.{
  Avoids, digits-Avoids, contains-middle, contains-none, split_at-one, split_at-append, All-map,
}
use graphdblite.Temporal.ParseDate.{parse_date_str, parse_hyphens}
use graphdblite.Temporal.Format.{fmt_date}

-- The bytes of a date: digits and hyphens.
abbrev pub IsDateByte : ℕ → Type 0
IsDateByte c = (45 ≤ c) × (c ≤ 57)

padded-IsDateByte : (w n : ℕ) → All IsDateByte (padded w n)
padded-IsDateByte w n =
    All-map IsDigit IsDateByte (λ x hx. (omega arith, omega arith)) (padded w n)
      (padded-IsDigit w n)

month_day-IsDateByte : (m d : ℕ) → All IsDateByte (b'-' ∷ (padded 2 m ++ b'-' ∷ padded 2 d))
month_day-IsDateByte m d = (
  (omega arith, omega arith),
  All-append IsDateByte (padded 2 m) (b'-' ∷ padded 2 d) (padded-IsDateByte 2 m)
      ((omega arith, omega arith), padded-IsDateByte 2 d),
)

no_hyphen : (w n : ℕ) → Avoids b'-' (padded w n)
no_hyphen w n = digits-Avoids b'-' refl (padded w n) (padded-IsDigit w n)

split_at-month_day :
    (m d : ℕ) → split_at b'-' (padded 2 m ++ b'-' ∷ padded 2 d) ≡ padded 2 m ∷ (padded 2 d ∷ [])
split_at-month_day m d =
    rw
      (
        split_at-append b'-' (padded 2 m) (padded 2 d) (no_hyphen 2 m),
        split_at-one b'-' (padded 2 d) (no_hyphen 2 d),
      )
      refl

pub above_dates : (c : ℕ) → 57 < c → (s : Bytes) → All IsDateByte s → Avoids c s
above_dates c h s hs = All-map IsDateByte (λ x. (x == c) ≡ false) (λ x hx. ground arith) s hs

module _ (C : Chrono) (L : ChronoLaws C) where
  year-IsDateByte : (y : ℤ) → All IsDateByte (padded_int 4 y)
  year-IsDateByte (pos n) = padded-IsDateByte 4 n
  year-IsDateByte (negsuc n) = ((omega arith, omega arith), padded-IsDateByte 3 (suc n))

  pub fmt_date-IsDateByte : (d : C.Date) → All IsDateByte (fmt_date C d)
  unfolding fmt_date
  fmt_date-IsDateByte d =
      All-append IsDateByte (padded_int 4 (C.year d))
        (b'-' ∷ (padded 2 (C.month d) ++ b'-' ∷ padded 2 (C.day d))) (year-IsDateByte (C.year d))
        (month_day-IsDateByte (C.month d) (C.day d))

  -- What the parser is given to, by the parts between the hyphens.
  parse_date_lem :
      (made : C.Date)
      → parse_date_str C (fmt_date C made)
        ≡ parse_hyphens C (fmt_date C made) (split_at b'-' (fmt_date C made))
  unfolding parse_date_str
  parse_date_lem made =
      let no_week =
        contains-none b'W' (fmt_date C made)
          (above_dates b'W' (omega arith) (fmt_date C made) (fmt_date-IsDateByte made)) in
      let hyphen : contains (fmt_date C made) b'-' ≡ true =
        unfold fmt_date in
        contains-middle b'-' (padded_int 4 (C.year made))
          (padded 2 (C.month made) ++ b'-' ∷ padded 2 (C.day made)) in
      rw (no_week, hyphen) refl

  -- A date of a year from 0 on is read back from how it is written.
  pub parse_date_str-fmt_date :
      (n m d : ℕ) (made : C.Date)
      → C.from_ymd_opt (pos n) m d ≡ some made
      → parse_date_str C (fmt_date C made) ≡ ok made
  unfolding fmt_date parse_hyphens
  parse_date_str-fmt_date n m d made e =
      let l = L.from_ymd (pos n) m d made e in
      parse_date_lem made
      ∙ rw
          (
            l.year_lem,
            l.month_lem,
            l.day_lem,
            split_at-append b'-' (padded 4 n) (padded 2 m ++ b'-' ∷ padded 2 d) (no_hyphen 4 n),
            split_at-month_day m d,
            parse_i32-padded 4 n l.below,
            parse_u32-padded 2 m (omega (arith, l.is_month)),
            parse_u32-padded 2 d (omega (arith, l.is_day)),
            e,
          )
          refl

  -- A date of a year before 0 is written with a sign, and the parser refuses what was written.
  pub parse_date_str-fmt_date_negative :
      (n m d : ℕ) (made : C.Date)
      → C.from_ymd_opt (negsuc n) m d ≡ some made
      → parse_date_str C (fmt_date C made) ≡ invalid (text "invalid date: " ++ fmt_date C made)
  unfolding fmt_date parse_hyphens
  parse_date_str-fmt_date_negative n m d made e =
      let l = L.from_ymd (negsuc n) m d made e in
      let parts : split_at b'-'
            (b'-' ∷ (padded 3 (suc n) ++ b'-' ∷ (padded 2 m ++ b'-' ∷ padded 2 d)))
          ≡ [] ∷ (padded 3 (suc n) ∷ (padded 2 m ∷ (padded 2 d ∷ []))) =
        rw
          (
            split_at-append b'-' (padded 3 (suc n)) (padded 2 m ++ b'-' ∷ padded 2 d)
                (no_hyphen 3 (suc n)),
            split_at-month_day m d,
          )
          refl in
      parse_date_lem made ∙ rw (l.year_lem, l.month_lem, l.day_lem, parts) refl
