-- ===== src/Temporal/SettlesDate.antt =====
-- temporal.rs: the parsers of dates return a value or an error on ASCII texts, and panic on others.
use graphdblite.Base.{
  ◌≤◌, false, List, [], ◌∷◌, ◌++◌, Option, none, some, length, contains, ◌≡◌, refl, Bool-cases, inl,
  inr, leb, ◌==◌, ==_iff, Bytes, text, drop, arith,
}
use graphdblite.Temporal.Outcome.{ok, panicked, invalid, ◌>>=◌}
use graphdblite.Temporal.Chrono.{Chrono}
use graphdblite.Temporal.Text.{starts_char, slice, parse_u32, cut, split_at, without}
use graphdblite.Temporal.Text.Cuts.{IsAscii}
use graphdblite.Temporal.Settles.{
  IsSettled, IsSettled-if, is_failed, settled, parse_u32-IsSettled, parse_i32-IsSettled, part_u32,
  part_i32, BothAscii, cut-BothAscii, without-IsAscii,
}
use graphdblite.Temporal.ParseDate.{
  parse_num_i32, date_of, parse_date_str, parse_hyphens, parse_compact_date, week_and_day,
  parse_week_parts, parse_week_date,
}

module _ (C : Chrono) where
  parse_hyphens-IsSettled : (s : Bytes) (parts : List Bytes) → IsSettled (parse_hyphens C s parts)
  unfolding parse_hyphens
  parse_hyphens-IsSettled s [] = is_failed _
  parse_hyphens-IsSettled s (a ∷ []) = is_failed _
  parse_hyphens-IsSettled s (a ∷ (b ∷ [])) =
      search (settled, parse_i32-IsSettled, parse_u32-IsSettled)
  parse_hyphens-IsSettled s (a ∷ (b ∷ (c ∷ []))) =
      search (settled, parse_i32-IsSettled, parse_u32-IsSettled)
  parse_hyphens-IsSettled s (a ∷ (b ∷ (c ∷ (d ∷ rest)))) = is_failed _

  parse_compact_date-IsSettled : (s : Bytes) → IsAscii s → IsSettled (parse_compact_date C s)
  unfolding parse_compact_date
  parse_compact_date-IsSettled s h =
      let all = parse_i32-IsSettled s in
      elim (Bool-cases (length s == 8)) [
        | inl e8 ↦
            let n : length s ≡ 8 = (==_iff (length s) 8).0 e8 in
            let y = part_i32 0 4 s h (omega arith) (omega arith) in
            let m = part_u32 4 6 s h (omega arith) (omega arith) in
            let d = part_u32 6 (length s) s h (omega arith) (omega arith) in
            rw e8 (search (settled, y, m, d))
        | inr e8 ↦ rw e8 (elim (Bool-cases (length s == 7)) [
          | inl e7 ↦
              let n : length s ≡ 7 = (==_iff (length s) 7).0 e7 in
              let y = part_i32 0 4 s h (omega arith) (omega arith) in
              let d = part_u32 4 (length s) s h (omega arith) (omega arith) in
              rw e7 (search (settled, y, d))
          | inr e7 ↦ rw e7 (elim (Bool-cases (length s == 6)) [
            | inl e6 ↦
                let n : length s ≡ 6 = (==_iff (length s) 6).0 e6 in
                let y = part_i32 0 4 s h (omega arith) (omega arith) in
                let m = part_u32 4 (length s) s h (omega arith) (omega arith) in
                rw e6 (search (settled, y, m))
            | inr e6 ↦ rw e6 (
                IsSettled-if (length s == 4)
                  (parse_num_i32 s >>= λ y. date_of C s (C.from_ymd_opt y 1 1))
                  (invalid (text "invalid date: " ++ s)) (λ e. search (settled, all))
                  (λ e. is_failed _))
          ])
        ])
      ]

  week_and_day-IsSettled :
      (s after_w : Bytes) → IsAscii after_w → IsSettled (week_and_day C s after_w)
  unfolding week_and_day
  week_and_day-IsSettled s after_w h =
      let all = parse_u32-IsSettled after_w in
      elim (Bool-cases (leb 3 (length after_w))) [
        | inl e ↦
            let n : 3 ≤ length after_w = ground arith in
            let wk = part_u32 0 2 after_w h (omega arith) (omega arith) in
            let d = part_u32 2 3 after_w h (omega arith) (omega arith) in
            rw e (search (settled, wk, d))
        | inr e ↦ rw e (
            IsSettled-if (length after_w == 2) (parse_u32 after_w >>= λ wk. ok (wk, 1))
              (invalid (text "invalid week date: " ++ s)) (λ e2. search (settled, all))
              (λ e2. is_failed _))
      ]

  parse_week_parts-IsSettled :
      (s : Bytes) (o : Option (Bytes × Bytes)) → BothAscii o → IsSettled (parse_week_parts C s o)
  unfolding parse_week_parts
  parse_week_parts-IsSettled s none h = is_failed _
  parse_week_parts-IsSettled s (some (before_w, after_w)) (hb, ha) =
      let week = week_and_day-IsSettled s after_w ha in
      search (settled, parse_i32-IsSettled, week) depth 12

  -- On an ASCII text parse_date_str returns a date or an error.
  pub parse_date_str-IsSettled : (s : Bytes) → IsAscii s → IsSettled (parse_date_str C s)
  unfolding parse_date_str parse_week_date
  parse_date_str-IsSettled s h =
      let week =
        parse_week_parts-IsSettled s (cut b'W' (without b'-' s))
          (cut-BothAscii b'W' (without b'-' s) (without-IsAscii b'-' s h)) in
      let hyphens = parse_hyphens-IsSettled s (split_at b'-' s) in
      let compact = parse_compact_date-IsSettled s h in search (settled, week, hyphens, compact)

  -- A text of eight bytes with neither a W nor a hyphen makes parse_date_str panic when its fourth and
  -- fifth bytes belong to one character.
  pub parse_date_str-panicked :
      (s : Bytes)
      → length s ≡ 8
      → contains s b'W' ≡ false
      → contains s b'-' ≡ false
      → starts_char (drop 4 s) ≡ false
      → parse_date_str C s ≡ panicked
  unfolding parse_date_str parse_compact_date slice
  parse_date_str-panicked s n no_week no_hyphen inside = rw (no_week, no_hyphen, n, inside) refl
