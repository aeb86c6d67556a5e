-- ===== src/Temporal/SettlesDateTime.antt =====
-- temporal.rs: `CypherDateTime::from_iso_string` on ASCII texts.
use graphdblite.Base.{
  ℕ, zero, suc, ◌-◌, ◌<◌, Bool, true, false, [], ◌∷◌, Option, none, some, length, take, Bool-cases,
  inl, inr, Option-cases, subst, ◌==◌, Bytes, arith,
}
use graphdblite.Temporal.Chrono.{Chrono}
use graphdblite.Temporal.Text.{cut, rcut, push, first_if, or_else}
use graphdblite.Temporal.Text.Cuts.{IsAscii}
use graphdblite.Temporal.Parse.{split_time_offset, signed_tail, with_offset, last_is}
use graphdblite.Temporal.ParseDate.{parse_date_str}
use graphdblite.Temporal.Iso.{
  cut_date, tz_suffix, offset_at, date_time_of_parts, resolve_tz_name_at, date_time_from_iso_string,
}
use graphdblite.Temporal.Settles.{
  IsSettled, is_failed, settled, IsSettled-bind, BothAscii, AsciiOr, cut-BothAscii, push-BothAscii,
  parse_offset-IsSettled, parse_time_str-IsSettled,
}
use graphdblite.Temporal.SettlesDate.{parse_date_str-IsSettled}

-- The time and, where there is one, the offset.
abbrev PartsAscii : Bytes × Option Bytes → Type 0
PartsAscii (time_part, none) = IsAscii time_part
PartsAscii (time_part, some off) = IsAscii time_part × IsAscii off

or_else-BothAscii :
    (o other : Option (Bytes × Bytes)) → BothAscii o → BothAscii other → BothAscii (or_else o other)
or_else-BothAscii none other h k = k
or_else-BothAscii (some (before, after)) other h k = h

first_if-BothAscii : (b : Bool) (xs : Bytes) → IsAscii xs → BothAscii (first_if b xs)
first_if-BothAscii true xs h = (tt, h)
first_if-BothAscii false xs h = tt

rcut-BothAscii : (c : ℕ) (s : Bytes) → IsAscii s → BothAscii (rcut c s)
rcut-BothAscii c [] h = tt
rcut-BothAscii c (x ∷ xs) (hx, h) =
    or_else-BothAscii (push x (rcut c xs)) (first_if (x == c) xs)
      (push-BothAscii x (rcut c xs) hx (rcut-BothAscii c xs h)) (first_if-BothAscii (x == c) xs h)

signed_tail-BothAscii :
    (sign : ℕ) (o : Option (Bytes × Bytes))
    → sign < 128
    → BothAscii o
    → BothAscii (signed_tail sign o)
signed_tail-BothAscii sign none hs h = tt
signed_tail-BothAscii sign (some ([], after)) hs h = tt
signed_tail-BothAscii sign (some (c ∷ before, after)) hs (h, k) = (h, (hs, k))

with_offset-PartsAscii :
    (s : Bytes) (o : Option (Bytes × Bytes))
    → IsAscii s
    → BothAscii o
    → PartsAscii (with_offset s o)
with_offset-PartsAscii s none h k = h
with_offset-PartsAscii s (some (time_part, off)) h k = k

take-IsAscii : (n : ℕ) (s : Bytes) → IsAscii s → IsAscii (take n s)
take-IsAscii zero s h = tt
take-IsAscii (suc n) [] h = tt
take-IsAscii (suc n) (x ∷ xs) (hx, h) = (hx, take-IsAscii n xs h)

split_time_offset-PartsAscii : (s : Bytes) → IsAscii s → PartsAscii (split_time_offset s)
unfolding split_time_offset
split_time_offset-PartsAscii s h =
    let short = take-IsAscii (length s - 1) s h in
    let plus = signed_tail-BothAscii b'+' (rcut b'+' s) (omega arith) (rcut-BothAscii b'+' s h) in
    let minus = signed_tail-BothAscii b'-' (rcut b'-' s) (omega arith) (rcut-BothAscii b'-' s h) in
    elim (Bool-cases (last_is b'Z' s)) [
      | inl e ↦ rw e (short, (omega arith, tt))
      | inr e ↦ rw e (elim (Bool-cases (last_is b'z' s)) [
        | inl f ↦ rw f (short, (omega arith, tt))
        | inr f ↦ rw f (
            with_offset-PartsAscii s
              (or_else (signed_tail b'+' (rcut b'+' s)) (signed_tail b'-' (rcut b'-' s))) h
              (or_else-BothAscii (signed_tail b'+' (rcut b'+' s)) (signed_tail b'-' (rcut b'-' s))
                plus minus))
      ])
    ]

module _ (C : Chrono) where
  offset_at-IsSettled :
      (s : Bytes) (off tz : Option Bytes) (dt : C.DateTime)
      → AsciiOr off
      → IsSettled (offset_at C s off tz dt)
  unfolding offset_at resolve_tz_name_at
  offset_at-IsSettled s (some off) tz dt h = parse_offset-IsSettled C off h
  offset_at-IsSettled s none (some tz) dt h = search settled depth 12
  offset_at-IsSettled s none none dt h = is_failed _

  parts-IsSettled :
      (s : Bytes) (date : C.Date) (tz : Option Bytes) (parts : Bytes × Option Bytes)
      → PartsAscii parts
      → IsSettled (date_time_of_parts C s date tz parts)
  unfolding date_time_of_parts
  parts-IsSettled s date tz (time_part, none) h =
      let time = parse_time_str-IsSettled C time_part h in
      search (settled, time, λ (dt : C.DateTime). offset_at-IsSettled s none tz dt tt) depth 12
  parts-IsSettled s date tz (time_part, some off) (h, k) =
      let time = parse_time_str-IsSettled C time_part h in
      search (settled, time, λ (dt : C.DateTime). offset_at-IsSettled s (some off) tz dt k) depth 12

  zone-IsSettled :
      (s : Bytes) (date : C.Date) (rest : Bytes) (o : Option (Bytes × Bytes))
      → IsAscii rest
      → BothAscii o
      → IsSettled (
          date_time_of_parts C s date (tz_suffix rest o).1 (split_time_offset (tz_suffix rest o).0))
  zone-IsSettled s date rest none h k =
      parts-IsSettled s date none (split_time_offset rest) (split_time_offset-PartsAscii rest h)
  zone-IsSettled s date rest (some (before, after)) h k =
      parts-IsSettled s date (tz_suffix rest (some (before, after))).1 (split_time_offset before)
        (split_time_offset-PartsAscii before k.0)

  -- On an ASCII text CypherDateTime::from_iso_string returns a date-time or an error: it never slices
  -- inside a character.
  pub date_time_from_iso_string-IsSettled :
      (s : Bytes) → IsAscii s → IsSettled (date_time_from_iso_string C s)
  unfolding date_time_from_iso_string
  date_time_from_iso_string-IsSettled s h =
      let both =
        or_else-BothAscii (cut b'T' s) (cut b't' s) (cut-BothAscii b'T' s h)
          (cut-BothAscii b't' s h) in
      elim (Option-cases (cut_date s)) [
        | inl e ↦ rw e (is_failed _)
        | inr ((before, rest), e) ↦
            let (hb, hr) : IsAscii before × IsAscii rest = subst BothAscii e both in
            rw e (
              IsSettled-bind (parse_date_str C before) _ (parse_date_str-IsSettled C before hb)
                (λ date.
                  zone-IsSettled s date rest (cut b'[' rest) hr (cut-BothAscii b'[' rest hr)))
      ]
