-- ===== src/Temporal/OffsetText.antt =====
-- temporal.rs: an offset that was written is read back.
use graphdblite.Base.{
  ℕ, suc, ◌/◌, ◌%◌, ◌<◌, Bool, true, false, [], ◌∷◌, some, ==_iff, ◌≡◌, refl, Bool-cases, inl, inr,
  ◌==◌, Bytes, subst, text, arith,
}
use graphdblite.Base.Int.{ℤ, pos, negsuc, pos_part, neg_part, int_eq, int_eq_iff, ◌+ℤ◌}
use graphdblite.Temporal.Outcome.{ok}
use graphdblite.Temporal.Chrono.{Chrono, ChronoLaws}
use graphdblite.Temporal.Text.Numbers.{two}
use graphdblite.Temporal.Text.Cuts.{IsAscii, slice_ascii, slice_rest}
use graphdblite.Temporal.Parse.{parse_offset, parse_offset_body, signed, times}
use graphdblite.Temporal.Format.{fmt_offset, magnitude, sign_of, clock}

abbrev is_west : ℤ → Bool
is_west (pos n) = false
is_west (negsuc n) = true

-- The digits, hours first, give the seconds back.
whole_minutes :
    (secs : ℤ)
    → magnitude secs < 86400
    → magnitude secs % 60 ≡ 0
    → signed
        (is_west secs)
        (times (pos (magnitude secs / 3600)) 3600 +ℤ times (pos (magnitude secs % 3600 / 60)) 60)
      ≡ secs
whole_minutes (pos n) h e = ground arith
whole_minutes (negsuc n) h e = ground arith

with_seconds :
    (secs : ℤ)
    → magnitude secs < 86400
    → signed (is_west secs) (
        times (pos (magnitude secs / 3600)) 3600
        +ℤ times (pos (magnitude secs % 3600 / 60)) 60
        +ℤ pos (magnitude secs % 60))
      ≡ secs
with_seconds (pos n) h = ground arith
with_seconds (negsuc n) h = ground arith

pub is_small : (secs : ℤ) → pos_part secs < 86400 → neg_part secs < 86400 → magnitude secs < 86400
is_small (pos n) h k = h
is_small (negsuc n) h k = k

module _ (C : Chrono) (L : ChronoLaws C) where
  body_lem :
      (s : Bytes) (secs : ℤ) (off : C.Offset)
      → C.east_opt secs ≡ some off
      → magnitude secs < 86400
      → parse_offset_body C s (is_west secs) (clock (magnitude secs)) ≡ ok off
  unfolding parse_offset_body
  body_lem s secs off made small =
      let h = two (magnitude secs / 3600) (omega arith) in
      let m = two (magnitude secs % 3600 / 60) (omega arith) in
      let x = two (magnitude secs % 60) (omega arith) in
      let hm = h.tens ∷ (h.units ∷ (b':' ∷ (m.tens ∷ (m.units ∷ [])))) in
      let hmx =
        h.tens ∷ (h.units ∷ (b':' ∷ (m.tens ∷ (m.units ∷ (b':' ∷ (x.tens ∷ (x.units ∷ []))))))) in
      let hm_ascii : IsAscii hm = omega (arith, h.is_tens, h.is_units, m.is_tens, m.is_units) in
      let hmx_ascii : IsAscii hmx =
        omega (arith, h.is_tens, h.is_units, m.is_tens, m.is_units, x.is_tens, x.is_units) in
      elim (Bool-cases (magnitude secs % 60 == 0)) [
        | inl e ↦
            rw
              (
                h.written,
                m.written,
                e,
                slice_ascii 0 2 hm hm_ascii (omega arith) (omega arith),
                slice_ascii 3 5 hm hm_ascii (omega arith) (omega arith),
                h.as_i32,
                m.as_i32,
                whole_minutes secs small ((==_iff (magnitude secs % 60) 0).0 e),
                made,
              )
              refl
        | inr e ↦
            rw
              (
                h.written,
                m.written,
                x.written,
                e,
                slice_ascii 0 2 hmx hmx_ascii (omega arith) (omega arith),
                slice_ascii 3 5 hmx hmx_ascii (omega arith) (omega arith),
                slice_ascii 6 8 hmx hmx_ascii (omega arith) (omega arith),
                h.as_i32,
                m.as_i32,
                x.as_i32,
                with_seconds secs small,
                made,
              )
              refl
      ]

  clock-IsAscii : (n : ℕ) → n < 86400 → IsAscii (clock n)
  clock-IsAscii n small =
      let h = two (n / 3600) (omega arith) in
      let m = two (n % 3600 / 60) (omega arith) in
      let x = two (n % 60) (omega arith) in
      elim (Bool-cases (n % 60 == 0)) [
        | inl e ↦
            rw (h.written, m.written, e)
              (omega (arith, h.is_tens, h.is_units, m.is_tens, m.is_units))
        | inr e ↦
            rw (h.written, m.written, x.written, e)
              (omega (arith, h.is_tens, h.is_units, m.is_tens, m.is_units, x.is_tens, x.is_units))
      ]

  signed_lem :
      (secs : ℤ) (off : C.Offset)
      → C.east_opt secs ≡ some off
      → magnitude secs < 86400
      → parse_offset C (sign_of secs ∷ clock (magnitude secs)) ≡ ok off
  unfolding parse_offset
  signed_lem (pos n) off made small =
      rw (slice_rest b'+' (clock n) (omega arith) (clock-IsAscii n small))
        (body_lem (b'+' ∷ clock n) (pos n) off made small)
  signed_lem (negsuc n) off made small =
      rw (slice_rest b'-' (clock (suc n)) (omega arith) (clock-IsAscii (suc n) small))
        (body_lem (b'-' ∷ clock (suc n)) (negsuc n) off made small)

  utc_lem : (off : C.Offset) → C.east_opt (pos 0) ≡ some off → parse_offset C (text "Z") ≡ ok off
  unfolding parse_offset
  utc_lem off made = let standard = L.east_utc in cc

  -- An offset that chrono made is read back from how it is written.
  pub parse_offset-fmt_offset :
      (secs : ℤ) (off : C.Offset)
      → C.east_opt secs ≡ some off
      → parse_offset C (fmt_offset C off) ≡ ok off
  unfolding fmt_offset
  parse_offset-fmt_offset secs off made =
      let o = L.east secs off made in
      elim (Bool-cases (int_eq secs (pos 0))) [
        | inl e ↦
            rw (o.secs_lem, e)
              (utc_lem off
                (subst (λ z. C.east_opt z ≡ some off) ((int_eq_iff secs (pos 0)).0 e) made))
        | inr e ↦ rw (o.secs_lem, e) (signed_lem secs off made (is_small secs o.east o.west))
      ]
