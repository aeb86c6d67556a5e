-- ===== src/Temporal/IsoText.antt =====
-- temporal.rs: a time and a date-time with an offset that were written are read back.
use graphdblite.Base.{
  All-append, ℕ, ◌-◌, ◌<◌, ◌≤◌, true, false, ◌&&◌, ◌==◌, [], ◌∷◌, ◌++◌, some, length, List-cases,
  length-append, take-append, All, ◌≡◌, refl, subst, leb, Bytes, text, arith, Bool-cases, inl, inr,
}
use graphdblite.Base.Int.{ℤ, pos, negsuc, int_eq}
use graphdblite.Temporal.Outcome.{ok}
use graphdblite.Temporal.Chrono.{Chrono, ChronoLaws}
use graphdblite.Temporal.Text.Cuts.{Avoids, rcut-none, rcut-append, All-map}
use graphdblite.Temporal.Parse.{split_time_offset, last_is}
use graphdblite.Temporal.Format.{fmt_offset, fmt_local_time, clock, magnitude, sign_of}
use graphdblite.Temporal.OffsetText.{parse_offset-fmt_offset}
use graphdblite.Temporal.TimeText.{
  parse_time_str-fmt_local_time, IsTimeByte, fmt_local_time-IsTimeByte, fmt_local_time-nonempty,
  clock-IsTimeByte,
}
use graphdblite.Temporal.Iso.{fmt_time, time_from_iso_string, time_of_parts}

-- The last byte of a text.
last_is-append : (c : ℕ) (xs : Bytes) (d : ℕ) → last_is c (xs ++ d ∷ []) ≡ (d == c)
last_is-append c [] d = refl
last_is-append c (x ∷ []) d = refl
last_is-append c (x ∷ (y ∷ xs)) d = last_is-append c (y ∷ xs) d

pub last_is-none : (c : ℕ) (s : Bytes) → Avoids c s → last_is c s ≡ false
last_is-none c [] h = refl
last_is-none c (x ∷ []) (hx, h) = hx
last_is-none c (x ∷ (y ∷ s)) (hx, h) = last_is-none c (y ∷ s) h

-- The bytes of a time with its offset.
abbrev pub IsZoneByte : ℕ → Type 0
IsZoneByte c = (43 ≤ c) × (c ≤ 58)

pub times-Avoids :
    (c : ℕ) → leb 46 c && leb c 58 ≡ false → (s : Bytes) → All IsTimeByte s → Avoids c s
times-Avoids c other s h = All-map IsTimeByte (λ x. (x == c) ≡ false) (λ x hx. ground arith) s h

zones-Avoids : (c : ℕ) → 58 < c → (s : Bytes) → All IsZoneByte s → Avoids c s
zones-Avoids c above s h = All-map IsZoneByte (λ x. (x == c) ≡ false) (λ x hx. ground arith) s h

pub as_zones : (s : Bytes) → All IsTimeByte s → All IsZoneByte s
as_zones s h = All-map IsTimeByte IsZoneByte (λ x hx. (omega arith, omega arith)) s h

split_time_offset-utc : (xs : Bytes) → split_time_offset (xs ++ text "Z") ≡ (xs, some (text "Z"))
unfolding split_time_offset
split_time_offset-utc xs =
    let z : last_is b'Z' (xs ++ text "Z") ≡ true = last_is-append b'Z' xs b'Z' in
    let long = length-append xs (text "Z") in
    let n : length (xs ++ text "Z") - 1 ≡ length xs = omega (arith, long) in
    rw (z, n, take-append xs (text "Z")) refl

-- An offset with a sign, behind a time.
split_time_offset-signed :
    (secs : ℤ) (x : ℕ) (xs ys : Bytes)
    → All IsTimeByte (x ∷ xs)
    → All IsTimeByte ys
    → split_time_offset ((x ∷ xs) ++ sign_of secs ∷ ys) ≡ (x ∷ xs, some (sign_of secs ∷ ys))
unfolding split_time_offset
split_time_offset-signed (pos n) x xs ys h k =
    let all : All IsZoneByte ((x ∷ xs) ++ b'+' ∷ ys) =
      All-append IsZoneByte (x ∷ xs) (b'+' ∷ ys) (as_zones (x ∷ xs) h)
        ((omega arith, omega arith), as_zones ys k) in
    let s = (x ∷ xs) ++ b'+' ∷ ys in
    rw
      (
        last_is-none b'Z' s (zones-Avoids b'Z' (omega arith) s all),
        last_is-none b'z' s (zones-Avoids b'z' (omega arith) s all),
        rcut-append b'+' (x ∷ xs) ys (times-Avoids b'+' refl ys k),
      )
      refl
split_time_offset-signed (negsuc n) x xs ys h k =
    let all : All IsZoneByte ((x ∷ xs) ++ b'-' ∷ ys) =
      All-append IsZoneByte (x ∷ xs) (b'-' ∷ ys) (as_zones (x ∷ xs) h)
        ((omega arith, omega arith), as_zones ys k) in
    let s = (x ∷ xs) ++ b'-' ∷ ys in
    let no_plus : Avoids b'+' s =
      All-append (λ c. (c == b'+') ≡ false) (x ∷ xs) (b'-' ∷ ys) (times-Avoids b'+' refl (x ∷ xs) h)
        (refl, times-Avoids b'+' refl ys k) in
    rw
      (
        last_is-none b'Z' s (zones-Avoids b'Z' (omega arith) s all),
        last_is-none b'z' s (zones-Avoids b'z' (omega arith) s all),
        rcut-none b'+' s no_plus,
        rcut-append b'-' (x ∷ xs) ys (times-Avoids b'-' refl ys k),
      )
      refl

module _ (C : Chrono) (L : ChronoLaws C) where
  pub split_time_offset-fmt_offset :
      (secs : ℤ) (off : C.Offset) (t : C.Time)
      → C.east_opt secs ≡ some off
      → split_time_offset (fmt_local_time C t ++ fmt_offset C off)
        ≡ (fmt_local_time C t, some (fmt_offset C off))
  unfolding fmt_offset
  split_time_offset-fmt_offset secs off t made =
      let o = L.east secs off made in
      elim (Bool-cases (int_eq secs (pos 0))) [
        | inl e ↦ rw (o.secs_lem, e) (split_time_offset-utc (fmt_local_time C t))
        | inr e ↦ elim (List-cases (fmt_local_time C t)) [
          | inl empty ↦ absurd (fmt_local_time-nonempty C t empty)
          | inr (x, xs, shape) ↦
              let all = subst (All IsTimeByte) shape (fmt_local_time-IsTimeByte C t) in
              rw (o.secs_lem, e, shape)
                (split_time_offset-signed secs x xs (clock (magnitude secs)) all
                  (clock-IsTimeByte (magnitude secs)))
        ]
      ]

  -- A time with an offset is read back from how it is written, unless it is a leap second.
  pub time_from_iso_string-fmt_time :
      (h m s n : ℕ) (secs : ℤ) (t : C.Time) (off : C.Offset)
      → C.from_hms_nano_opt h m s n ≡ some t
      → n < 1000000000
      → C.east_opt secs ≡ some off
      → time_from_iso_string C (fmt_time C (t, off)) ≡ ok (t, off)
  unfolding fmt_time time_from_iso_string time_of_parts
  time_from_iso_string-fmt_time h m s n secs t off made small east =
      rw
        (
          split_time_offset-fmt_offset secs off t east,
          parse_time_str-fmt_local_time C L h m s n t made small,
          parse_offset-fmt_offset C L secs off east,
        )
        refl
