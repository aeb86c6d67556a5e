-- ===== src/Temporal/TimeText.antt =====
-- temporal.rs: a time that was written is read back.
use graphdblite.Base.{
  All-append, ℕ, ◌-◌, ◌/◌, ◌%◌, ◌<◌, ◌≤◌, true, false, not, ◌&&◌, [], ◌∷◌, ◌++◌, some, length, take,
  contains, All, ◌≡◌, ◌≢◌, refl, ap, subst, append-nil, ◌∙◌, Bool-cases, inl, inr, leb, ◌==◌,
  ==_iff, if◌then◌else◌, Bytes, arith,
}
use graphdblite.Temporal.Outcome.{ok}
use graphdblite.Temporal.Chrono.{Chrono, ChronoLaws, IsTime}
use graphdblite.Temporal.Text.{slice, parse_u32, padded, trim_end_matches, replicate, cut, splitn}
use graphdblite.Temporal.Text.Numbers.{IsDigit, padded-IsDigit, length-padded, parse_u32-padded}
use graphdblite.Temporal.Text.Cuts.{
  Avoids, digits-Avoids, digits-IsAscii, slice_ascii, cut-none, cut-append, contains-middle,
  splitn-append, splitn-none, trim_end_matches-replicate, trim_end_matches-All, All-map,
  take-length,
}
use graphdblite.Temporal.Parse.{parse_time_str, parse_parts, parse_seconds, parse_frac_nanos}
use graphdblite.Temporal.Format.{fmt_local_time, fmt_seconds, clock}

padded-Avoids : (c w n : ℕ) → (leb b'0' c && leb c b'9') ≡ false → Avoids c (padded w n)
padded-Avoids c w n h = digits-Avoids c h (padded w n) (padded-IsDigit w n)

-- A fraction that was trimmed of zeros is read back.
parse_frac_nanos-trim :
    (n : ℕ) → n < 1000000000 → parse_frac_nanos (trim_end_matches b'0' (padded 9 n)) ≡ ok n
unfolding parse_frac_nanos
parse_frac_nanos-trim n h =
    let p = padded 9 n in
    let long : length p ≡ 9 = length-padded 8 n h in
    let whole : trim_end_matches b'0' p ++ replicate (9 - length (trim_end_matches b'0' p)) b'0'
        ≡ p =
      subst
        (λ k. trim_end_matches b'0' p ++ replicate (k - length (trim_end_matches b'0' p)) b'0' ≡ p)
        long (trim_end_matches-replicate b'0' p) in
    let all : slice 0 9 p ≡ ok p =
      slice_ascii 0 9 p (digits-IsAscii p (padded-IsDigit 9 n)) (omega arith) (omega (arith, long))
      ∙ subst (λ k. ok (take k p) ≡ ok p) long (ap (λ (l : Bytes). ok l) (take-length p)) in
    rw (whole, all) (parse_u32-padded 9 n (omega arith))

-- The bytes of a time: digits, colons and the point.
abbrev pub IsTimeByte : ℕ → Type 0
IsTimeByte c = (46 ≤ c) × (c ≤ 58)

padded-IsTimeByte : (w n : ℕ) → All IsTimeByte (padded w n)
padded-IsTimeByte w n =
    All-map IsDigit IsTimeByte (λ x hx. (omega arith, omega arith)) (padded w n)
      (padded-IsDigit w n)

-- The hours, minutes and seconds of an offset.
pub clock-IsTimeByte : (n : ℕ) → All IsTimeByte (clock n)
clock-IsTimeByte n =
    let colon : IsTimeByte b':' = (omega arith, omega arith) in
    let minutes = padded-IsTimeByte 2 (n % 3600 / 60) in
    let hours =
      All-append IsTimeByte (padded 2 (n / 3600)) (b':' ∷ padded 2 (n % 3600 / 60))
        (padded-IsTimeByte 2 (n / 3600)) (colon, minutes) in
    elim (Bool-cases (n % 60 == 0)) [
      | inl e ↦ rw e hours
      | inr e ↦ rw e (
          All-append IsTimeByte (padded 2 (n / 3600) ++ b':' ∷ padded 2 (n % 3600 / 60))
            (b':' ∷ padded 2 (n % 60)) hours (colon, padded-IsTimeByte 2 (n % 60)))
    ]

fmt_seconds-IsTimeByte : (sec nano : ℕ) → All IsTimeByte (fmt_seconds sec nano)
fmt_seconds-IsTimeByte sec nano =
    let colon : IsTimeByte b':' = (omega arith, omega arith) in
    let point : IsTimeByte b'.' = (omega arith, omega arith) in
    let frac = trim_end_matches-All IsTimeByte b'0' (padded 9 nano) (padded-IsTimeByte 9 nano) in
    let two = padded-IsTimeByte 2 sec in
    elim (Bool-cases (sec == 0 && nano == 0)) [
      | inl e ↦ rw e tt
      | inr e ↦ rw e (elim (Bool-cases (nano == 0)) [
        | inl z ↦ rw z (colon, All-append IsTimeByte (padded 2 sec) [] two tt)
        | inr z ↦ rw z (
          colon,
          All-append IsTimeByte (padded 2 sec) (b'.' ∷ trim_end_matches b'0' (padded 9 nano)) two
              (point, frac),
        )
      ])
    ]

module _ (C : Chrono) where
  pub fmt_local_time-nonempty : (t : C.Time) → fmt_local_time C t ≢ []
  unfolding fmt_local_time
  fmt_local_time-nonempty t e =
      let rest = padded 2 (C.minute t) ++ fmt_seconds (C.second t) (C.nanosecond t) in
      let has : contains (fmt_local_time C t) b':' ≡ true =
        contains-middle b':' (padded 2 (C.hour t)) rest in
      let hasnot : contains (fmt_local_time C t) b':' ≡ false = rw e refl in cc

  pub fmt_local_time-IsTimeByte : (t : C.Time) → All IsTimeByte (fmt_local_time C t)
  unfolding fmt_local_time
  fmt_local_time-IsTimeByte t =
      let rest = fmt_seconds (C.second t) (C.nanosecond t) in
      let colon : IsTimeByte b':' = (omega arith, omega arith) in
      All-append IsTimeByte (padded 2 (C.hour t)) (b':' ∷ (padded 2 (C.minute t) ++ rest))
        (padded-IsTimeByte 2 (C.hour t))
        (
          colon,
          All-append IsTimeByte (padded 2 (C.minute t)) rest (padded-IsTimeByte 2 (C.minute t))
              (fmt_seconds-IsTimeByte (C.second t) (C.nanosecond t)),
        )

module _ (C : Chrono) (L : ChronoLaws C) where
  -- The seconds behind the second colon.
  parse_seconds_lem :
      (s : Bytes) (h m sec nano : ℕ) (t : C.Time)
      → C.from_hms_nano_opt h m sec nano ≡ some t
      → sec < 60
      → nano < 1000000000
      → (tail : Bytes)
      → tail ≡ (if not (nano == 0) then b'.' ∷ trim_end_matches b'0' (padded 9 nano) else [])
      → parse_seconds C s h m (padded 2 sec ++ tail) (cut b'.' (padded 2 sec ++ tail)) ≡ ok t
  unfolding parse_seconds
  parse_seconds_lem s h m sec nano t made small smaller tail e =
      let frac = trim_end_matches b'0' (padded 9 nano) in
      let no_point = padded-Avoids b'.' 2 sec refl in
      elim (Bool-cases (nano == 0)) [
        | inl z ↦
            let none_left = (==_iff nano 0).0 z in
            let made' : C.from_hms_nano_opt h m sec 0 ≡ some t =
              subst (λ n. C.from_hms_nano_opt h m sec n ≡ some t) none_left made in
            rw
              (
                e,
                z,
                append-nil (padded 2 sec),
                cut-none b'.' (padded 2 sec) no_point,
                parse_u32-padded 2 sec (omega arith),
                L.from_hms h m sec,
                made',
              )
              refl
        | inr z ↦
            rw
              (
                e,
                z,
                cut-append b'.' (padded 2 sec) frac no_point,
                parse_u32-padded 2 sec (omega arith),
                parse_frac_nanos-trim nano smaller,
                made,
              )
              refl
      ]

  -- The parts between the colons.
  parse_tail_lem :
      (s : Bytes) (h m sec nano : ℕ) (t : C.Time)
      → C.from_hms_nano_opt h m sec nano ≡ some t
      → IsTime C h m sec nano t
      → nano < 1000000000
      → parse_parts C s (padded 2 h ∷ splitn 2 b':' (padded 2 m ++ fmt_seconds sec nano)) ≡ ok t
  unfolding parse_parts
  parse_tail_lem s h m sec nano t made l smaller =
      let no_colon = padded-Avoids b':' 2 m refl in
      let hour : parse_u32 (padded 2 h) ≡ ok h = parse_u32-padded 2 h (omega (arith, l.is_hour)) in
      let minute : parse_u32 (padded 2 m) ≡ ok m =
        parse_u32-padded 2 m (omega (arith, l.is_minute)) in
      let frac = if not (nano == 0) then b'.' ∷ trim_end_matches b'0' (padded 9 nano) else [] in
      elim (Bool-cases (sec == 0 && nano == 0)) [
        | inl e ↦
            let no_seconds : sec ≡ 0 = ground arith in
            let none_left : nano ≡ 0 = ground arith in
            let made' : C.from_hms_nano_opt h m 0 0 ≡ some t =
              subst (λ n. C.from_hms_nano_opt h m 0 n ≡ some t) none_left
                (subst (λ n. C.from_hms_nano_opt h m n nano ≡ some t) no_seconds made) in
            rw
              (
                e,
                append-nil (padded 2 m),
                splitn-none 0 b':' (padded 2 m) no_colon,
                hour,
                minute,
                L.from_hms h m 0,
                made',
              )
              refl
        | inr e ↦
            rw (e, splitn-append 0 b':' (padded 2 m) (padded 2 sec ++ frac) no_colon, hour, minute)
              (parse_seconds_lem s h m sec nano t made l.is_second smaller frac refl)
      ]

  -- A time whose fraction is below a second, so no leap second, is read back from how it is written.
  pub parse_time_str-fmt_local_time :
      (h m sec nano : ℕ) (t : C.Time)
      → C.from_hms_nano_opt h m sec nano ≡ some t
      → nano < 1000000000
      → parse_time_str C (fmt_local_time C t) ≡ ok t
  unfolding fmt_local_time parse_time_str
  parse_time_str-fmt_local_time h m sec nano t made smaller =
      let l = L.from_hms_nano h m sec nano t made in
      let rest = padded 2 m ++ fmt_seconds sec nano in
      rw
        (
          l.hour_lem,
          l.minute_lem,
          l.second_lem,
          l.nanosecond_lem,
          contains-middle b':' (padded 2 h) rest,
          splitn-append 1 b':' (padded 2 h) rest (padded-Avoids b':' 2 h refl),
        )
        (parse_tail_lem (padded 2 h ++ b':' ∷ rest) h m sec nano t made l smaller)
