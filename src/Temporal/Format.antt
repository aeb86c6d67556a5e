-- ===== src/Temporal/Format.antt =====
-- temporal.rs: how offsets, times and dates are written.
use graphdblite.Base.{ℕ, suc, ◌/◌, ◌%◌, not, ◌&&◌, [], ◌∷◌, ◌++◌, ◌==◌, if◌then◌else◌, Bytes, text}
use graphdblite.Base.Int.{ℤ, pos, negsuc, int_eq}
use graphdblite.Temporal.Chrono.{Chrono}
use graphdblite.Temporal.Text.{padded, padded_int, trim_end_matches}

-- `unsigned_abs`.
abbrev pub magnitude : ℤ → ℕ
magnitude (pos n) = n
magnitude (negsuc n) = suc n

abbrev pub sign_of : ℤ → ℕ
sign_of (pos n) = b'+'
sign_of (negsuc n) = b'-'

-- The hours, the minutes and, where they are not 0, the seconds of a number of seconds.
abbrev pub clock : ℕ → Bytes
clock abs =
    let hours = padded 2 (abs / 3600) ++ b':' ∷ padded 2 ((abs % 3600) / 60) in
    if not (abs % 60 == 0) then hours ++ b':' ∷ padded 2 (abs % 60) else hours

-- The seconds and their fraction, where they are not both 0.
abbrev pub fmt_seconds : ℕ → ℕ → Bytes
fmt_seconds sec nano =
    if not (sec == 0 && nano == 0)
    then b':'
      ∷ (padded 2 sec
          ++ (if not (nano == 0) then b'.' ∷ trim_end_matches b'0' (padded 9 nano) else []))
    else []

module _ (C : Chrono) where
  unfoldable pub fmt_offset : C.Offset → Bytes
  fmt_offset off =
      let secs = C.local_minus_utc off in
      if int_eq secs (pos 0) then text "Z" else sign_of secs ∷ clock (magnitude secs)

  unfoldable pub fmt_local_time : C.Time → Bytes
  fmt_local_time t =
      padded 2 (C.hour t)
      ++ (b':' ∷ (padded 2 (C.minute t) ++ fmt_seconds (C.second t) (C.nanosecond t)))

  -- `Display` of `CypherDate`.
  unfoldable pub fmt_date : C.Date → Bytes
  fmt_date d =
      padded_int 4 (C.year d) ++ (b'-' ∷ (padded 2 (C.month d) ++ b'-' ∷ padded 2 (C.day d)))
