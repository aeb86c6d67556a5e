-- ===== src/Temporal/Parse.antt =====
-- temporal.rs: the parsers of offsets, times and dates.
use graphdblite.Base.{
  ℕ, suc, ◌-◌, ◌*◌, Bool, true, false, ◌&&◌, ◌||◌, List, [], ◌∷◌, ◌++◌, Option, none, some, length,
  take, get_elem?, contains, ◌==◌, if◌then◌else◌, Bytes, text, bytes_eq,
}
use graphdblite.Base.Int.{ℤ, pos, negsuc, ◌+ℤ◌}
use graphdblite.Temporal.Outcome.{Outcome, ok, panicked, invalid, or_invalid, ◌>>=◌}
use graphdblite.Temporal.Chrono.{Chrono}
use graphdblite.Temporal.Text.{
  slice, parse_u32, parse_i32, cut, rcut, or_else, splitn, replicate, negated,
}

-- The product of an integer and a number, and the opposite of an integer.
abbrev pub times : ℤ → ℕ → ℤ
times (pos a) k = pos (a * k)
times (negsuc a) k = negated (suc a * k)

abbrev pub opposite : ℤ → ℤ
opposite (pos a) = negated a
opposite (negsuc a) = pos (suc a)

-- `sign * (h * 3600 + m * 60 + s)`, which an `i32` holds for numbers of two places.
abbrev pub signed : Bool → ℤ → ℤ
signed is_negative secs = if is_negative then opposite secs else secs

-- The byte at an index is the given one.
abbrev pub is_at : ℕ → ℕ → Bytes → Bool
is_at i c s = elim (get_elem? s i) [ none ↦ false | some d ↦ d == c ]

abbrev pub starts_at : ℕ → Bytes → Bool
starts_at c s = is_at 0 c s

-- `ends_with` of a character.
abbrev pub last_is : ℕ → Bytes → Bool
last_is c [] = false
last_is c (x ∷ []) = x == c
last_is c (x ∷ (y ∷ s)) = last_is c (y ∷ s)

module _ (C : Chrono) where
  abbrev offset_of : Bytes → Bool → ℤ → Outcome C.Offset
  offset_of s is_negative secs =
      or_invalid (text "offset out of range: " ++ s) (C.east_opt (signed is_negative secs))

  -- What follows the sign.
  unfoldable pub parse_offset_body : Bytes → Bool → Bytes → Outcome C.Offset
  parse_offset_body s is_negative body =
      if length body == 2
      then (do h ← parse_i32 body; offset_of s is_negative (times h 3600 +ℤ times (pos 0) 60))
      else (if length body == 4
          then (do
            hh ← slice 0 2 body >>= parse_i32
            mm ← slice 2 (length body) body >>= parse_i32
            offset_of s is_negative (times hh 3600 +ℤ times mm 60))
          else (if length body == 5 && is_at 2 b':' body
              then (do
                hh ← slice 0 2 body >>= parse_i32
                mm ← slice 3 (length body) body >>= parse_i32
                offset_of s is_negative (times hh 3600 +ℤ times mm 60))
              else (if length body == 8 && (is_at 2 b':' body && is_at 5 b':' body)
                  then (do
                    hh ← slice 0 2 body >>= parse_i32
                    mm ← slice 3 5 body >>= parse_i32
                    ss ← slice 6 8 body >>= parse_i32
                    offset_of s is_negative (times hh 3600 +ℤ times mm 60 +ℤ ss))
                  else invalid (text "invalid offset: " ++ s))))

  unfoldable pub parse_offset : Bytes → Outcome C.Offset
  parse_offset s =
      if bytes_eq s (text "Z") || bytes_eq s (text "z")
      then ok C.utc
      else (if starts_at b'+' s
          then (slice 1 (length s) s >>= parse_offset_body s false)
          else (if starts_at b'-' s
              then (slice 1 (length s) s >>= parse_offset_body s true)
              else invalid (text "invalid offset: " ++ s)))

-- A cut that leaves something before the sign, which goes with what follows it.
abbrev pub signed_tail : ℕ → Option (Bytes × Bytes) → Option (Bytes × Bytes)
signed_tail sign none = none
signed_tail sign (some ([], after)) = none
signed_tail sign (some (c ∷ before, after)) = some (c ∷ before, sign ∷ after)

abbrev pub with_offset : Bytes → Option (Bytes × Bytes) → Bytes × Option Bytes
with_offset s none = (s, none)
with_offset s (some (time_part, offset)) = (time_part, some offset)

unfoldable pub split_time_offset : Bytes → Bytes × Option Bytes
split_time_offset s =
    if last_is b'Z' s
    then (take (length s - 1) s, some (text "Z"))
    else (if last_is b'z' s
        then (take (length s - 1) s, some (text "z"))
        else with_offset s
            (or_else (signed_tail b'+' (rcut b'+' s)) (signed_tail b'-' (rcut b'-' s))))

-- Padding to nine places and truncation, which panics inside a character.
unfoldable pub parse_frac_nanos : Bytes → Outcome ℕ
parse_frac_nanos frac = slice 0 9 (frac ++ replicate (9 - length frac) b'0') >>= parse_u32

module _ (C : Chrono) where
  abbrev time_of : Bytes → ℕ → ℕ → ℕ → ℕ → Outcome C.Time
  time_of s h m sec nano =
      or_invalid (text "invalid time: " ++ s) (C.from_hms_nano_opt h m sec nano)

  abbrev whole_time_of : Bytes → ℕ → ℕ → ℕ → Outcome C.Time
  whole_time_of s h m sec = or_invalid (text "invalid time: " ++ s) (C.from_hms_opt h m sec)

  -- The seconds of a time with colons, and their fraction.
  unfoldable pub parse_seconds : Bytes → ℕ → ℕ → Bytes → Option (Bytes × Bytes) → Outcome C.Time
  parse_seconds s h m sec_part none = do sec ← parse_u32 sec_part; whole_time_of s h m sec
  parse_seconds s h m sec_part (some (whole, frac)) = do
    sec ← parse_u32 whole
    nano ← parse_frac_nanos frac
    time_of s h m sec nano

  unfoldable pub parse_parts : Bytes → List Bytes → Outcome C.Time
  parse_parts s [] = panicked
  parse_parts s (hours ∷ []) = do
    h ← parse_u32 hours
    m ← parse_u32 (text "0")
    whole_time_of s h m 0
  parse_parts s (hours ∷ (minutes ∷ [])) = do
    h ← parse_u32 hours
    m ← parse_u32 minutes
    whole_time_of s h m 0
  parse_parts s (hours ∷ (minutes ∷ (sec_part ∷ rest))) = do
    h ← parse_u32 hours
    m ← parse_u32 minutes
    parse_seconds s h m sec_part (cut b'.' sec_part)

  abbrev frac_nanos : Option Bytes → Outcome ℕ
  frac_nanos none = ok 0
  frac_nanos (some frac) = parse_frac_nanos frac

  unfoldable pub compact_parts : Bytes → Bytes → Outcome (ℕ × (ℕ × ℕ))
  compact_parts s digits =
      if length digits == 2
      then (do h ← parse_u32 digits; ok (h, (0, 0)))
      else (if length digits == 4
          then (do
            hh ← slice 0 2 digits >>= parse_u32
            mm ← slice 2 (length digits) digits >>= parse_u32
            ok (hh, (mm, 0)))
          else (if length digits == 6
              then (do
                hh ← slice 0 2 digits >>= parse_u32
                mm ← slice 2 4 digits >>= parse_u32
                ss ← slice 4 (length digits) digits >>= parse_u32
                ok (hh, (mm, ss)))
              else invalid (text "invalid compact time: " ++ s)))

  unfoldable pub parse_compact : Bytes → Bytes → Option Bytes → Outcome C.Time
  parse_compact s digits frac = do
    (h, (m, sec)) ← compact_parts s digits
    nano ← frac_nanos frac
    time_of s h m sec nano

  unfoldable pub parse_time_str : Bytes → Outcome C.Time
  parse_time_str s =
      if contains s b':' then parse_parts s (splitn 3 b':' s) else elim (cut b'.' s) [
        | none ↦ parse_compact s s none
        | some (digits, frac) ↦ parse_compact s digits (some frac)
      ]
