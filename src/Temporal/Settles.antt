-- ===== src/Temporal/Settles.antt =====
-- temporal.rs: on ASCII texts the parsers return a value or an error and never slice inside a
-- character; on other texts they can.
use graphdblite.Base.{
  All-append, ℕ, zero, suc, ◌+◌, ◌-◌, ◌*◌, ◌<◌, ◌≤◌, Bool, true, false, ◌&&◌, List, [], ◌∷◌, ◌++◌,
  Option, none, some, length, length-append, contains, ◌≡◌, refl, ap, subst, Bool-cases, inl, inr,
  Option-cases, ◌==◌, ==_iff, if◌then◌else◌, Bytes, arith,
}
use graphdblite.Temporal.Outcome.{Outcome, ok, failed, panicked, or_invalid, ◌>>=◌}
use graphdblite.Types.Error.{GraphError}
use graphdblite.Temporal.Chrono.{Chrono}
use graphdblite.Temporal.Text.{
  slice, parse_u32, parse_i32, scan, cut, push, splitn, without, replicate,
}
use graphdblite.Temporal.Text.Cuts.{IsAscii, slice_ascii, slice_rest}
use graphdblite.Temporal.Parse.{
  parse_offset, parse_offset_body, parse_frac_nanos, parse_seconds, parse_parts, compact_parts,
  parse_compact, parse_time_str, is_at,
}

-- A value or an error.
pub data IsSettled {ℓ} {A : Type ℓ} : Outcome A → Type ℓ where
  is_ok : (a : A) → IsSettled (ok a)
  is_failed : (e : GraphError) → IsSettled (failed e)

pub IsSettled-bind {ℓ κ} :
    {A : Type ℓ} {B : Type κ} (r : Outcome A) (next : A → Outcome B)
    → IsSettled r
    → ((a : A) → IsSettled (next a))
    → IsSettled (r >>= next)
IsSettled-bind (ok a) next h k = k a
IsSettled-bind (failed e) next h k = is_failed e
IsSettled-bind panicked next h k = elim h [ ]

pub IsSettled-or_invalid {ℓ} :
    {A : Type ℓ} (message : Bytes) (o : Option A) → IsSettled (or_invalid message o)
IsSettled-or_invalid message none = is_failed _
IsSettled-or_invalid message (some a) = is_ok a

pub IsSettled-if {ℓ} :
    {A : Type ℓ} (b : Bool) (r s : Outcome A)
    → (b ≡ true → IsSettled r)
    → (b ≡ false → IsSettled s)
    → IsSettled (if b then r else s)
IsSettled-if true r s h k = h refl
IsSettled-if false r s h k = k refl

pub ruleset settled = (is_ok, is_failed, IsSettled-bind, IsSettled-or_invalid, IsSettled-if)

scan-IsSettled :
    (limit : ℕ) (overflow : Bytes) (acc : ℕ) (s : Bytes) → IsSettled (scan limit overflow acc s)
scan-IsSettled limit overflow acc [] = is_ok acc
scan-IsSettled limit overflow acc (c ∷ cs) =
    let rest = scan-IsSettled limit overflow (acc * 10 + (c - b'0')) cs in search settled

pub parse_u32-IsSettled : (s : Bytes) → IsSettled (parse_u32 s)
unfolding parse_u32
parse_u32-IsSettled [] = is_failed _
parse_u32-IsSettled (c ∷ cs) = search (settled, scan-IsSettled)

pub parse_i32-IsSettled : (s : Bytes) → IsSettled (parse_i32 s)
unfolding parse_i32
parse_i32-IsSettled [] = is_failed _
parse_i32-IsSettled (c ∷ cs) = search (settled, scan-IsSettled)

slice-IsSettled : (a b : ℕ) (s : Bytes) → IsAscii s → a ≤ b → b ≤ length s → IsSettled (slice a b s)
slice-IsSettled a b s h ab bn = rw (slice_ascii a b s h ab bn) (is_ok _)

-- A part of a text, read as a number.
pub part_u32 :
    (a b : ℕ) (s : Bytes) → IsAscii s → a ≤ b → b ≤ length s → IsSettled (slice a b s >>= parse_u32)
part_u32 a b s h ab bn =
    IsSettled-bind (slice a b s) parse_u32 (slice-IsSettled a b s h ab bn) parse_u32-IsSettled

pub part_i32 :
    (a b : ℕ) (s : Bytes) → IsAscii s → a ≤ b → b ≤ length s → IsSettled (slice a b s >>= parse_i32)
part_i32 a b s h ab bn =
    IsSettled-bind (slice a b s) parse_i32 (slice-IsSettled a b s h ab bn) parse_i32-IsSettled

-- Both parts of a cut.
abbrev pub BothAscii : Option (Bytes × Bytes) → Type 0
BothAscii none = Unit {0}
BothAscii (some (before, after)) = IsAscii before × IsAscii after

pub push-BothAscii :
    (x : ℕ) (o : Option (Bytes × Bytes)) → x < 128 → BothAscii o → BothAscii (push x o)
push-BothAscii x none hx h = tt
push-BothAscii x (some (before, after)) hx (h, k) = ((hx, h), k)

pub cut-BothAscii : (c : ℕ) (s : Bytes) → IsAscii s → BothAscii (cut c s)
cut-BothAscii c [] h = tt
cut-BothAscii c (x ∷ xs) (hx, h) =
    let rest = push-BothAscii x (cut c xs) hx (cut-BothAscii c xs h) in
    elim (Bool-cases (x == c)) [ inl e ↦ rw e (tt, h) | inr e ↦ rw e rest ]

pub without-IsAscii : (c : ℕ) (s : Bytes) → IsAscii s → IsAscii (without c s)
without-IsAscii c [] h = tt
without-IsAscii c (x ∷ xs) (hx, h) = elim (Bool-cases (x == c)) [
  | inl e ↦ rw e (without-IsAscii c xs h)
  | inr e ↦ rw e (hx, without-IsAscii c xs h)
]

module _ (C : Chrono) where
  parse_offset_body-IsSettled :
      (s : Bytes) (is_negative : Bool) (body : Bytes)
      → IsAscii body
      → IsSettled (parse_offset_body C s is_negative body)
  unfolding parse_offset_body
  parse_offset_body-IsSettled s is_negative body h =
      let all = parse_i32-IsSettled body in
      elim (Bool-cases (length body == 2)) [
        | inl e2 ↦ rw e2 (search (settled, all))
        | inr e2 ↦ rw e2 (elim (Bool-cases (length body == 4)) [
          | inl e4 ↦
              let n : length body ≡ 4 = (==_iff (length body) 4).0 e4 in
              let hh = part_i32 0 2 body h (omega arith) (omega arith) in
              let mm = part_i32 2 (length body) body h (omega arith) (omega arith) in
              rw e4 (search (settled, hh, mm))
          | inr e4 ↦ rw e4 (elim (Bool-cases (length body == 5 && is_at 2 b':' body)) [
            | inl e5 ↦
                let n : length body ≡ 5 = ground arith in
                let hh = part_i32 0 2 body h (omega arith) (omega arith) in
                let mm = part_i32 3 (length body) body h (omega arith) (omega arith) in
                rw e5 (search (settled, hh, mm))
            | inr e5 ↦
                rw e5
                  (elim (Bool-cases
                    (length body == 8 && (is_at 2 b':' body && is_at 5 b':' body))) [
                      | inl e8 ↦
                          let n : length body ≡ 8 = ground arith in
                          let hh = part_i32 0 2 body h (omega arith) (omega arith) in
                          let mm = part_i32 3 5 body h (omega arith) (omega arith) in
                          let ss = part_i32 6 8 body h (omega arith) (omega arith) in
                          rw e8 (search (settled, hh, mm, ss))
                      | inr e8 ↦ rw e8 (is_failed _)
                    ])
          ])
        ])
      ]

  -- On an ASCII text parse_offset returns an offset or an error.
  pub parse_offset-IsSettled : (s : Bytes) → IsAscii s → IsSettled (parse_offset C s)
  unfolding parse_offset
  parse_offset-IsSettled [] h = is_failed _
  parse_offset-IsSettled (c ∷ cs) (hc, h) =
      let plus = parse_offset_body-IsSettled (c ∷ cs) false cs h in
      let minus = parse_offset_body-IsSettled (c ∷ cs) true cs h in
      rw (slice_rest c cs hc h) (search (settled, plus, minus))

replicate-IsAscii : (n : ℕ) → IsAscii (replicate n b'0')
replicate-IsAscii zero = tt
replicate-IsAscii (suc n) = (omega arith, replicate-IsAscii n)

length-replicate : (n : ℕ) → length (replicate n b'0') ≡ n
length-replicate zero = refl
length-replicate (suc n) = ap (λ k. suc k) (length-replicate n)

parse_frac_nanos-IsSettled : (frac : Bytes) → IsAscii frac → IsSettled (parse_frac_nanos frac)
unfolding parse_frac_nanos
parse_frac_nanos-IsSettled frac h =
    let zeros = replicate (9 - length frac) b'0' in
    part_u32 0 9 (frac ++ zeros)
      (All-append (λ c. c < 128) frac zeros h (replicate-IsAscii (9 - length frac))) (omega arith)
      (omega (arith, length-append frac zeros, length-replicate (9 - length frac)))

abbrev pub AsciiOr : Option Bytes → Type 0
AsciiOr none = Unit {0}
AsciiOr (some s) = IsAscii s

-- Texts that are all ASCII.
abbrev AllAscii : List Bytes → Type 0
AllAscii [] = Unit {0}
AllAscii (s ∷ rest) = IsAscii s × AllAscii rest

splitn-IsAscii : (n c : ℕ) (s : Bytes) → IsAscii s → AllAscii (splitn n c s)
splitn-IsAscii zero c s h = tt
splitn-IsAscii (suc zero) c s h = (h, tt)
splitn-IsAscii (suc (suc n)) c s h = elim (Option-cases (cut c s)) [
  | inl e ↦ rw (splitn, e) (h, tt)
  | inr ((before, after), e) ↦
      let both = subst BothAscii e (cut-BothAscii c s h) in
      rw (splitn, e) (both.0, splitn-IsAscii (suc n) c after both.1)
]

module _ (C : Chrono) where
  parse_seconds-IsSettled :
      (s : Bytes) (h m : ℕ) (sec_part : Bytes) (o : Option (Bytes × Bytes))
      → BothAscii o
      → IsSettled (parse_seconds C s h m sec_part o)
  unfolding parse_seconds
  parse_seconds-IsSettled s h m sec_part none all = search (settled, parse_u32-IsSettled)
  parse_seconds-IsSettled s h m sec_part (some (whole, frac)) (hw, hf) =
      let nanos = parse_frac_nanos-IsSettled frac hf in search (settled, parse_u32-IsSettled, nanos)

  parse_parts-IsSettled :
      (s part : Bytes) (parts : List Bytes)
      → AllAscii (part ∷ parts)
      → IsSettled (parse_parts C s (part ∷ parts))
  unfolding parse_parts
  parse_parts-IsSettled s hours [] all = search (settled, parse_u32-IsSettled)
  parse_parts-IsSettled s hours (minutes ∷ []) all = search (settled, parse_u32-IsSettled)
  parse_parts-IsSettled s hours (minutes ∷ (sec_part ∷ rest)) (hh, (hm, (hs, all))) =
      let cuts = cut-BothAscii b'.' sec_part hs in
      search (settled, parse_u32-IsSettled, parse_seconds-IsSettled, cuts)

  compact_parts-IsSettled :
      (s digits : Bytes) → IsAscii digits → IsSettled (compact_parts C s digits)
  unfolding compact_parts
  compact_parts-IsSettled s digits h =
      let all = parse_u32-IsSettled digits in
      elim (Bool-cases (length digits == 2)) [
        | inl e2 ↦ rw e2 (search (settled, all))
        | inr e2 ↦ rw e2 (elim (Bool-cases (length digits == 4)) [
          | inl e4 ↦
              let n : length digits ≡ 4 = (==_iff (length digits) 4).0 e4 in
              let hh = part_u32 0 2 digits h (omega arith) (omega arith) in
              let mm = part_u32 2 (length digits) digits h (omega arith) (omega arith) in
              rw e4 (search (settled, hh, mm))
          | inr e4 ↦ rw e4 (elim (Bool-cases (length digits == 6)) [
            | inl e6 ↦
                let n : length digits ≡ 6 = (==_iff (length digits) 6).0 e6 in
                let hh = part_u32 0 2 digits h (omega arith) (omega arith) in
                let mm = part_u32 2 4 digits h (omega arith) (omega arith) in
                let ss = part_u32 4 (length digits) digits h (omega arith) (omega arith) in
                rw e6 (search (settled, hh, mm, ss))
            | inr e6 ↦ rw e6 (is_failed _)
          ])
        ])
      ]

  parse_compact-IsSettled :
      (s digits : Bytes) (frac : Option Bytes)
      → IsAscii digits
      → AsciiOr frac
      → IsSettled (parse_compact C s digits frac)
  unfolding parse_compact
  parse_compact-IsSettled s digits none h hf =
      let parts = compact_parts-IsSettled s digits h in search (settled, parts)
  parse_compact-IsSettled s digits (some frac) h hf =
      let parts = compact_parts-IsSettled s digits h in
      let nanos = parse_frac_nanos-IsSettled frac hf in search (settled, parts, nanos)

  colons-IsSettled : (s : Bytes) → IsAscii s → IsSettled (parse_parts C s (splitn 3 b':' s))
  colons-IsSettled s h = elim (Option-cases (cut b':' s)) [
    | inl e ↦ rw (splitn, e) (parse_parts-IsSettled s s [] (h, tt))
    | inr ((before, after), e) ↦
        let both = subst BothAscii e (cut-BothAscii b':' s h) in
        rw (splitn, e)
          (parse_parts-IsSettled s before (splitn 2 b':' after)
            (both.0, splitn-IsAscii 2 b':' after both.1))
  ]

  -- On an ASCII text parse_time_str returns a time or an error.
  pub parse_time_str-IsSettled : (s : Bytes) → IsAscii s → IsSettled (parse_time_str C s)
  unfolding parse_time_str
  parse_time_str-IsSettled s h = elim (Bool-cases (contains s b':')) [
    | inl e ↦ rw e (colons-IsSettled s h)
    | inr e ↦ rw e (elim (Option-cases (cut b'.' s)) [
      | inl n ↦ rw n (parse_compact-IsSettled s s none h tt)
      | inr ((digits, frac), n) ↦
          let both = subst BothAscii n (cut-BothAscii b'.' s h) in
          rw n (parse_compact-IsSettled s digits (some frac) both.0 both.1)
    ])
  ]
