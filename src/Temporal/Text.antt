-- ===== src/Temporal/Text.antt =====
-- The functions of the standard library on `str` and on numbers that temporal.rs uses.
pub mod Numbers
pub mod Cuts
use graphdblite.Base.{
  ℕ, zero, suc, ◌+◌, ◌-◌, ◌*◌, ◌/◌, ◌%◌, Bool, true, false, not, ◌&&◌, ◌||◌, List, [], ◌∷◌, ◌++◌,
  Option, none, some, length, take, drop, ltb, leb, ◌==◌, if◌then◌else◌, Bytes, text,
}
use graphdblite.Base.Int.{ℤ, pos, negsuc}
use graphdblite.Temporal.Outcome.{Outcome, ok, invalid, panicked, ◌>>=◌}

-- The first byte at an index is not the inner byte of a character.
abbrev pub starts_char : Bytes → Bool
starts_char [] = true
starts_char (c ∷ cs) = ltb c 128 || leb 192 c

-- `is_char_boundary`.
abbrev pub is_char_boundary : Bytes → ℕ → Bool
is_char_boundary s i = i == 0 || (leb i (length s) && starts_char (drop i s))

-- `&s[a..b]`.
unfoldable pub slice : ℕ → ℕ → Bytes → Outcome Bytes
slice a b s =
    if leb a b && (is_char_boundary s a && is_char_boundary s b)
    then ok (take (b - a) (drop a s))
    else panicked

abbrev pub is_digit : ℕ → Bool
is_digit c = leb b'0' c && leb c b'9'

-- The loop of `from_str_radix` over the digits of a magnitude that is at most the limit.
abbrev pub scan : ℕ → Bytes → ℕ → Bytes → Outcome ℕ
scan limit overflow acc [] = ok acc
scan limit overflow acc (c ∷ cs) =
    let n = acc * 10 + (c - b'0') in
    let rest = scan limit overflow n cs in
    if not (is_digit c)
    then invalid (text "invalid digit found in string")
    else (if leb n limit then rest else invalid overflow)

abbrev pub too_large : Bytes
too_large = text "number too large to fit in target type"

abbrev pub too_small : Bytes
too_small = text "number too small to fit in target type"

-- A sign that nothing follows.
abbrev lone_sign : ℕ → Bytes → Bool
lone_sign c [] = c == b'+' || c == b'-'
lone_sign c (d ∷ ds) = false

abbrev pub negated : ℕ → ℤ
negated zero = pos 0
negated (suc n) = negsuc n

abbrev pub positive : Outcome ℕ → Outcome ℤ
positive r = r >>= λ n. ok (pos n)

abbrev pub negative : Outcome ℕ → Outcome ℤ
negative r = r >>= λ n. ok (negated n)

-- `parse::<u32>`, with the message of its error.
unfoldable pub parse_u32 : Bytes → Outcome ℕ
parse_u32 [] = invalid (text "cannot parse integer from empty string")
parse_u32 (c ∷ cs) =
    if lone_sign c cs
    then invalid (text "invalid digit found in string")
    else scan 0xffffffff too_large 0 (if c == b'+' then cs else c ∷ cs)

-- `parse::<i32>`, with the message of its error.
unfoldable pub parse_i32 : Bytes → Outcome ℤ
parse_i32 [] = invalid (text "cannot parse integer from empty string")
parse_i32 (c ∷ cs) =
    if lone_sign c cs
    then invalid (text "invalid digit found in string")
    else (if c == b'-'
        then negative (scan 0x80000000 too_small 0 cs)
        else positive (scan 0x7fffffff too_large 0 (if c == b'+' then cs else c ∷ cs)))

-- What stands before and behind the first occurrence of a character: `find` and the two slices.
abbrev pub push {ℓ} : {A : Type ℓ} → ℕ → Option (Bytes × A) → Option (Bytes × A)
push c none = none
push c (some (before, after)) = some (c ∷ before, after)

abbrev pub cut : ℕ → Bytes → Option (Bytes × Bytes)
cut c [] = none
cut c (x ∷ xs) = let rest = push x (cut c xs) in if x == c then some ([], xs) else rest

-- The same at the last occurrence: `rfind`.
abbrev pub first_if : Bool → Bytes → Option (Bytes × Bytes)
first_if true xs = some ([], xs)
first_if false xs = none

abbrev pub or_else {ℓ} : {A : Type ℓ} → Option A → Option A → Option A
or_else none other = other
or_else (some a) other = some a

abbrev pub rcut : ℕ → Bytes → Option (Bytes × Bytes)
rcut c [] = none
rcut c (x ∷ xs) = or_else (push x (rcut c xs)) (first_if (x == c) xs)

-- `split(c)`.
abbrev pub push_front : ℕ → List Bytes → List Bytes
push_front c [] = (c ∷ []) ∷ []
push_front c (p ∷ ps) = (c ∷ p) ∷ ps

abbrev pub split_at : ℕ → Bytes → List Bytes
split_at c [] = [] ∷ []
split_at c (x ∷ xs) = let rest = split_at c xs in if x == c then [] ∷ rest else push_front x rest

-- `splitn(n, c)`: at most `n` parts, the last of them whole.
abbrev pub splitn : ℕ → ℕ → Bytes → List Bytes
splitn zero c s = []
splitn (suc zero) c s = s ∷ []
splitn (suc (suc n)) c s = elim (cut c s) [
  | none ↦ s ∷ []
  | some (before, after) ↦ before ∷ splitn (suc n) c after
]

-- `replace(c, "")`.
abbrev pub without : ℕ → Bytes → Bytes
without c [] = []
without c (x ∷ xs) = let rest = without c xs in if x == c then rest else x ∷ rest

-- `trim_end_matches(c)`.
abbrev pub trimmed : ℕ → ℕ → Bytes → Bytes
trimmed c x [] = if x == c then [] else x ∷ []
trimmed c x (y ∷ ys) = x ∷ (y ∷ ys)

abbrev pub trim_end_matches : ℕ → Bytes → Bytes
trim_end_matches c [] = []
trim_end_matches c (x ∷ xs) = trimmed c x (trim_end_matches c xs)

abbrev pub replicate : ℕ → ℕ → Bytes
replicate zero c = []
replicate (suc n) c = c ∷ replicate n c

-- The decimal digits of a number, on fuel.
decimal_on : ℕ → ℕ → Bytes
decimal_on zero n = (b'0' + n) ∷ []
decimal_on (suc fuel) n =
    let upper = decimal_on fuel (n / 10) in
    if ltb n 10 then (b'0' + n) ∷ [] else upper ++ (b'0' + n % 10) ∷ []

unfoldable pub decimal : ℕ → Bytes
unfolding decimal_on
decimal n = decimal_on n n

-- `{:0w}` of an unsigned number.
abbrev pub padded : ℕ → ℕ → Bytes
padded w n = replicate (w - length (decimal n)) b'0' ++ decimal n

-- `{:0w}` of a signed number, whose sign counts as a place.
abbrev pub padded_int : ℕ → ℤ → Bytes
padded_int w (pos n) = padded w n
padded_int w (negsuc n) = b'-' ∷ padded (w - 1) (suc n)
