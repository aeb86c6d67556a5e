-- ===== src/Temporal/Text/Numbers.antt =====
-- The decimal digits of a number and what the parsers of numbers make of them.
use native.Mathlib.Nat.{pow-suc}
use mathlib.Core.List.{cons-ne-nil}
use graphdblite.Base.{
  All-append, ℕ, zero, suc, ◌+◌, ◌-◌, ◌*◌, ◌/◌, ◌%◌, ◌^◌, ◌<◌, ◌≤◌, [], ◌∷◌, ◌++◌, length,
  length-append, All, Bool-cases, inl, inr, ◌≡◌, ap, ◌≢◌, refl, ◌∙◌, ltb, Bytes, arith,
}
use graphdblite.Base.Int.{pos}
use graphdblite.Temporal.Outcome.{ok}
use graphdblite.Temporal.Text.{
  scan, too_large, parse_u32, parse_i32, decimal_on, decimal, padded, replicate,
}

abbrev pub IsDigit : ℕ → Type 0
IsDigit c = (b'0' ≤ c) × (c ≤ b'9')

-- The number that digits spell behind a number.
abbrev pub value : ℕ → Bytes → ℕ
value acc [] = acc
value acc (c ∷ cs) = value (acc * 10 + (c - b'0')) cs

value-append : (xs : Bytes) (acc c : ℕ) → value acc (xs ++ c ∷ []) ≡ value acc xs * 10 + (c - b'0')
value-append [] acc c = refl
value-append (x ∷ xs) acc c = value-append xs (acc * 10 + (x - b'0')) c

decimal_on-IsDigit : (fuel n : ℕ) → n ≤ fuel → All IsDigit (decimal_on fuel n)
unfolding decimal_on
decimal_on-IsDigit zero n h = ((omega arith, omega arith), tt)
decimal_on-IsDigit (suc fuel) n h =
    let upper = decimal_on-IsDigit fuel (n / 10) (omega arith) in
    let last : All IsDigit ((b'0' + n % 10) ∷ []) = ((omega arith, omega arith), tt) in
    elim (Bool-cases (ltb n 10)) [
      | inl e ↦ rw e ((omega arith, ground arith), tt)
      | inr e ↦
          rw e (All-append IsDigit (decimal_on fuel (n / 10)) ((b'0' + n % 10) ∷ []) upper last)
    ]

value-decimal_on : (fuel n : ℕ) → n ≤ fuel → value 0 (decimal_on fuel n) ≡ n
unfolding decimal_on
value-decimal_on zero n h = ground arith
value-decimal_on (suc fuel) n h = ground (
  arith,
  value-decimal_on fuel (n / 10),
  value-append (decimal_on fuel (n / 10)) 0 (b'0' + n % 10),
)

length-decimal_on : (w fuel n : ℕ) → n ≤ fuel → n < 10 ^ suc w → length (decimal_on fuel n) ≤ suc w
unfolding decimal_on
length-decimal_on w zero n h k = omega arith
length-decimal_on zero (suc fuel) n h k = ground (arith, pow-suc 10 0)
length-decimal_on (suc w) (suc fuel) n h k = ground (
  arith,
  pow-suc 10 (suc w),
  length-decimal_on w fuel (n / 10),
  length-append (decimal_on fuel (n / 10)) ((b'0' + n % 10) ∷ []),
)

replicate-IsDigit : (n : ℕ) → All IsDigit (replicate n b'0')
replicate-IsDigit zero = tt
replicate-IsDigit (suc n) = ((omega arith, omega arith), replicate-IsDigit n)

value-replicate : (n : ℕ) (s : Bytes) → value 0 (replicate n b'0' ++ s) ≡ value 0 s
value-replicate zero s = refl
value-replicate (suc n) s = value-replicate n s

length-replicate : (n c : ℕ) → length (replicate n c) ≡ n
length-replicate zero c = refl
length-replicate (suc n) c = omega (arith, length-replicate n c)

pub padded-IsDigit : (w n : ℕ) → All IsDigit (padded w n)
unfolding decimal
padded-IsDigit w n =
    All-append IsDigit (replicate (w - length (decimal n)) b'0') (decimal n)
      (replicate-IsDigit (w - length (decimal n))) (decimal_on-IsDigit n n (omega arith))

pub value-padded : (w n : ℕ) → value 0 (padded w n) ≡ n
value-padded w n =
    value-replicate (w - length (decimal n)) (decimal n)
    ∙ unfold decimal in value-decimal_on n n (omega arith)

pub length-padded : (w n : ℕ) → n < 10 ^ suc w → length (padded (suc w) n) ≡ suc w
length-padded w n h =
    let short : length (decimal n) ≤ suc w =
      unfold decimal in length-decimal_on w n n (omega arith) h in
    omega (
      arith,
      length-append (replicate (suc w - length (decimal n)) b'0') (decimal n),
      length-replicate (suc w - length (decimal n)) b'0',
      short,
    )

le-value : (s : Bytes) (acc : ℕ) → acc ≤ value acc s
le-value [] acc = omega arith
le-value (c ∷ s) acc = omega (arith, le-value s (acc * 10 + (c - b'0')))

scan_complete :
    (limit : ℕ) (overflow : Bytes) (s : Bytes) (acc : ℕ)
    → All IsDigit s
    → value acc s ≤ limit
    → scan limit overflow acc s ≡ ok (value acc s)
scan_complete limit overflow [] acc h fits = refl
scan_complete limit overflow (c ∷ s) acc (hc, hs) fits =
    let m = acc * 10 + (c - b'0') in
    ground (arith, scan_complete limit overflow s m hs fits, le-value s m)

-- Digits that spell a `u32` are read as it.
pub parse_u32-digits :
    (s : Bytes) → s ≢ [] → All IsDigit s → value 0 s ≤ 0xffffffff → parse_u32 s ≡ ok (value 0 s)
unfolding parse_u32
parse_u32-digits [] ne h fits = absurd (ne refl)
parse_u32-digits (c ∷ []) ne h fits =
    ground (arith, scan_complete 0xffffffff too_large (c ∷ []) 0 h fits)
parse_u32-digits (c ∷ (d ∷ s)) ne h fits =
    ground (arith, scan_complete 0xffffffff too_large (c ∷ (d ∷ s)) 0 h fits)

pub parse_i32-digits :
    (s : Bytes)
    → s ≢ []
    → All IsDigit s
    → value 0 s ≤ 0x7fffffff
    → parse_i32 s ≡ ok (pos (value 0 s))
unfolding parse_i32
parse_i32-digits [] ne h fits = absurd (ne refl)
parse_i32-digits (c ∷ []) ne h fits =
    ground (arith, scan_complete 0x7fffffff too_large (c ∷ []) 0 h fits)
parse_i32-digits (c ∷ (d ∷ s)) ne h fits =
    ground (arith, scan_complete 0x7fffffff too_large (c ∷ (d ∷ s)) 0 h fits)

-- A number below 100 is written in two digits, which are read back as it.
pub record Two (n : ℕ) : Type 0 where
  pub tens : ℕ
  pub units : ℕ
  pub written : padded 2 n ≡ tens ∷ (units ∷ [])
  pub is_tens : IsDigit tens
  pub is_units : IsDigit units
  pub as_u32 : parse_u32 (tens ∷ (units ∷ [])) ≡ ok n
  pub as_i32 : parse_i32 (tens ∷ (units ∷ [])) ≡ ok (pos n)

pair_lem :
    (n : ℕ) (s : Bytes)
    → padded 2 n ≡ s
    → length s ≡ 2
    → All IsDigit s
    → value 0 s ≡ n
    → n < 100
    → Two n
pair_lem n [] e l h v b = absurd (omega arith)
pair_lem n (x ∷ []) e l h v b = absurd (omega arith)
pair_lem n (x ∷ (y ∷ (z ∷ s))) e l h v b = absurd (omega arith)
pair_lem n (x ∷ (y ∷ [])) e l (hx, (hy, h)) v b =
    let all_digits : All IsDigit (x ∷ (y ∷ [])) = (hx, (hy, tt)) in
    record {
      tens = x;
      units = y;
      written = e;
      is_tens = hx;
      is_units = hy;
      as_u32 =
          parse_u32-digits (x ∷ (y ∷ [])) (cons-ne-nil x (y ∷ [])) all_digits (omega arith)
          ∙ ap (λ (k : ℕ). ok k) v;
      as_i32 =
          parse_i32-digits (x ∷ (y ∷ [])) (cons-ne-nil x (y ∷ [])) all_digits (omega arith)
          ∙ ap (λ (k : ℕ). ok (pos k)) v;
    }

pub two : (n : ℕ) → n < 100 → Two n
two n h =
    pair_lem n (padded 2 n) refl (length-padded 1 n h) (padded-IsDigit 2 n) (value-padded 2 n) h

decimal_on-nonempty : (fuel n : ℕ) → 1 ≤ length (decimal_on fuel n)
unfolding decimal_on
decimal_on-nonempty zero n = omega arith
decimal_on-nonempty (suc fuel) n =
    ground (arith, length-append (decimal_on fuel (n / 10)) ((b'0' + n % 10) ∷ []))

padded-nonempty : (w n : ℕ) → padded w n ≢ []
padded-nonempty w n e =
    let some_digit : 1 ≤ length (decimal n) = unfold decimal in decimal_on-nonempty n n in
    let all = length-append (replicate (w - length (decimal n)) b'0') (decimal n) in
    let none_at_all : length (padded w n) ≡ 0 = ap length e in
    omega (arith, none_at_all, all, some_digit)

-- A `u32` that was written with leading zeros is read back, and so is an `i32` that is not negative.
pub parse_u32-padded : (w n : ℕ) → n ≤ 0xffffffff → parse_u32 (padded w n) ≡ ok n
parse_u32-padded w n h =
    let v = value-padded w n in
    parse_u32-digits (padded w n) (padded-nonempty w n) (padded-IsDigit w n) (omega arith)
    ∙ ap (λ (k : ℕ). ok k) v

pub parse_i32-padded : (w n : ℕ) → n ≤ 0x7fffffff → parse_i32 (padded w n) ≡ ok (pos n)
parse_i32-padded w n h =
    let v = value-padded w n in
    parse_i32-digits (padded w n) (padded-nonempty w n) (padded-IsDigit w n) (omega arith)
    ∙ ap (λ (k : ℕ). ok (pos k)) v
