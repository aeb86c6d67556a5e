-- ===== src/Base/ByteStrings.antt =====
-- Byte strings: equality, the order of `memcmp`, prefixes, and big-endian numbers. A Rust `String`
-- is the list of its UTF-8 bytes.
use Prim.Native.Char.{code}
use Prim.Native.String.{String}
use Prim.Native.Nat.{ℕ, zero, suc, ◌+◌, ◌*◌, ◌/◌, ◌%◌, ◌^◌, ◌<◌}
use mathlib.Core.Path.{◌≡◌, refl}
use mathlib.Core.Logic.{◌↔◌}
use mathlib.Core.Bool.{Bool, true, false, ◌&&◌, ◌||◌}
use mathlib.Core.List.{List, [], ◌∷◌, ◌++◌}
use native.Mathlib.Omega.{arith}
use native.Mathlib.Nat.{pow-suc}
use graphdblite.Base.Tests.{◌==◌, ltb}
use graphdblite.Base.Lists.{length, length-append, All}

abbrev pub Bytes : Type 0
Bytes = List ℕ

abbrev pub IsByte : ℕ → Type 0
IsByte b = b < 256

-- The bytes of an ASCII literal.
abbrev pub text : String → Bytes
text String.[] = []
text (String.◌∷◌ c s) = code c ∷ text s

abbrev pub bytes_eq : Bytes → Bytes → Bool
bytes_eq [] [] = true
bytes_eq [] (y ∷ ys) = false
bytes_eq (x ∷ xs) [] = false
bytes_eq (x ∷ xs) (y ∷ ys) = x == y && bytes_eq xs ys

pub bytes_eq_iff : (xs ys : Bytes) → (bytes_eq xs ys ≡ true) ↔ (xs ≡ ys)
bytes_eq_iff [] [] = ground arith
bytes_eq_iff [] (y ∷ ys) = ground arith
bytes_eq_iff (x ∷ xs) [] = ground arith
bytes_eq_iff (x ∷ xs) (y ∷ ys) = ground (arith, bytes_eq_iff xs ys)

pub bytes_eq_refl : (xs : Bytes) → bytes_eq xs xs ≡ true
bytes_eq_refl xs = (bytes_eq_iff xs xs).1 refl

-- The order of byte strings: a proper prefix comes first.
abbrev pub bytes_lt : Bytes → Bytes → Bool
bytes_lt xs [] = false
bytes_lt [] (y ∷ ys) = true
bytes_lt (x ∷ xs) (y ∷ ys) = ltb x y || (x == y && bytes_lt xs ys)

abbrev pub bytes_le : Bytes → Bytes → Bool
bytes_le [] ys = true
bytes_le (x ∷ xs) [] = false
bytes_le (x ∷ xs) (y ∷ ys) = ltb x y || (x == y && bytes_le xs ys)

abbrev pub starts_with : Bytes → Bytes → Bool
starts_with [] ys = true
starts_with (x ∷ xs) [] = false
starts_with (x ∷ xs) (y ∷ ys) = x == y && starts_with xs ys

pub starts_with-append : (xs ys : Bytes) → starts_with xs (xs ++ ys) ≡ true
starts_with-append [] ys = refl
starts_with-append (x ∷ xs) ys = ground (arith, starts_with-append xs ys)

-- Behind one common part.
pub starts_with-append_self :
    (xs ys zs : Bytes) → starts_with (xs ++ ys) (xs ++ zs) ≡ starts_with ys zs
starts_with-append_self [] ys zs = refl
starts_with-append_self (x ∷ xs) ys zs = ground (arith, starts_with-append_self xs ys zs)

-- Behind two parts of one length.
pub starts_with-append_append :
    (xs xs' ys zs : Bytes)
    → length xs ≡ length xs'
    → starts_with (xs ++ ys) (xs' ++ zs) ≡ (bytes_eq xs xs' && starts_with ys zs)
starts_with-append_append [] [] ys zs h = refl
starts_with-append_append [] (x' ∷ xs') ys zs h = absurd (omega arith)
starts_with-append_append (x ∷ xs) [] ys zs h = absurd (omega arith)
starts_with-append_append (x ∷ xs) (x' ∷ xs') ys zs h =
    ground (arith, starts_with-append_append xs xs' ys zs)

pub bytes_eq-append_append :
    (xs xs' ys zs : Bytes)
    → length xs ≡ length xs'
    → bytes_eq (xs ++ ys) (xs' ++ zs) ≡ (bytes_eq xs xs' && bytes_eq ys zs)
bytes_eq-append_append [] [] ys zs h = refl
bytes_eq-append_append [] (x' ∷ xs') ys zs h = absurd (omega arith)
bytes_eq-append_append (x ∷ xs) [] ys zs h = absurd (omega arith)
bytes_eq-append_append (x ∷ xs) (x' ∷ xs') ys zs h =
    ground (arith, bytes_eq-append_append xs xs' ys zs)

-- `n` bytes of a number, the highest first.
be_bytes : ℕ → ℕ → Bytes
be_bytes zero x = []
be_bytes (suc n) x = be_bytes n (x / 256) ++ x % 256 ∷ []

be_value : ℕ → Bytes → ℕ
be_value acc [] = acc
be_value acc (b ∷ bs) = be_value (acc * 256 + b) bs

-- `u64::to_be_bytes` and `u64::from_be_bytes`.
unfoldable pub u64_to_be : ℕ → Bytes
unfolding be_bytes
u64_to_be = be_bytes 8

unfoldable pub u64_from_be : Bytes → ℕ
unfolding be_value
u64_from_be = be_value 0

length-be_bytes : (n x : ℕ) → length (be_bytes n x) ≡ n
unfolding be_bytes
length-be_bytes zero x = refl
length-be_bytes (suc n) x =
    omega (arith, length-append (be_bytes n (x / 256)) (x % 256 ∷ []), length-be_bytes n (x / 256))

be_value-append :
    (acc : ℕ) (xs : Bytes) (b : ℕ) → be_value acc (xs ++ b ∷ []) ≡ be_value acc xs * 256 + b
unfolding be_value
be_value-append acc [] b = refl
be_value-append acc (x ∷ xs) b = be_value-append (acc * 256 + x) xs b

be_value-be_bytes : (n x : ℕ) → x < 256 ^ n → be_value 0 (be_bytes n x) ≡ x
unfolding be_bytes
be_value-be_bytes zero x h = unfold be_value in omega arith
be_value-be_bytes (suc n) x h = omega (
  arith,
  be_value-append 0 (be_bytes n (x / 256)) (x % 256),
  be_value-be_bytes n (x / 256) (omega (arith, pow-suc 256 n)),
)

pub length-u64_to_be : (x : ℕ) → length (u64_to_be x) ≡ 8
length-u64_to_be x = unfold u64_to_be in length-be_bytes 8 x

pub u64_from_be-u64_to_be : (x : ℕ) → x < 2 ^ 64 → u64_from_be (u64_to_be x) ≡ x
u64_from_be-u64_to_be x h = unfold u64_to_be u64_from_be in be_value-be_bytes 8 x h

be_bytes-IsByte : (n x : ℕ) → All IsByte (be_bytes n x)
unfolding be_bytes
be_bytes-IsByte zero x = tt
be_bytes-IsByte (suc n) x = join (be_bytes n (x / 256)) (be_bytes-IsByte n (x / 256))
  where
    join : (bs : Bytes) → All IsByte bs → All IsByte (bs ++ x % 256 ∷ [])
    join [] h = (omega arith, tt)
    join (b ∷ bs) (hb, h) = (hb, join bs h)

pub u64_to_be-IsByte : (x : ℕ) → All IsByte (u64_to_be x)
u64_to_be-IsByte x = unfold u64_to_be in be_bytes-IsByte 8 x

-- Two numbers have the same bytes just when they are equal.
pub bytes_eq-u64_to_be :
    (x y : ℕ) → x < 2 ^ 64 → y < 2 ^ 64 → bytes_eq (u64_to_be x) (u64_to_be y) ≡ (x == y)
bytes_eq-u64_to_be x y hx hy = ground (
  arith,
  bytes_eq_iff (u64_to_be x) (u64_to_be y),
  u64_from_be-u64_to_be x hx,
  u64_from_be-u64_to_be y hy,
)
