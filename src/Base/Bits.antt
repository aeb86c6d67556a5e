-- ===== src/Base/Bits.antt =====
-- Masks and joins of bit fields as arithmetic. The native operations stand for a recursion on
-- binary digits with fuel; the fuel is dropped first.
use Prim.Native.Nat.{
  ℕ, zero, suc, ◌+◌, ◌*◌, ◌/◌, ◌%◌, ◌^◌, ◌≤◌, ◌<◌, min, max, bit_and, bit_or, digits,
  bit_and-bitwise, bit_or-bitwise,
}
use mathlib.Core.Path.{◌≡◌, refl, ap}
use mathlib.Core.Bool.{Bool, true, ◌&&◌}
use native.Mathlib.Omega.{arith}
use native.Mathlib.Nat.{pow-suc}
use graphdblite.Base.Tests.{◌==◌}

module _ (z : ℕ → ℕ) (f : ℕ → ℕ → ℕ) where
  -- Any two fuels of at least the number itself give the same digits.
  any_fuel : (a b fuel more : ℕ) → a ≤ more → a ≤ fuel → digits z f fuel a b ≡ digits z f more a b
  any_fuel (suc a) b zero more below below' = absurd (omega arith)
  any_fuel (suc a) b (suc fuel) zero below below' = absurd (omega arith)
  any_fuel (suc a) b (suc fuel) (suc more) below below' =
      let half = any_fuel (suc a / 2) (b / 2) fuel more (omega arith) (omega arith) in rw half
  any_fuel zero b zero zero below below' = refl
  any_fuel zero b (suc fuel) zero below below' = refl
  any_fuel zero b zero (suc more) below below' = refl
  any_fuel zero b (suc fuel) (suc more) below below' = refl

  digits-suc :
      (a b : ℕ)
      → digits z f (suc a) (suc a) b
        ≡ digits z f (suc a / 2) (suc a / 2) (b / 2) * 2 + f (suc a % 2) (b % 2)
  digits-suc a b =
      let halved = any_fuel (suc a / 2) (b / 2) a (suc a / 2) (omega arith) (omega arith) in
      omega (arith, halved)

join_halves : (x y : ℕ) → max (x % 2) (y % 2) + 2 * bit_or (x / 2) (y / 2) ≡ bit_or x y
join_halves zero y = simp bit_or-bitwise (omega arith)
join_halves (suc x) y = simp bit_or-bitwise (omega (arith, digits-suc (λ d. d) max x y))

mask_halves :
    (mask x : ℕ) → min (x % 2) (mask % 2) + 2 * bit_and (x / 2) (mask / 2) ≡ bit_and x mask
mask_halves mask zero = simp bit_and-bitwise (omega arith)
mask_halves mask (suc x) = simp bit_and-bitwise (omega (arith, digits-suc (λ d. 0) min x mask))

zero-bit_or : (b : ℕ) → bit_or 0 b ≡ b
zero-bit_or b = simp bit_or-bitwise refl

bit_or-small : (v b : ℕ) → v < 1 → bit_or v b ≡ v + b
bit_or-small zero b h = omega (arith, zero-bit_or b)
bit_or-small (suc v) b h = absurd (omega arith)

bit_and-zero_bounded : (n a : ℕ) → a ≤ n → bit_and a 0 ≡ 0
bit_and-zero_bounded n zero h = refl
bit_and-zero_bounded zero (suc a) h = absurd (omega arith)
bit_and-zero_bounded (suc n) (suc a) h =
    omega (arith, mask_halves 0 (suc a), bit_and-zero_bounded n (suc a / 2) (omega arith))

-- Joining a high field to `v` is a sum when `v` fits the `k` bits below it.
pub bit_or_high : (k v q : ℕ) → v < 2 ^ k → bit_or v (q * 2 ^ k) ≡ v + q * 2 ^ k
bit_or_high zero v q h = bit_or-small v (q * 1) h
bit_or_high (suc k) v q h = ground (
  arith,
  join_halves v (q * 2 ^ suc k),
  ap (λ (t : ℕ). q * t) (pow-suc 2 k),
  pow-suc 2 k,
  bit_or_high k (v / 2) q,
)

-- A mask of ones is a remainder.
mask_1 : (a : ℕ) → bit_and a 1 ≡ a % 2
mask_1 a = omega (arith, mask_halves 1 a, bit_and-zero_bounded (a / 2) (a / 2) (omega arith))

mask_2 : (a : ℕ) → bit_and a 3 ≡ a % 4
mask_2 a = omega (arith, mask_halves 3 a, mask_1 (a / 2))

mask_3 : (a : ℕ) → bit_and a 7 ≡ a % 8
mask_3 a = omega (arith, mask_halves 7 a, mask_2 (a / 2))

mask_4 : (a : ℕ) → bit_and a 15 ≡ a % 16
mask_4 a = omega (arith, mask_halves 15 a, mask_3 (a / 2))

mask_5 : (a : ℕ) → bit_and a 31 ≡ a % 32
mask_5 a = omega (arith, mask_halves 31 a, mask_4 (a / 2))

mask_6 : (a : ℕ) → bit_and a 63 ≡ a % 64
mask_6 a = omega (arith, mask_halves 63 a, mask_5 (a / 2))

pub bit_and_low7 : (a : ℕ) → bit_and a 0x7f ≡ a % 128
bit_and_low7 a = omega (arith, mask_halves 127 a, mask_6 (a / 2))

-- The continuation bit of a byte.
pub bit_or_top : (a : ℕ) → a < 128 → bit_or a 0x80 ≡ a + 128
bit_or_top a h = bit_or_high 7 a 1 h

-- Two functions that agree below a bound, checked by evaluation.
same_below : ℕ → (ℕ → ℕ) → (ℕ → ℕ) → Bool
same_below zero f g = true
same_below (suc n) f g = f n == g n && same_below n f g

same_below_sound : (n : ℕ) (f g : ℕ → ℕ) (a : ℕ) → same_below n f g ≡ true → a < n → f a ≡ g a
unfolding same_below
same_below_sound zero f g a h lt = absurd (omega arith)
same_below_sound (suc n) f g a h lt = ground (arith, same_below_sound n f g a)

pub bit_and_top : (a : ℕ) → a < 256 → bit_and a 0x80 ≡ a / 128 * 128
unfolding same_below
bit_and_top a h = same_below_sound 256 (λ b. bit_and b 0x80) (λ b. b / 128 * 128) a refl h
