-- ===== src/Temporal/Between/Numbers.antt =====
-- temporal.rs: how `add_months_to_date` and `month_diff` count months.
use graphdblite.Base.{ℕ, ◌+◌, ◌<◌, ◌≤◌, ◌≡◌, arith}
use graphdblite.Base.Int.{
  ℤ, pos, negsuc, pos_part, neg_part, ◌+ℤ◌, ◌-ℤ◌, +ℤ_parts, -ℤ_parts, eq_of_parts,
}
use graphdblite.Temporal.Parse.{times}
use graphdblite.Temporal.Between.Values.{div_euclid, rem_euclid, wrap_i32}

-- The months since the first of the year 0.
abbrev pub month_number : ℤ → ℕ → ℤ
month_number y m = times y 12 +ℤ (pos m -ℤ pos 1)

-- A month of the years -262143 to 262141.
abbrev pub IsMonth : ℤ → Type 0
IsMonth z = (neg_part z ≤ 3145716) × (pos_part z ≤ 3145703)

pub times-sub : (y z : ℤ) → times (y -ℤ z) 12 ≡ times y 12 -ℤ times z 12
times-sub (pos a) (pos b) = ground arith
times-sub (pos a) (negsuc b) = ground arith
times-sub (negsuc a) (pos b) = ground arith
times-sub (negsuc a) (negsuc b) = ground arith

pub months_regroup :
    (a b : ℤ) (m1 m2 : ℕ)
    → (a +ℤ (pos m1 -ℤ pos 1)) +ℤ (((b -ℤ a) +ℤ pos m2) -ℤ pos m1) ≡ b +ℤ (pos m2 -ℤ pos 1)
months_regroup a b m1 m2 =
    let s = pos m1 -ℤ pos 1 in
    let t = pos m2 -ℤ pos 1 in
    let u = b -ℤ a in
    let v = u +ℤ pos m2 in
    let w = v -ℤ pos m1 in
    eq_of_parts ((a +ℤ s) +ℤ w) (b +ℤ t) (
      omega (
        arith,
        +ℤ_parts (a +ℤ s) w,
        +ℤ_parts a s,
        -ℤ_parts (pos m1) (pos 1),
        -ℤ_parts v (pos m1),
        +ℤ_parts u (pos m2),
        -ℤ_parts b a,
        +ℤ_parts b t,
        -ℤ_parts (pos m2) (pos 1),
      ))

pub month_number-diff :
    (y1 y2 : ℤ) (m1 m2 : ℕ)
    → month_number y1 m1 +ℤ (times (y2 -ℤ y1) 12 +ℤ pos m2 -ℤ pos m1) ≡ month_number y2 m2
month_number-diff y1 y2 m1 m2 =
    rw (times-sub y2 y1) (months_regroup (times y1 12) (times y2 12) m1 m2)

pub wrap_i32-small : (z : ℤ) → pos_part z ≤ 0x7fffffff → neg_part z ≤ 0x80000000 → wrap_i32 z ≡ z
wrap_i32-small (pos n) h k = ground arith
wrap_i32-small (negsuc n) h k = ground arith

pub div_euclid-bounds :
    (z : ℤ)
    → IsMonth z
    → (pos_part (div_euclid z 12) ≤ 262141) × (neg_part (div_euclid z 12) ≤ 262143)
div_euclid-bounds (pos n) (h, k) = (omega arith, omega arith)
div_euclid-bounds (negsuc n) (h, k) = (omega arith, omega arith)

pub rem_euclid-below : (z : ℤ) → rem_euclid z 12 < 12
rem_euclid-below (pos n) = omega arith
rem_euclid-below (negsuc n) = omega arith

pub month_number-IsMonth :
    (y : ℤ) (m : ℕ)
    → pos_part y ≤ 262141
    → neg_part y ≤ 262143
    → 1 ≤ m
    → m ≤ 12
    → IsMonth (month_number y m)
month_number-IsMonth (pos a) m h k l n = ground arith
month_number-IsMonth (negsuc a) m h k l n = ground arith

pub month_number-div_rem : (z : ℤ) → month_number (div_euclid z 12) (rem_euclid z 12 + 1) ≡ z
month_number-div_rem (pos n) = ground arith
month_number-div_rem (negsuc n) = ground arith

pub next_year-bounds :
    (y : ℤ)
    → pos_part y ≤ 262141
    → neg_part y ≤ 262143
    → (pos_part (y +ℤ pos 1) ≤ 262142) × (neg_part (y +ℤ pos 1) ≤ 262143)
next_year-bounds (pos n) h k = ground arith
next_year-bounds (negsuc n) h k = ground arith

pub month_number-parts :
    (y : ℤ) (m : ℕ)
    → 1 ≤ m
    → m ≤ 12
    → (div_euclid (month_number y m) 12 ≡ y) × (rem_euclid (month_number y m) 12 + 1 ≡ m)
month_number-parts (pos a) m h k = ground arith
month_number-parts (negsuc a) m h k = ground arith

pub add_none : (z : ℤ) → z +ℤ pos 0 ≡ z
add_none (pos n) = ground arith
add_none (negsuc n) = ground arith
