-- ===== src/Storage/Kv/Prefix.antt =====
-- `prefix_upper_bound` bounds exactly the keys with the prefix.
use mathlib.Core.Option
use mathlib.Core.List.{reverse, reverse-append, reverse-cons}
use graphdblite.Base.{
  ℕ, ◌+◌, ◌≡◌, refl, ap, inl, inr, Option, none, some, [], ◌∷◌, ◌++◌, arith, ltb, if◌then◌else◌,
  Bytes, IsByte, All, starts_with, Bool-cases,
}
use graphdblite.Storage.Sql.{in_range}
use graphdblite.Storage.Kv.{raise_last, prefix_upper_bound}

-- The same bound from the front: that of the rest goes first, else this byte is the last one.
abbrev pub bound_before : ℕ → Option Bytes → Option Bytes
bound_before b (some upper) = some (b ∷ upper)
bound_before b none = if ltb b 0xff then some ((b + 1) ∷ []) else none

abbrev pub upper_bound : Bytes → Option Bytes
upper_bound [] = none
upper_bound (b ∷ bs) = bound_before b (upper_bound bs)

abbrev raised_behind : Option Bytes → ℕ → Option Bytes
raised_behind (some u) b = some (u ++ b ∷ [])
raised_behind none b = if ltb b 0xff then some ((b + 1) ∷ []) else none

raise_last-append :
    (xs : Bytes) (b : ℕ) → raise_last (xs ++ b ∷ []) ≡ raised_behind (raise_last xs) b
unfolding raise_last
raise_last-append [] b = refl
raise_last-append (x ∷ xs) b = ground (arith, raise_last-append xs b)

reverse_behind :
    (o : Option Bytes) (b : ℕ)
    → Option.map reverse (raised_behind o b) ≡ bound_before b (Option.map reverse o)
reverse_behind none b = elim (Bool-cases (ltb b 0xff)) [ inl e ↦ rw e | inr e ↦ rw e ]
reverse_behind (some u) b = ap some (reverse-append u (b ∷ []))

pub upper_bound_lem : (prefix : Bytes) → prefix_upper_bound prefix ≡ upper_bound prefix
unfolding prefix_upper_bound
upper_bound_lem [] = refl
upper_bound_lem (b ∷ bs) =
    rw (reverse-cons, raise_last-append, reverse_behind, ← upper_bound_lem bs)

range_lem :
    (prefix key : Bytes)
    → All IsByte prefix
    → All IsByte key
    → in_range prefix (upper_bound prefix) key ≡ starts_with prefix key
range_lem [] key hp hk = refl
range_lem (b ∷ bs) [] hp hk = ground arith
range_lem (b ∷ bs) (k ∷ ks) (hb, hp) (hk, hks) = ground (arith, range_lem bs ks hp hks)

-- A key of bytes lies in the scanned range exactly when it starts with the prefix.
pub in_range-prefix_upper_bound :
    (prefix key : Bytes)
    → All IsByte prefix
    → All IsByte key
    → in_range prefix (prefix_upper_bound prefix) key ≡ starts_with prefix key
in_range-prefix_upper_bound prefix key hp hk =
    rw (upper_bound_lem prefix) (range_lem prefix key hp hk)
