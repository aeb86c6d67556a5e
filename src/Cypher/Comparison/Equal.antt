-- ===== src/Cypher/Comparison/Equal.antt =====
-- Values that compare as equal are equal.
use graphdblite.Base.{
  ℕ, ◌+◌, Bool, true, false, ◌&&◌, ◌≡◌, refl, Option, none, some, ◌==◌, ==_iff, ltb, arith,
  bytes_eq, bytes_lt,
}
use graphdblite.Base.Int.{int_eq, ltb_ℤ}
use graphdblite.Types.Value.{
  Value, null, bool, i64, f64, string, list, node, edge, path, map, date, local_time, time,
  local_date_time, date_time, duration, Values, no_values, value, value_eq, bool_eq,
}
use graphdblite.Cypher.Comparison.{
  Scalars, Ordering, less, equal, greater, ordering_of, cmp_nat, cmp_int, cmp_string, cmp_bool,
  or_then, cmp_time, cmp_date_time, count_values, compare_values, compare_lists, values_equal,
  lists_loop,
}

-- No time with an offset, at any depth of lists.
unfoldable mutual
  pub IsUnzoned : Value → Type 0
  IsUnzoned (time s n o) = ⊥
  IsUnzoned (date_time d s n o z) = ⊥
  IsUnzoned (list vs) = AllUnzoned vs
  IsUnzoned v = Unit {0}

  pub AllUnzoned : Values → Type 0
  AllUnzoned no_values = Unit {0}
  AllUnzoned (value v vs) = IsUnzoned v × AllUnzoned vs

-- Floats that compare as equal are equal.
abbrev pub IsReflected : Scalars → Type 0
IsReflected F = (x y : ℕ) → F.float_cmp x y ≡ some equal → F.float_eq x y ≡ true

some-equal : (o : Ordering) → Option.some o ≡ some equal → o ≡ equal
some-equal o h = cc

ordering_of-equal : (l e : Bool) → ordering_of l e ≡ equal → e ≡ true
ordering_of-equal true e h = cc
ordering_of-equal false true h = refl
ordering_of-equal false false h = cc

cmp_bool-equal : (a b : Bool) → cmp_bool a b ≡ equal → bool_eq a b ≡ true
cmp_bool-equal a b h = ground arith

or_then-equal : (p q : Ordering) → or_then p q ≡ equal → (p ≡ equal) × (q ≡ equal)
or_then-equal less q h = cc
or_then-equal equal q h = (refl, h)
or_then-equal greater q h = cc

cmp_time-equal :
    (s n s' n' : ℕ) → cmp_time (s, n) (s', n') ≡ equal → ((s == s') && (n == n')) ≡ true
cmp_time-equal s n s' n' h =
    let (a, b) = or_then-equal (cmp_nat s s') (cmp_nat n n') h in
    rw (ordering_of-equal (ltb s s') (s == s') a) (ordering_of-equal (ltb n n') (n == n') b)

pub cmp_nat-equal : (a b : ℕ) → some (cmp_nat a b) ≡ some equal → a ≡ b
cmp_nat-equal a b h =
    (==_iff a b).0 (ordering_of-equal (ltb a b) (a == b) (some-equal (cmp_nat a b) h))

module _ (F : Scalars) (floats : IsReflected F) where
  head-equal :
      (p r : Option Ordering)
      → (elim p [
        | some equal ↦ r
        | some less ↦ some less
        | some greater ↦ some greater
        | none ↦ none
      ])
        ≡ some equal
      → (p ≡ some equal) × (r ≡ some equal)
  head-equal none r h = cc
  head-equal (some less) r h = cc
  head-equal (some equal) r h = (refl, h)
  head-equal (some greater) r h = cc

  mutual
    unfolding compare_values compare_lists values_equal lists_loop value_eq IsUnzoned AllUnzoned

    compare_values-equal :
        (a b : Value)
        → IsUnzoned a
        → compare_values F a b ≡ some equal
        → values_equal F a b ≡ bool true
    compare_values-equal (bool a) (bool b) u h =
        rw (cmp_bool-equal a b (some-equal (cmp_bool a b) h)) refl
    compare_values-equal (i64 a) (i64 b) u h =
        rw (ordering_of-equal (ltb_ℤ a b) (int_eq a b) (some-equal (cmp_int a b) h)) refl
    compare_values-equal (f64 a) (f64 b) u h = rw (floats a b h) refl
    compare_values-equal (i64 a) (f64 b) u h = rw (floats (F.of_i64 a) b h) refl
    compare_values-equal (f64 a) (i64 b) u h = rw (floats a (F.of_i64 b) h) refl
    compare_values-equal (string a) (string b) u h =
        rw (ordering_of-equal (bytes_lt a b) (bytes_eq a b) (some-equal (cmp_string a b) h)) refl
    compare_values-equal (date a) (date b) u h =
        rw (ordering_of-equal (ltb_ℤ a b) (int_eq a b) (some-equal (cmp_int a b) h)) refl
    compare_values-equal (local_time s n) (local_time s' n') u h =
        rw (cmp_time-equal s n s' n' (some-equal (cmp_time (s, n) (s', n')) h)) refl
    compare_values-equal (local_date_time d s n) (local_date_time d' s' n') u h =
        let (a, b) =
          or_then-equal (cmp_int d d') (cmp_time (s, n) (s', n'))
            (some-equal (cmp_date_time (d, s, n) (d', s', n')) h) in
        rw (ordering_of-equal (ltb_ℤ d d') (int_eq d d') a, cmp_time-equal s n s' n' b) refl
    compare_values-equal (list a) (list b) u h =
        let (n, e) = compare_lists-equal a b u h in
        rw ((==_iff (count_values a) (count_values b)).1 n, e) refl
    compare_values-equal (time s n o) b u h = elim u [ ]
    compare_values-equal (date_time d s n o z) b u h = elim u [ ]
    compare_values-equal null null u h = cc
    compare_values-equal (map a) null u h = cc
    compare_values-equal (node i ls ps) null u h = cc
    compare_values-equal (edge s d l ps) null u h = cc
    compare_values-equal (path ns es) null u h = cc
    compare_values-equal (duration m d s n) null u h = cc
    compare_values-equal a b u h = cc

    compare_lists-equal :
        (a b : Values)
        → AllUnzoned a
        → compare_lists F a b ≡ some equal
        → (count_values a ≡ count_values b) × (lists_loop F false a b ≡ bool true)
    compare_lists-equal (value v vs) (value w ws) (u, us) h =
        let (first, rest) = head-equal (compare_values F v w) (compare_lists F vs ws) h in
        let (n, e) = compare_lists-equal vs ws us rest in
        (omega (arith, n), rw (compare_values-equal v w u first, e) refl)
    compare_lists-equal no_values no_values u h = (refl, refl)
    compare_lists-equal no_values (value w ws) u h =
        absurd (omega (arith, cmp_nat-equal 0 (1 + count_values ws) h))
    compare_lists-equal (value v vs) no_values u h =
        absurd (omega (arith, cmp_nat-equal (1 + count_values vs) 0 h))

  -- Where floats that compare as equal are equal, two values of which the first holds no time with an
  -- offset are equal when they compare as equal.
  pub compare_values_lem :
      (a b : Value)
      → IsUnzoned a
      → compare_values F a b ≡ some equal
      → values_equal F a b ≡ bool true
  compare_values_lem a b u h = compare_values-equal a b u h
