-- ===== src/Cypher/Comparison/Sort.antt =====
-- cypher/executor/util.rs: the order by which ORDER BY sorts, which compares any two values.
use graphdblite.Base.{ℕ, Bool, true, false, Option, none, some, if◌then◌else◌, ◌≡◌, refl}
use graphdblite.Types.Value.{
  Value, null, bool, i64, f64, string, list, node, edge, path, map, date, local_time, time,
  local_date_time, date_time, duration, Values, no_values, value,
}
use graphdblite.Base.Int.{ℤ}
use graphdblite.Cypher.Comparison.{
  Scalars, Ordering, less, equal, greater, cmp_nat, cmp_int, cmp_string, cmp_bool, or_then,
  cmp_time, cmp_date_time, count_values,
}
use graphdblite.Cypher.Comparison.Flip.{
  flip, flip_option, IsFlipped, cmp_nat-flip, cmp_int-flip, cmp_string-flip, cmp_bool-flip,
  cmp_time-flip, cmp_date_time-flip, or_then-flip,
}

abbrev pub type_rank : Value → ℕ
type_rank (map fs) = 0
type_rank (node i ls ps) = 1
type_rank (edge s d l ps) = 2
type_rank (list vs) = 3
type_rank (path ns es) = 4
type_rank (string s) = 5
type_rank (bool b) = 6
type_rank (i64 n) = 7
type_rank (f64 x) = 7
type_rank null = 8
type_rank (date d) = 7
type_rank (local_time s n) = 7
type_rank (time s n o) = 7
type_rank (local_date_time d s n) = 7
type_rank (date_time d s n o z) = 7
type_rank (duration m d s n) = 7

abbrev or_equal : Option Ordering → Ordering
or_equal none = equal
or_equal (some o) = o

-- Whether each is not a number, and how they compare.
abbrev sort_floats : Bool → Bool → Option Ordering → Ordering
sort_floats true true o = equal
sort_floats true false o = greater
sort_floats false true o = less
sort_floats false false o = or_equal o

abbrev cmp_duration : ℤ → ℤ → ℤ → ℤ → ℤ → ℤ → ℤ → ℤ → Ordering
cmp_duration m d s n m' d' s' n' =
    or_then (or_then (or_then (cmp_int m m') (cmp_int d d')) (cmp_int s s')) (cmp_int n n')

module _ (F : Scalars) where
  unfoldable mutual
    pub compare_values_for_sort : Value → Value → Ordering
    compare_values_for_sort (bool a) (bool b) = cmp_bool a b
    compare_values_for_sort (i64 a) (i64 b) = cmp_int a b
    compare_values_for_sort (f64 a) (f64 b) =
        sort_floats (F.is_nan a) (F.is_nan b) (F.float_cmp a b)
    compare_values_for_sort (i64 a) (f64 b) =
        if F.is_nan b then less else or_equal (F.float_cmp (F.of_i64 a) b)
    compare_values_for_sort (f64 a) (i64 b) =
        if F.is_nan a then greater else or_equal (F.float_cmp a (F.of_i64 b))
    compare_values_for_sort (string a) (string b) = cmp_string a b
    compare_values_for_sort (list a) (list b) = sort_lists a b
    compare_values_for_sort (date a) (date b) = cmp_int a b
    compare_values_for_sort (local_time s n) (local_time s' n') = cmp_time (s, n) (s', n')
    compare_values_for_sort (time s n o) (time s' n' o') =
        cmp_time (F.time_utc s n o) (F.time_utc s' n' o')
    compare_values_for_sort (local_date_time d s n) (local_date_time d' s' n') =
        cmp_date_time (d, s, n) (d', s', n')
    compare_values_for_sort (date_time d s n o z) (date_time d' s' n' o' z') =
        cmp_date_time (F.date_time_utc d s n o) (F.date_time_utc d' s' n' o')
    compare_values_for_sort (duration m d s n) (duration m' d' s' n') =
        cmp_duration m d s n m' d' s' n'
    compare_values_for_sort a b = cmp_nat (type_rank a) (type_rank b)

    -- The lengths decide when one list has run out.
    pub sort_lists : Values → Values → Ordering
    sort_lists (value v vs) (value w ws) = or_then (compare_values_for_sort v w) (sort_lists vs ws)
    sort_lists a b = cmp_nat (count_values a) (count_values b)

or_equal-flip : (o : Option Ordering) → or_equal (flip_option o) ≡ flip (or_equal o)
or_equal-flip none = refl
or_equal-flip (some o) = refl

sort_floats-flip :
    (m n : Bool) (o : Option Ordering) → sort_floats n m (flip_option o) ≡ flip (sort_floats m n o)
sort_floats-flip true true o = refl
sort_floats-flip true false o = refl
sort_floats-flip false true o = refl
sort_floats-flip false false o = or_equal-flip o

cmp_duration-flip :
    (m d s n m' d' s' n' : ℤ)
    → cmp_duration m' d' s' n' m d s n ≡ flip (cmp_duration m d s n m' d' s' n')
cmp_duration-flip m d s n m' d' s' n' =
    let days = or_then-flip (cmp_int m m') (cmp_int d d') in
    let seconds = or_then-flip (or_then (cmp_int m m') (cmp_int d d')) (cmp_int s s') in
    rw (cmp_int-flip m m', cmp_int-flip d d', cmp_int-flip s s', cmp_int-flip n n', days, seconds)
      (or_then-flip (or_then (or_then (cmp_int m m') (cmp_int d d')) (cmp_int s s')) (cmp_int n n'))

module _ (F : Scalars) (floats : IsFlipped F) where
  mixed-flip :
      (nan : Bool) (o : Option Ordering) (q : Option Ordering)
      → q ≡ flip_option o
      → (if nan then greater else or_equal q) ≡ flip (if nan then less else or_equal o)
  mixed-flip true o q e = refl
  mixed-flip false o q e = rw e (or_equal-flip o)

  mixed-flip_back :
      (nan : Bool) (o : Option Ordering) (q : Option Ordering)
      → q ≡ flip_option o
      → (if nan then less else or_equal q) ≡ flip (if nan then greater else or_equal o)
  mixed-flip_back true o q e = refl
  mixed-flip_back false o q e = rw e (or_equal-flip o)

  mutual
    unfolding compare_values_for_sort sort_lists

    sort-flip : (a b : Value) → compare_values_for_sort F b a ≡ flip (compare_values_for_sort F a b)
    sort-flip (bool a) (bool b) = cmp_bool-flip a b
    sort-flip (i64 a) (i64 b) = cmp_int-flip a b
    sort-flip (f64 a) (f64 b) =
        rw (floats a b) (sort_floats-flip (F.is_nan a) (F.is_nan b) (F.float_cmp a b))
    sort-flip (i64 a) (f64 b) =
        mixed-flip (F.is_nan b) (F.float_cmp (F.of_i64 a) b) (F.float_cmp b (F.of_i64 a))
          (floats (F.of_i64 a) b)
    sort-flip (f64 a) (i64 b) =
        mixed-flip_back (F.is_nan a) (F.float_cmp a (F.of_i64 b)) (F.float_cmp (F.of_i64 b) a)
          (floats a (F.of_i64 b))
    sort-flip (string a) (string b) = cmp_string-flip a b
    sort-flip (list a) (list b) = sort_lists-flip a b
    sort-flip (date a) (date b) = cmp_int-flip a b
    sort-flip (local_time s n) (local_time s' n') = cmp_time-flip (s, n) (s', n')
    sort-flip (time s n o) (time s' n' o') = cmp_time-flip (F.time_utc s n o) (F.time_utc s' n' o')
    sort-flip (local_date_time d s n) (local_date_time d' s' n') =
        cmp_date_time-flip (d, s, n) (d', s', n')
    sort-flip (date_time d s n o z) (date_time d' s' n' o' z') =
        cmp_date_time-flip (F.date_time_utc d s n o) (F.date_time_utc d' s' n' o')
    sort-flip (duration m d s n) (duration m' d' s' n') = cmp_duration-flip m d s n m' d' s' n'
    sort-flip null null = refl
    sort-flip (map a) null = refl
    sort-flip (node i ls ps) null = refl
    sort-flip (edge s d l ps) null = refl
    sort-flip (path ns es) null = refl
    sort-flip a b = cmp_nat-flip (type_rank a) (type_rank b)

    sort_lists-flip : (a b : Values) → sort_lists F b a ≡ flip (sort_lists F a b)
    sort_lists-flip (value v vs) (value w ws) =
        rw (sort-flip v w, sort_lists-flip vs ws)
          (or_then-flip (compare_values_for_sort F v w) (sort_lists F vs ws))
    sort_lists-flip no_values no_values = refl
    sort_lists-flip a b = cmp_nat-flip (count_values a) (count_values b)

  -- Where the comparison of floats turns around with its operands, so does the order of sorting: of two
  -- values, of any types, one sorts before the other exactly when the other sorts after it.
  pub compare_values_for_sort-flip :
      (a b : Value) → compare_values_for_sort F b a ≡ flip (compare_values_for_sort F a b)
  compare_values_for_sort-flip a b = sort-flip a b
