-- ===== src/Checks/Comparisons.antt =====
-- Comparisons of small values, with floats that stand for the natural numbers.
use graphdblite.Base.{◌≡◌, refl, Bool, true, false, some, ◌==◌, ==_iff, text}
use graphdblite.Base.Int.{pos, pos_part}
use graphdblite.Types.Value.{Value, null, bool, i64, f64, string, list, date, no_values, value}
use graphdblite.Cypher.Comparison.{
  Scalars, compare_values, Ordering, less, equal, cmp_nat, values_equal, compare_to_value,
}
use graphdblite.Cypher.Comparison.Flip.{IsFlipped, flip, cmp_nat-flip, compare_to_value-flip}
use graphdblite.Cypher.Comparison.Equal.{IsReflected, IsUnzoned, cmp_nat-equal, compare_values_lem}
use graphdblite.Cypher.Comparison.Sort.{compare_values_for_sort, compare_values_for_sort-flip}

abbrev naturals : Scalars
naturals = record {
  of_i64 = λ n. pos_part n;
  is_nan = λ x. false;
  float_eq = λ x y. x == y;
  float_cmp = λ x y. some (cmp_nat x y);
  time_utc = λ s n o. (s, n);
  date_time_utc = λ d s n o. (d, s, n);
}

naturals-IsFlipped : IsFlipped naturals
naturals-IsFlipped x y = rw (cmp_nat-flip x y) refl

abbrev is_less : Ordering → Bool
is_less less = true
is_less o = false

abbrev with_null : Value
with_null = list (value (i64 (pos 1)) (value null no_values))

abbrev one_and_name : Value
one_and_name = list (value (i64 (pos 1)) (value (string (text "a")) no_values))

lists_example : values_equal naturals with_null one_and_name ≡ null
unfolding values_equal
lists_example = refl

compare_to_value-flip_example :
    compare_to_value naturals (f64 2) (i64 (pos 1)) (λ o. is_less (flip o))
    ≡ compare_to_value naturals (i64 (pos 1)) (f64 2) is_less
compare_to_value-flip_example =
    compare_to_value-flip naturals naturals-IsFlipped (i64 (pos 1)) (f64 2) is_less

compare_values_for_sort-flip_example :
    compare_values_for_sort naturals (f64 2) (date (pos 1))
    ≡ flip (compare_values_for_sort naturals (date (pos 1)) (f64 2))
compare_values_for_sort-flip_example =
    compare_values_for_sort-flip naturals naturals-IsFlipped (date (pos 1)) (f64 2)

naturals-IsReflected : IsReflected naturals
naturals-IsReflected x y h = (==_iff x y).1 (cmp_nat-equal x y h)

compare_values_lem_example :
    values_equal naturals (list (value (f64 2) no_values)) (list (value (i64 (pos 2)) no_values))
    ≡ bool true
unfolding compare_values IsUnzoned
compare_values_lem_example =
    compare_values_lem naturals naturals-IsReflected (list (value (f64 2) no_values))
      (list (value (i64 (pos 2)) no_values)) (tt, tt) refl

-- A number sorts with either of two dates, of which one sorts before the other.
not_transitive :
    (compare_values_for_sort naturals (date (pos 1)) (i64 (pos 5)) ≡ equal)
    × (compare_values_for_sort naturals (i64 (pos 5)) (date (pos 2)) ≡ equal)
    × (compare_values_for_sort naturals (date (pos 1)) (date (pos 2)) ≡ less)
unfolding compare_values_for_sort
not_transitive = (refl, refl, refl)
