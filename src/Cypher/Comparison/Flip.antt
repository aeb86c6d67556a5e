-- ===== src/Cypher/Comparison/Flip.antt =====
-- Comparing in the other order gives the opposite.
use graphdblite.Base.{
  ℕ, Bool, true, false, ◌&&◌, ◌||◌, ◌≡◌, refl, Option, none, some, [], ◌∷◌, arith, Bytes,
}
use graphdblite.Base.Int.{ℤ}
use graphdblite.Types.Value.{
  Value, null, bool, i64, f64, string, list, node, edge, path, map, date, local_time, time,
  local_date_time, date_time, duration, Values, no_values, value,
}
use graphdblite.Cypher.Comparison.{
  Scalars, Ordering, less, equal, greater, cmp_nat, cmp_int, cmp_string, cmp_bool, or_then,
  cmp_time, cmp_date_time, count_values, compare_to_value, is_null_value, compared, is_numeric,
  compare_values, compare_lists,
}

abbrev pub flip : Ordering → Ordering
flip less = greater
flip equal = equal
flip greater = less

abbrev pub flip_option : Option Ordering → Option Ordering
flip_option none = none
flip_option (some o) = some (flip o)

flip-flip : (o : Ordering) → flip (flip o) ≡ o
flip-flip less = refl
flip-flip equal = refl
flip-flip greater = refl

pub cmp_nat-flip : (a b : ℕ) → cmp_nat b a ≡ flip (cmp_nat a b)
cmp_nat-flip a b = ground arith

pub cmp_int-flip : (a b : ℤ) → cmp_int b a ≡ flip (cmp_int a b)
cmp_int-flip (ℤ.pos a) (ℤ.pos b) = ground arith
cmp_int-flip (ℤ.pos a) (ℤ.negsuc b) = ground arith
cmp_int-flip (ℤ.negsuc a) (ℤ.pos b) = ground arith
cmp_int-flip (ℤ.negsuc a) (ℤ.negsuc b) = ground arith

pub cmp_string-flip : (a b : Bytes) → cmp_string b a ≡ flip (cmp_string a b)
cmp_string-flip [] [] = refl
cmp_string-flip [] (y ∷ ys) = refl
cmp_string-flip (x ∷ xs) [] = refl
cmp_string-flip (x ∷ xs) (y ∷ ys) = ground (arith, cmp_string-flip xs ys)

pub cmp_bool-flip : (a b : Bool) → cmp_bool b a ≡ flip (cmp_bool a b)
cmp_bool-flip false false = refl
cmp_bool-flip false true = refl
cmp_bool-flip true false = refl
cmp_bool-flip true true = refl

pub or_then-flip : (p q : Ordering) → or_then (flip p) (flip q) ≡ flip (or_then p q)
or_then-flip less q = refl
or_then-flip equal q = refl
or_then-flip greater q = refl

pub cmp_time-flip : (a b : ℕ × ℕ) → cmp_time b a ≡ flip (cmp_time a b)
cmp_time-flip (s, n) (s', n') =
    rw (cmp_nat-flip s s', cmp_nat-flip n n') (or_then-flip (cmp_nat s s') (cmp_nat n n'))

pub cmp_date_time-flip : (a b : ℤ × ℕ × ℕ) → cmp_date_time b a ≡ flip (cmp_date_time a b)
cmp_date_time-flip (d, s, n) (d', s', n') =
    rw (cmp_int-flip d d', cmp_time-flip (s, n) (s', n'))
      (or_then-flip (cmp_int d d') (cmp_time (s, n) (s', n')))

-- `partial_cmp` of floats: the other order gives the opposite, and nothing where there was nothing.
abbrev pub IsFlipped : Scalars → Type 0
IsFlipped F = (x y : ℕ) → F.float_cmp y x ≡ flip_option (F.float_cmp x y)

module _ (F : Scalars) (floats : IsFlipped F) where
  head-flip :
      (p q : Option Ordering) (r r' : Option Ordering)
      → q ≡ flip_option p
      → r' ≡ flip_option r
      → (elim q [
        | some equal ↦ r'
        | some less ↦ some less
        | some greater ↦ some greater
        | none ↦ none
      ])
        ≡ flip_option (elim p [
          | some equal ↦ r
          | some less ↦ some less
          | some greater ↦ some greater
          | none ↦ none
        ])
  head-flip none q r r' e e' = rw e refl
  head-flip (some less) q r r' e e' = rw e refl
  head-flip (some equal) q r r' e e' = rw e e'
  head-flip (some greater) q r r' e e' = rw e refl

  mutual
    unfolding compare_values compare_lists

    pub compare_values-flip :
        (a b : Value) → compare_values F b a ≡ flip_option (compare_values F a b)
    compare_values-flip (bool a) (bool b) = rw (cmp_bool-flip a b) refl
    compare_values-flip (i64 a) (i64 b) = rw (cmp_int-flip a b) refl
    compare_values-flip (f64 a) (f64 b) = floats a b
    compare_values-flip (i64 a) (f64 b) = floats (F.of_i64 a) b
    compare_values-flip (f64 a) (i64 b) = floats a (F.of_i64 b)
    compare_values-flip (string a) (string b) = rw (cmp_string-flip a b) refl
    compare_values-flip (date a) (date b) = rw (cmp_int-flip a b) refl
    compare_values-flip (local_time s n) (local_time s' n') =
        rw (cmp_time-flip (s, n) (s', n')) refl
    compare_values-flip (time s n o) (time s' n' o') =
        rw (cmp_time-flip (F.time_utc s n o) (F.time_utc s' n' o')) refl
    compare_values-flip (local_date_time d s n) (local_date_time d' s' n') =
        rw (cmp_date_time-flip (d, s, n) (d', s', n')) refl
    compare_values-flip (date_time d s n o z) (date_time d' s' n' o' z') =
        rw (cmp_date_time-flip (F.date_time_utc d s n o) (F.date_time_utc d' s' n' o')) refl
    compare_values-flip (list a) (list b) = compare_lists-flip a b
    compare_values-flip null null = refl
    compare_values-flip (map a) null = refl
    compare_values-flip (node i ls ps) null = refl
    compare_values-flip (edge s d l ps) null = refl
    compare_values-flip (path ns es) null = refl
    compare_values-flip (duration m d s n) null = refl
    compare_values-flip a b = refl

    compare_lists-flip : (a b : Values) → compare_lists F b a ≡ flip_option (compare_lists F a b)
    compare_lists-flip (value v vs) (value w ws) =
        head-flip (compare_values F v w) (compare_values F w v) (compare_lists F vs ws)
          (compare_lists F ws vs) (compare_values-flip v w) (compare_lists-flip vs ws)
    compare_lists-flip no_values no_values = refl
    compare_lists-flip a b = rw (cmp_nat-flip (count_values a) (count_values b)) refl

  compared-flip :
      (numeric : Bool) (o : Option Ordering) (pred : Ordering → Bool)
      → compared F numeric (flip_option o) (λ x. pred (flip x)) ≡ compared F numeric o pred
  compared-flip numeric (some ord) pred = rw (flip-flip ord) refl
  compared-flip true none pred = refl
  compared-flip false none pred = refl

  -- Where the comparison of floats turns around with its operands, a comparison of values holds, fails
  -- or is null as the opposite comparison of the values in the other order.
  pub compare_to_value-flip :
      (a b : Value) (pred : Ordering → Bool)
      → compare_to_value F b a (λ o. pred (flip o)) ≡ compare_to_value F a b pred
  unfolding compare_to_value
  compare_to_value-flip a b pred =
      let nulls : (is_null_value F b || is_null_value F a)
          ≡ (is_null_value F a || is_null_value F b) =
        ground arith in
      let numbers : (is_numeric F b && is_numeric F a) ≡ (is_numeric F a && is_numeric F b) =
        ground arith in
      rw
        (
          nulls,
          numbers,
          compare_values-flip a b,
          compared-flip (is_numeric F a && is_numeric F b) (compare_values F a b) pred,
        )
        refl
