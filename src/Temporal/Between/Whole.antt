-- ===== src/Temporal/Between/Whole.antt =====
-- temporal.rs: `month_diff` counts the whole months between two dates, and `duration_between` adds up.
use graphdblite.Base.{◌+◌, true, false, ◌≡◌, refl, sym, ap, subst, Bool-cases, inl, inr, arith}
use graphdblite.Base.Int.{
  ℤ, pos, negsuc, pos_part, neg_part, ◌+ℤ◌, ◌-ℤ◌, ltb_ℤ, +ℤ_parts, -ℤ_parts, eq_of_parts, ◌<ℤ◌,
  ◌≤ℤ◌,
}
use graphdblite.Temporal.Outcome.{ok}
use graphdblite.Temporal.Parse.{times}
use graphdblite.Temporal.Between.{Calendar, add_months_to_date, month_diff}
use graphdblite.Temporal.Between.Values.{div_euclid, rem_euclid}
use graphdblite.Temporal.Between.Months.{
  CalendarLaws, IsDay, month_after, add_months_to_date_lem, add_months_to_date-zero,
}
use graphdblite.Temporal.Between.Numbers.{
  month_number, IsMonth, month_number-diff, month_number-IsMonth, month_number-div_rem,
}

-- Facts on the numbers of months.
module _ (n1 n2 raw : ℤ) (e : n1 +ℤ raw ≡ n2) where
  not_negative_lem : n1 ≤ℤ n2 → pos 0 ≤ℤ raw
  not_negative_lem h = omega (arith, +ℤ_parts n1 raw, ap pos_part e, ap neg_part e)

  beyond_lem : (k : ℤ) → raw <ℤ k → n2 <ℤ n1 +ℤ k
  beyond_lem k h = omega (arith, +ℤ_parts n1 raw, +ℤ_parts n1 k, ap pos_part e, ap neg_part e)

  short_lem : (k : ℤ) → k <ℤ raw → n1 +ℤ k <ℤ n2
  short_lem k h = omega (arith, +ℤ_parts n1 raw, +ℤ_parts n1 k, ap pos_part e, ap neg_part e)

  from_lem : (k : ℤ) → pos 0 ≤ℤ k → n1 ≤ℤ n1 +ℤ k
  from_lem k h = omega (arith, +ℤ_parts n1 k)

IsMonth-between : (low z high : ℤ) → low ≤ℤ z → z ≤ℤ high → IsMonth low → IsMonth high → IsMonth z
IsMonth-between low (pos n) high h k (a, b) (c, d) = (omega arith, ground arith)
IsMonth-between low (negsuc n) high h k (a, b) (c, d) = (ground arith, omega arith)

lt_of_ltb : (a b : ℤ) → ltb_ℤ a b ≡ true → a <ℤ b
lt_of_ltb a b h = ground arith

le_of_ltb : (a b : ℤ) → ltb_ℤ a b ≡ false → b ≤ℤ a
le_of_ltb a b h = ground arith

ltb_of_le : (a b : ℤ) → b ≤ℤ a → ltb_ℤ a b ≡ false
ltb_of_le a b h = ground arith

-- The months and the date that they lead to: none is negative, the date is not past the second, and
-- every larger number of months leads past it.
pub record IsWhole (C : Calendar) (d1 d2 months advanced : ℤ) : Type 0 where
  pub not_negative : pos 0 ≤ℤ months
  pub advanced_lem : add_months_to_date C d1 months ≡ ok advanced
  pub reached : advanced ≤ℤ d2
  pub most :
      (k x : ℤ)
      → months <ℤ k
      → IsMonth (month_after C d1 k)
      → add_months_to_date C d1 k ≡ ok x
      → d2 <ℤ x

module _ (C : Calendar) (L : CalendarLaws C) where
  -- A date's month.
  abbrev number : ℤ → ℤ
  number d = month_number (C.year d) (C.month d)

  number-IsMonth : (d : ℤ) → IsDay C d → IsMonth (number d)
  number-IsMonth d h =
      let (above, below) = L.from_year (C.year d) (C.month d) (C.day d) d h.made in
      let (low, high) = L.from_month (C.year d) (C.month d) (C.day d) d h.made in
      month_number-IsMonth (C.year d) (C.month d) h.before_last below low high

  number-mono : (d1 d2 : ℤ) → IsDay C d1 → IsDay C d2 → d1 ≤ℤ d2 → number d1 ≤ℤ number d2
  number-mono d1 d2 h1 h2 h = elim (Bool-cases (ltb_ℤ (number d2) (number d1))) [
    | inl e ↦ absurd (
        omega (
          arith,
          L.later (C.year d2) (C.year d1) (C.month d2) (C.month d1) (C.day d2) (C.day d1) d2 d1
              h2.made h1.made (lt_of_ltb (number d2) (number d1) e),
        ))
    | inr e ↦ le_of_ltb (number d2) (number d1) e
  ]

  -- A date that months were added to lies behind the dates of earlier months.
  added_later :
      (d1 d2 k x : ℤ)
      → IsDay C d1
      → IsDay C d2
      → IsMonth (month_after C d1 k)
      → add_months_to_date C d1 k ≡ ok x
      → number d2 <ℤ month_after C d1 k
      → d2 <ℤ x
  added_later d1 d2 k x h1 h2 is_month added behind =
      let (x', day, added', made) = add_months_to_date_lem C L d1 k h1 is_month in
      let z = month_after C d1 k in
      let same : x' ≡ x = cc in
      subst (λ v. d2 <ℤ v) same
        (L.later (C.year d2) (div_euclid z 12) (C.month d2) (rem_euclid z 12 + 1) (C.day d2) day d2
          x' h2.made made (subst (λ v. number d2 <ℤ v) (sym (month_number-div_rem z)) behind))

  -- And before those of later months.
  added_earlier :
      (d1 d2 k x : ℤ)
      → IsDay C d1
      → IsDay C d2
      → IsMonth (month_after C d1 k)
      → add_months_to_date C d1 k ≡ ok x
      → month_after C d1 k <ℤ number d2
      → x <ℤ d2
  added_earlier d1 d2 k x h1 h2 is_month added before =
      let (x', day, added', made) = add_months_to_date_lem C L d1 k h1 is_month in
      let z = month_after C d1 k in
      let same : x' ≡ x = cc in
      subst (λ v. v <ℤ d2) same
        (L.later (div_euclid z 12) (C.year d2) (rem_euclid z 12 + 1) (C.month d2) day (C.day d2) x'
          d2 made h2.made (subst (λ v. v <ℤ number d2) (sym (month_number-div_rem z)) before))

  module _ (d1 d2 : ℤ) (h1 : IsDay C d1) (h2 : IsDay C d2) (ordered : d1 ≤ℤ d2) where
    -- The months between the months of the two dates.
    abbrev raw : ℤ
    raw = times (C.year d2 -ℤ C.year d1) 12 +ℤ pos (C.month d2) -ℤ pos (C.month d1)

    raw_lem : month_after C d1 raw ≡ number d2
    raw_lem = month_number-diff (C.year d1) (C.year d2) (C.month d1) (C.month d2)

    raw-IsMonth : IsMonth (month_after C d1 raw)
    raw-IsMonth = rw raw_lem (number-IsMonth d2 h2)

    raw_not_negative : pos 0 ≤ℤ raw
    raw_not_negative =
        not_negative_lem (number d1) (number d2) raw raw_lem (number-mono d1 d2 h1 h2 ordered)

    -- More months than those between lead to a later date.
    most_lem :
        (k x : ℤ)
        → raw <ℤ k
        → IsMonth (month_after C d1 k)
        → add_months_to_date C d1 k ≡ ok x
        → d2 <ℤ x
    most_lem k x more is_month added =
        added_later d1 d2 k x h1 h2 is_month added
          (beyond_lem (number d1) (number d2) raw raw_lem k more)

    -- One month less than those between leads to a date before the second.
    fewer-IsMonth : pos 0 <ℤ raw → IsMonth (month_after C d1 (raw -ℤ pos 1))
    fewer-IsMonth positive =
        IsMonth-between (number d1) (month_after C d1 (raw -ℤ pos 1)) (number d2)
          (from_lem (number d1) (number d2) raw raw_lem (raw -ℤ pos 1)
            (omega (arith, -ℤ_parts raw (pos 1))))
          (let less =
              short_lem (number d1) (number d2) raw raw_lem (raw -ℤ pos 1)
                (omega (arith, -ℤ_parts raw (pos 1))) in
            omega arith)
          (number-IsMonth d1 h1) (number-IsMonth d2 h2)

    fewer_before : (x : ℤ) → pos 0 <ℤ raw → add_months_to_date C d1 (raw -ℤ pos 1) ≡ ok x → x <ℤ d2
    fewer_before x positive added =
        added_earlier d1 d2 (raw -ℤ pos 1) x h1 h2 (fewer-IsMonth positive) added (
          short_lem (number d1) (number d2) raw raw_lem (raw -ℤ pos 1)
            (omega (arith, -ℤ_parts raw (pos 1))))

    -- The months between lead too far: one is taken off.
    overshot :
        (x : ℤ)
        → add_months_to_date C d1 raw ≡ ok x
        → pos 0 <ℤ raw
        → d2 <ℤ x
        → (advanced : ℤ) × IsWhole C d1 d2 (raw -ℤ pos 1) advanced
    overshot x added positive past =
        let (x', day, added', made) =
          add_months_to_date_lem C L d1 (raw -ℤ pos 1) h1 (fewer-IsMonth positive) in
        let before = fewer_before x' positive added' in
        (
          x',
          record {
            not_negative = omega (arith, -ℤ_parts raw (pos 1));
            advanced_lem = added';
            reached = omega (arith, before);
            most = λ k y more is_month h. elim (Bool-cases (ltb_ℤ raw k)) [
              | inl e ↦ most_lem k y (lt_of_ltb raw k e) is_month h
              | inr e ↦
                  let k_le = le_of_ltb raw k e in
                  let same : k ≡ raw =
                    eq_of_parts k raw (omega (arith, more, k_le, -ℤ_parts raw (pos 1))) in
                  let added_k : add_months_to_date C d1 k ≡ ok x = rw same added in
                  let same_date : y ≡ x = cc in rw same_date past
            ];
          },
        )

    -- They lead to a date that is not past the second.
    exact :
        (x : ℤ)
        → add_months_to_date C d1 raw ≡ ok x
        → x ≤ℤ d2
        → (advanced : ℤ) × IsWhole C d1 d2 raw advanced
    exact x added reached = (
      x,
      record {
        not_negative = raw_not_negative;
        advanced_lem = added;
        reached = reached;
        most = most_lem;
      },
    )

    -- Without a month between them the dates are compared as they are.
    same_month : (x : ℤ) → add_months_to_date C d1 raw ≡ ok x → ltb_ℤ (pos 0) raw ≡ false → x ≤ℤ d2
    same_month x added none =
        let at_most = le_of_ltb (pos 0) raw none in
        let zero_months : raw ≡ pos 0 = eq_of_parts raw (pos 0) (omega (arith, raw_not_negative)) in
        let added_none : add_months_to_date C d1 (pos 0) ≡ ok x =
          subst (λ v. add_months_to_date C d1 v ≡ ok x) zero_months added in
        let stays = add_months_to_date-zero C L d1 h1 in
        let same : d1 ≡ x = cc in subst (λ v. v ≤ℤ d2) same ordered

    -- For two dates in order, in years before the last, month_diff succeeds and counts the whole months.
    pub month_diff_lem :
        (months : ℤ) × (advanced : ℤ) × (month_diff C d1 d2 ≡ ok months)
        × IsWhole C d1 d2 months advanced
    unfolding month_diff
    month_diff_lem =
        let (x, day, added, made) = add_months_to_date_lem C L d1 raw h1 raw-IsMonth in
        let not_less = ltb_of_le raw (pos 0) raw_not_negative in
        elim (Bool-cases (ltb_ℤ (pos 0) raw)) [
          | inl positive ↦ elim (Bool-cases (ltb_ℤ d2 x)) [
            | inl past ↦
                let (advanced, whole) =
                  overshot x added (lt_of_ltb (pos 0) raw positive) (lt_of_ltb d2 x past) in
                (raw -ℤ pos 1, advanced, rw (added, positive, past) refl, whole)
            | inr within ↦
                let (advanced, whole) = exact x added (le_of_ltb d2 x within) in
                (raw, advanced, rw (added, positive, within, not_less) refl, whole)
          ]
          | inr none ↦
              let (advanced, whole) = exact x added (same_month x added none) in
              (raw, advanced, rw (added, none, not_less) refl, whole)
        ]
