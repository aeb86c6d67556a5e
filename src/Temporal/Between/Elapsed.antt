-- ===== src/Temporal/Between/Elapsed.antt =====
-- temporal.rs: what `duration_between` gives for two dates in order.
use graphdblite.Base.{some, ◌≡◌, subst, sym}
use graphdblite.Base.Int.{ℤ, ◌≤ℤ◌}
use graphdblite.Types.Value.{Value}
use graphdblite.Temporal.Outcome.{ok}
use graphdblite.Temporal.Stored.DateTime.{CypherDuration}
use graphdblite.Temporal.Between.{Calendar, duration_between}
use graphdblite.Temporal.Between.Values.{extract_date}
use graphdblite.Temporal.Between.Exact.{nanos_between, time_between, nanos_of, duration_between_lem}
use graphdblite.Temporal.Between.Months.{CalendarLaws, IsDay}
use graphdblite.Temporal.Between.Whole.{IsWhole, month_diff_lem}

module _ (C : Calendar) (L : CalendarLaws C) where
  -- Between two values whose dates are in order and lie in years before the calendar's last,
  -- duration_between succeeds. Its months are the whole months between the dates: they lead to a date
  -- that is not past the second, and any more months lead past it. Its days, seconds and nanoseconds
  -- make up exactly the time from that date, with the times of day, to the second.
  pub duration_between-IsWhole :
      (lhs rhs : Value) (d1 d2 : ℤ)
      → extract_date lhs ≡ some d1
      → extract_date rhs ≡ some d2
      → IsDay C d1
      → IsDay C d2
      → d1 ≤ℤ d2
      → (r : CypherDuration) × (advanced : ℤ) × (duration_between C lhs rhs ≡ ok r)
        × IsWhole C d1 d2 (CypherDuration.months r) advanced
        × (nanos_of r ≡ nanos_between advanced d2 (time_between C lhs rhs))
  duration_between-IsWhole lhs rhs d1 d2 l r h1 h2 ordered =
      let (months, advanced, counted, whole) = month_diff_lem C L d1 d2 h1 h2 ordered in
      let (made, done, same, total) =
        duration_between_lem C lhs rhs d1 d2 months advanced l r counted whole.advanced_lem in
      (made, advanced, done, subst (λ m. IsWhole C d1 d2 m advanced) (sym same) whole, total)
