-- ===== src/Domain/Time.antt =====
-- Python's datetime, date and timedelta, as far as the code uses them.
use alpha_desk.Base.{ℕ, ◌*◌, ◌/◌, ◌-◌, Bool, ltb, leb}
use alpha_desk.Base.Integers.{ℤ, sub_ℕ}

-- `micros` is the instant, in microseconds of UTC since the first day of year 1: what
-- `astimezone(UTC)` makes of the value. `has_tzinfo` is `tzinfo is not None`.
pub record Datetime : Type 0 where
  pub micros : ℕ
  pub has_tzinfo : Bool

-- A `date` is the number of its day.
abbrev pub Date : Type 0
Date = ℕ

abbrev pub micros_per_second : ℕ
micros_per_second = 1_000_000

-- `datetime.date()`
abbrev pub date_of : Datetime → Date
date_of t = t.micros / (86_400 * micros_per_second)

-- `(a - b).days` of two dates.
abbrev pub days_between : Date → Date → ℤ
days_between a b = sub_ℕ a b

-- Whether `(a - b).total_seconds()` is negative, and whether it is more than `n`.
abbrev pub is_before : Datetime → Datetime → Bool
is_before a b = ltb a.micros b.micros

abbrev pub is_older_than : Datetime → Datetime → ℕ → Bool
is_older_than a b n = ltb (n * micros_per_second) (a.micros - b.micros)

-- Whether `a - b` is more than the given number of microseconds.
abbrev pub is_older_than_micros : Datetime → Datetime → ℕ → Bool
is_older_than_micros a b n = ltb n (a.micros - b.micros)

abbrev pub is_at_most : Datetime → Datetime → Bool
is_at_most a b = leb a.micros b.micros
