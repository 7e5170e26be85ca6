-- ===== src/Cron/Calendar.antt =====
-- Python's naive datetime to the minute, as src/django_ox/cron.py uses it: fields, the comparison,
-- the weekday, and the sums and differences of whole days, hours and minutes that occur there.
-- A year has no upper bound here (Python stops at 9999 with an OverflowError).
use django_ox.Prelude.{
  ℕ, zero, suc, ◌+◌, ◌-◌, ◌*◌, ◌/◌, ◌%◌, ◌≤◌, ◌<◌, Bool, ◌&&◌, ◌||◌, not, ltb, ◌==◌, if◌then◌else◌,
}

pub record DateTime : Type 0 where
  pub year : ℕ
  pub month : ℕ
  pub day : ℕ
  pub hour : ℕ
  pub minute : ℕ

unfoldable pub is_leap : ℕ → Bool
is_leap y = y % 4 == 0 && (not (y % 100 == 0) || y % 400 == 0)

unfoldable pub days_in_month : ℕ → ℕ → ℕ
unfolding is_leap
days_in_month y m =
    if m == 2
    then (if is_leap y then 29 else 28)
    else if m == 4 || m == 6 || m == 9 || m == 11
    then 30
    else if m == 0
    then 0
    else 31

-- A date of the calendar. The upper end, MAXYEAR, is left out: within the search's days of it the code
-- raises OverflowError where the model goes on to the year after.
pub record IsDate (t : DateTime) : Type 0 where
  pub year_pos : 1 ≤ t.year
  pub month_pos : 1 ≤ t.month
  pub month_le : t.month ≤ 12
  pub day_pos : 1 ≤ t.day
  pub day_le : t.day ≤ days_in_month t.year t.month
  pub hour_lt : t.hour < 24
  pub minute_lt : t.minute < 60

-- Two dates compare as their fields in order, which is the order of these numbers.
abbrev pub rank : DateTime → ℕ
rank t = (((t.year * 13 + t.month) * 32 + t.day) * 24 + t.hour) * 60 + t.minute

-- date.toordinal(): day 1 is the first of January of year 1.
unfoldable pub days_before_month : ℕ → ℕ → ℕ
days_before_month y zero = 0
days_before_month y (suc m) = days_before_month y m + days_in_month y m

unfoldable pub days_before_year : ℕ → ℕ
days_before_year y = let p = y - 1 in p * 365 + p / 4 + p / 400 - p / 100

unfoldable pub ordinal : DateTime → ℕ
unfolding days_before_month days_before_year
ordinal t = days_before_year t.year + days_before_month t.year t.month + t.day

-- Minutes since the start of the calendar: a timedelta is a difference of these.
unfoldable pub instant : DateTime → ℕ
unfolding ordinal
instant t = ordinal t * 1440 + t.hour * 60 + t.minute

-- datetime.weekday(): Monday is 0.
unfoldable pub weekday : DateTime → ℕ
unfolding ordinal
weekday t = (ordinal t + 6) % 7

abbrev pub midnight : ℕ → ℕ → ℕ → DateTime
midnight y m d = record { year = y; month = m; day = d; hour = 0; minute = 0 }

-- The first of the next month; `if cur.month == 12`.
unfoldable pub next_month : DateTime → DateTime
next_month t = if t.month == 12 then midnight (t.year + 1) 1 1 else midnight t.year (t.month + 1) 1

-- datetime(year, month, day) + timedelta(days=1).
unfoldable pub next_day : DateTime → DateTime
unfolding next_month days_in_month
next_day t =
    if ltb t.day (days_in_month t.year t.month)
    then midnight t.year t.month (t.day + 1)
    else next_month t

-- replace(minute=0) + timedelta(hours=1).
unfoldable pub next_hour : DateTime → DateTime
unfolding next_day
next_hour t = if ltb t.hour 23 then record t { hour = t.hour + 1; minute = 0 } else next_day t

-- + timedelta(minutes=1).
unfoldable pub next_minute : DateTime → DateTime
unfolding next_hour
next_minute t = if ltb t.minute 59 then record t { minute = t.minute + 1 } else next_hour t

abbrev pub day_end : ℕ → ℕ → ℕ → DateTime
day_end y m d = record { year = y; month = m; day = d; hour = 23; minute = 59 }

-- datetime(year, month, 1) - timedelta(minutes=1).
unfoldable pub month_before : DateTime → DateTime
unfolding days_in_month
month_before t =
    if t.month == 1
    then day_end (t.year - 1) 12 31
    else day_end t.year (t.month - 1) (days_in_month t.year (t.month - 1))

-- datetime(year, month, day) - timedelta(minutes=1).
unfoldable pub day_before : DateTime → DateTime
unfolding month_before
day_before t = if t.day == 1 then month_before t else day_end t.year t.month (t.day - 1)

-- replace(minute=0) - timedelta(minutes=1).
unfoldable pub hour_before : DateTime → DateTime
unfolding day_before
hour_before t = if t.hour == 0 then day_before t else record t { hour = t.hour - 1; minute = 59 }
