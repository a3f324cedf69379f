-- ===== src/Cron/Examples.antt =====
-- Tests of the cron model, and its theorems at concrete inputs.
use bit_cadence.Prelude.{
  err, ok, ℕ, ◌+◌, ◌/◌, ◌%◌, ◌≤◌, ◌<◌, true, false, arith, ltb, if◌then◌else◌, ◌≡◌, refl, List, [],
  ◌∷◌,
}
use bit_cadence.Cron.Field.{Text, parse_cron_field, bad_step}
use bit_cadence.Cron.Search.{
  Calendar, CronExpr, Moment, index, matches, max_search_minutes, next_cron_time, search, look,
  next_minute, date_could_match,
}
use bit_cadence.Cron.Search.First.{next_cron_time-first}

-- "1-10/4, 20"
abbrev stepped : Text
stepped = b'1' ∷ b'-' ∷ b'1' ∷ b'0' ∷ b'/' ∷ b'4' ∷ b',' ∷ b' ' ∷ b'2' ∷ b'0' ∷ []

stepped_values : parse_cron_field 0 59 stepped ≡ ok (1 ∷ 5 ∷ 9 ∷ 20 ∷ [])
unfolding parse_cron_field
stepped_values = refl

zero_step : parse_cron_field 0 59 (b'*' ∷ b'/' ∷ b'0' ∷ []) ≡ err bad_step
unfolding parse_cron_field
zero_step = refl

abbrev values : List ℕ
values = 1 ∷ 5 ∷ 9 ∷ 20 ∷ []

-- a calendar of months of 30 days that begins on a Monday
abbrev plain_calendar : Calendar
plain_calendar = record {
  month = λ d. d / 30 % 12 + 1;
  day = λ d. d % 30 + 1;
  weekday = λ d. d % 7;
}

-- "30 3 2 * *"
abbrev monthly : CronExpr
monthly = record {
  minutes = 30 ∷ [];
  hours = 3 ∷ [];
  days = 2 ∷ [];
  months = 1 ∷ 2 ∷ 3 ∷ [];
  weekdays = 0 ∷ 1 ∷ 2 ∷ 3 ∷ 4 ∷ 5 ∷ 6 ∷ [];
  day_union = false;
}

abbrev just_before : Moment
just_before = record { date = 0; clock = 1438 }

abbrev first_run : Moment
first_run = record { date = 1; clock = 210 }

abbrev second_run : Moment
second_run = record { date = 31; clock = 210 }

next_cron_time-first_example :
    (matches plain_calendar monthly first_run.date first_run.clock ≡ true)
    × (index just_before < index first_run)
    × (index first_run ≤ index just_before + max_search_minutes)
    × (index first_run ≤ index second_run)
unfolding next_cron_time search look next_minute date_could_match matches
next_cron_time-first_example =
    next_cron_time-first plain_calendar monthly just_before first_run second_run (omega arith)
      (omega arith) refl refl (omega arith)

-- the second month does not begin for 1900 days
abbrev long_month : Calendar
long_month = record { month = λ d. if ltb d 1900 then 1 else 2; day = λ d. 2; weekday = λ d. 0 }

abbrev second_month : CronExpr
second_month = record monthly { months = 2 ∷ [] }

abbrev too_late : Moment
too_late = record { date = 1900; clock = 210 }
