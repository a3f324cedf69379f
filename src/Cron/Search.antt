-- ===== src/Cron/Search.antt =====
-- The next time that an expression matches (src/mco/scheduler.py, `CronExpr.matches`, `_date_could_match`,
-- `next_cron_time`), in the local time of the expression's zone. The host's calendar is a parameter.
pub mod First
use bit_cadence.Prelude.{
  ℕ, zero, suc, ◌+◌, ◌*◌, ◌/◌, ◌%◌, Bool, true, false, ◌&&◌, ◌||◌, not, Option, none, some, List,
  ltb, ◌==◌, if◌then◌else◌, any_by,
}

-- what `datetime` says of a local day, counted from any day
pub record Calendar : Type 0 where
  pub month : ℕ → ℕ
  pub day : ℕ → ℕ
  pub weekday : ℕ → ℕ  -- Monday is 0

pub record CronExpr : Type 0 where
  pub minutes : List ℕ
  pub hours : List ℕ
  pub days : List ℕ
  pub months : List ℕ
  pub weekdays : List ℕ
  pub day_union : Bool

-- a local day, and a minute of it
pub record Moment : Type 0 where
  pub date : ℕ
  pub clock : ℕ

abbrev pub day_minutes : ℕ
day_minutes = 1440

-- 5 * 366 * 24 * 60
abbrev pub max_search_minutes : ℕ
max_search_minutes = 2635200

abbrev pub index : Moment → ℕ
index m = m.date * day_minutes + m.clock

abbrev pub holds : ℕ → List ℕ → Bool
holds n = any_by (λ x. x == n)

unfoldable pub date_could_match : Calendar → CronExpr → ℕ → Bool
date_could_match cal e date =
    if not (holds (cal.month date) e.months)
    then false
    else (let dom_ok = holds (cal.day date) e.days in
        let dow_ok = holds ((cal.weekday date + 1) % 7) e.weekdays in
        if e.day_union then dom_ok || dow_ok else dom_ok && dow_ok)

unfoldable pub matches : Calendar → CronExpr → ℕ → ℕ → Bool
matches cal e date clock =
    if not (holds (clock % 60) e.minutes) || not (holds (clock / 60) e.hours)
    then false
    else if not (holds (cal.month date) e.months)
    then false
    else (let dom_ok = holds (cal.day date) e.days in
        let dow_ok = holds ((cal.weekday date + 1) % 7) e.weekdays in
        if e.day_union then dom_ok || dow_ok else dom_ok && dow_ok)

-- a minute later
unfoldable pub next_minute : Moment → Moment
next_minute m =
    if m.clock + 1 == day_minutes
    then record { date = m.date + 1; clock = 0 }
    else record { date = m.date; clock = m.clock + 1 }

abbrev pub next_midnight : Moment → Moment
next_midnight m = record { date = m.date + 1; clock = 0 }

pub data Verdict : Type 0 where
  over skip hit miss : Verdict

-- one turn of the loop
unfoldable pub look : Calendar → CronExpr → ℕ → Moment → Verdict
look cal e limit m =
    if not (ltb (index m) limit)
    then over
    else if not (date_could_match cal e m.date)
    then skip
    else if matches cal e m.date m.clock
    then hit
    else miss

-- The loop, on fuel: one unit for each minute that is left.
unfoldable pub search : ℕ → Calendar → CronExpr → ℕ → Moment → Option Moment
search zero cal e limit m = none
search (suc n) cal e limit m = elim (look cal e limit m) [
  | over ↦ none
  | skip ↦ search n cal e limit (next_midnight m)
  | hit ↦ some m
  | miss ↦ search n cal e limit (next_minute m)
]

-- `next_cron_time` from the minute of `after`; `none` is the CronExpressionError
unfoldable pub next_cron_time : Calendar → CronExpr → Moment → Option Moment
next_cron_time cal e after =
    search max_search_minutes cal e (index (next_minute after) + max_search_minutes)
      (next_minute after)
