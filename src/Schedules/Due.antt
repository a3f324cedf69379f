-- ===== src/Schedules/Due.antt =====
-- When a schedule fires next (src/mco/scheduler.py, `next_run_at`, `exhaustion_reason`, `is_due`,
-- `due_schedules`). Times are counted in seconds; the time zones of the host are a parameter.
use bit_cadence.Prelude.{
  ℕ, ◌+◌, ◌-◌, String, Bool, true, false, Option, none, some, List, [], ◌∷◌, leb, ltb, ◌==◌,
  if◌then◌else◌, lookup, get_or, Dict, codes_of, ok, err, Raises, ◌>>=◌,
}
use bit_cadence.Cron.Search.{Calendar, CronExpr, Moment, next_cron_time}

pub data Overlap : Type 0 where
  skip allow : Overlap

pub data Kind : Type 0 where
  schedule loop : Kind

pub record Schedule : Type 0 where
  pub name : String
  pub launcher : String
  pub cron : Option CronExpr
  pub every : Option ℕ
  pub timezone : Option String
  pub enabled : Bool
  pub overlap : Overlap
  pub kind : Kind
  pub max_iterations : Option ℕ
  pub until : Option ℕ
  pub until_empty : Option String
  pub requires_approval : Option Bool

-- the texts that the code writes for the end of a schedule
pub data Reason : Type 0 where
  past_until : ℕ → Reason
  all_iterations : ℕ → Reason
  queue_empty : String → Reason

pub record ScheduleState : Type 0 where
  pub name : String
  pub iterations : ℕ
  pub last_run_at : Option ℕ
  pub last_job_ids : List String
  pub exhausted_reason : Option Reason

-- the host's calendar and zones: an instant as a local minute, and back
pub record Host : Type 0 where
  pub calendar : Calendar
  pub local_of : Option String → ℕ → Moment
  pub instant_of : Option String → Moment → ℕ

pub data TickError : Type 0 where
  never_fires unknown_launcher : TickError

abbrev pub Ticked : Type 0 → Type 0
Ticked A = Raises TickError A

abbrev pub past : ℕ → Option ℕ → Bool
past now none = false
past now (some t) = ltb t now

abbrev pub reached : ℕ → Option ℕ → Bool
reached n none = false
reached n (some m) = leb m n

-- a schedule of which nothing is recorded has run no iteration
abbrev pub iterations_of : Option ScheduleState → ℕ
iterations_of none = 0
iterations_of (some s) = s.iterations

abbrev pub recorded : Option ScheduleState → Option Reason
recorded none = none
recorded (some s) = s.exhausted_reason

abbrev pub last_run : Option ScheduleState → Option ℕ
last_run none = none
last_run (some s) = s.last_run_at

-- why the schedule is finished, its record aside; without a record no iteration has been run
unfoldable pub bound_reason : Schedule → Option ScheduleState → ℕ → Option Reason
bound_reason s none now = if past now s.until then some (past_until (get_or 0 s.until)) else none
bound_reason s (some st) now =
    if past now s.until
    then some (past_until (get_or 0 s.until))
    else if reached st.iterations s.max_iterations
    then some (all_iterations (get_or 0 s.max_iterations))
    else none

unfoldable pub exhaustion_reason : Schedule → Option ScheduleState → ℕ → Option Reason
unfolding bound_reason
exhaustion_reason s o now = elim (recorded o) [ some r ↦ some r | none ↦ bound_reason s o now ]

abbrev later : ℕ → ℕ → ℕ
later a b = if ltb a b then b else a

from_moment : Host → Option String → Option Moment → Ticked ℕ
from_moment h z none = err never_fires
from_moment h z (some m) = ok (h.instant_of z m)

abbrev interval_from : Option ℕ → ℕ → ℕ → ℕ
interval_from none now every = now
interval_from (some t) now every = t + every

-- the time that the trigger gives
unfoldable pub candidate : Host → Schedule → Option ℕ → ℕ → Option CronExpr → Ticked ℕ
unfolding from_moment
candidate h s last now none = ok (interval_from last now (get_or 0 s.every))
candidate h s last now (some e) =
    from_moment h s.timezone
      (next_cron_time h.calendar e (h.local_of s.timezone (later (get_or now last) (now - 60))))

within_until : ℕ → Option ℕ → Option ℕ
within_until t o = if past t o then none else some t

unfoldable pub next_run_at : Host → Schedule → Option ScheduleState → ℕ → Ticked (Option ℕ)
unfolding exhaustion_reason candidate within_until
next_run_at h s o now =
    if s.enabled
    then elim (exhaustion_reason s o now) [
      | some r ↦ ok none
      | none ↦ do t ← candidate h s (last_run o) now s.cron; ok (within_until t s.until)
    ]
    else ok none

abbrev pub arrived : Option ℕ → ℕ → Bool
arrived none now = false
arrived (some t) now = leb t now

unfoldable pub is_due : Host → Schedule → Option ScheduleState → ℕ → Ticked Bool
unfolding next_run_at
is_due h s o now = do due ← next_run_at h s o now; ok (arrived due now)

-- the order of texts, code point by code point
abbrev pub text_order : List ℕ → List ℕ → Bool
text_order [] ys = true
text_order (x ∷ xs) [] = false
text_order (x ∷ xs) (y ∷ ys) = if x == y then text_order xs ys else ltb x y

unfoldable pub place : Schedule → List Schedule → List Schedule
place s [] = s ∷ []
place s (t ∷ ts) =
    if text_order (codes_of s.name) (codes_of t.name) then s ∷ t ∷ ts else t ∷ place s ts

-- those that are due, by name
unfoldable pub due_schedules :
    Host → List Schedule → Dict ScheduleState → ℕ → Ticked (List Schedule)
unfolding is_due place
due_schedules h [] states now = ok []
due_schedules h (s ∷ ss) states now = do
  due ← is_due h s (lookup s.name states) now
  rest ← due_schedules h ss states now
  ok (if due then place s rest else rest)
