-- ===== src/Handlers/Hub.antt =====
-- The creation of jobs and the release of their dependents (handlers.py).
use bit_cadence.Prelude.{
  ℕ, String, Bool, false, ◌&&◌, not, Option, none, some, List, [], ◌∷◌, ◌++◌, ◌==◌, if◌then◌else◌,
  length, any_by, all_by, contains, lookup, Dict,
}
use bit_cadence.Board.{Job, Db, Status, waiting, needs_approval, pending, is_waiting, is_completed}
use bit_cadence.Lease.Claims.{LeaseError}
use bit_cadence.Lease.Operations.{put_job}

-- `record_event` and `broadcast_event`, with what the tests and the theorems read of them
pub data Notice : Type 0 where
  created : String → Status → Notice
  unlocked : String → Status → String → Notice  -- by the completion of the last
  retried : String → ℕ → Notice
  escalated : String → String → Notice
  reported : String → Status → Notice
  write_fenced : String → LeaseError → Notice
  broadcast : String → Job → Notice

pub record Hub : Type 0 where
  pub db : Db
  pub notices : List Notice  -- oldest first

abbrev pub note : List Notice → Hub → Hub
note ns h = record h { notices = h.notices ++ ns }

abbrev pub unfinished : Option Job → Bool
unfinished none = false
unfinished (some j) = not (is_completed j.status)

-- `_initial_status`; a dependency that is not on the board returns no row
unfoldable pub initial_status : Dict Job → List String → Bool → Status
initial_status jobs deps gated =
    if any_by (λ d. unfinished (lookup d jobs)) deps
    then waiting
    else if gated
    then needs_approval
    else pending

-- set(depends_on)
unfoldable pub distinct : List String → List String
distinct [] = []
distinct (x ∷ xs) = let rest = distinct xs in if contains x xs then rest else x ∷ rest

abbrev pub with_row : Option Job → List Job → List Job
with_row none js = js
with_row (some j) js = j ∷ js

-- the rows with one of these ids
unfoldable pub rows_of : List String → Dict Job → List Job
rows_of [] jobs = []
rows_of (d ∷ ds) jobs = with_row (lookup d jobs) (rows_of ds jobs)

unfoldable pub all_completed : List String → Dict Job → Bool
unfolding distinct rows_of
all_completed deps jobs =
    (length (rows_of (distinct deps) jobs) == length (distinct deps))
    && all_by (λ j. is_completed j.status) (rows_of (distinct deps) jobs)

abbrev pub next_status : Job → Status
next_status j = if j.requires_approval then needs_approval else pending

abbrev pub event_name : Job → String
event_name j = if j.requires_approval then "job_needs_approval" else "job_pending"

-- the update of a dependent, on the condition that it is still waiting
unfoldable pub open_row : String → String → Job → Option Job → Hub → Hub
open_row task k j none h = h
open_row task k j (some i) h =
    let row : Job = record i { status = next_status j } in
    if is_waiting i.status
    then record {
      db = put_job k row h.db;
      notices = h.notices ++ unlocked k (next_status j) task ∷ broadcast (event_name j) row ∷ [];
    }
    else h

-- the job is none of the conductor's and depends on the task, and all it depends on is completed
unfoldable pub is_ready : String → Dict Job → Job → Bool
unfolding all_completed
is_ready task jobs j =
    not j.score_owned && contains task j.depends_on && all_completed j.depends_on jobs

unfoldable pub open_one : String → String → Job → Hub → Hub
unfolding is_ready open_row
open_one task k j h =
    if is_ready task h.db.jobs j then open_row task k j (lookup k h.db.jobs) h else h

abbrev pub with_waiting : String → Option Job → List (String × Job) → List (String × Job)
with_waiting k none js = js
with_waiting k (some j) js = if is_waiting j.status then (k, j) ∷ js else js

-- the rows that wait when the loop starts, by the keys of the table
unfoldable pub select_waiting : Dict Job → Dict Job → List (String × Job)
select_waiting [] jobs = []
select_waiting ((k, _) ∷ rest) jobs = with_waiting k (lookup k jobs) (select_waiting rest jobs)

unfoldable pub open_each : String → List (String × Job) → Hub → Hub
unfolding open_one
open_each task [] h = h
open_each task ((k, j) ∷ rows) h = open_each task rows (open_one task k j h)

-- `_unlock_dependents`
unfoldable pub unlock_dependents : String → Hub → Hub
unfolding open_each select_waiting
unlock_dependents task h = open_each task (select_waiting h.db.jobs h.db.jobs) h
