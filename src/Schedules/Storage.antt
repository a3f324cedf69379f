-- ===== src/Schedules/Storage.antt =====
-- The states of schedules as they are written down and read back (src/mco/scheduler.py, `ScheduleState`;
-- src/mco/launcher.py, `load_state` and `save_state`). `datetime` writes and reads timestamps: it is a parameter.
use bit_cadence.Prelude.{
  ℕ, ◌≡◌, refl, sym, ap, ◌∙◌, String, false, Option, none, some, List, [], ◌∷◌, ◌==◌, if◌then◌else◌,
  get_or, str_eq, strip, codes_of, Dict,
}
use bit_cadence.Schedules.Due.{ScheduleState, Reason}

pub record RawState : Type 0 where
  pub name : Option String
  pub iterations : Option ℕ
  pub last_run_at : Option String
  pub last_job_ids : Option (List String)
  pub exhausted_reason : Option Reason

-- `isoformat`, and `fromisoformat` on the code points of a text
pub record Iso : Type 0 where
  pub format : ℕ → String
  pub read : List ℕ → Option ℕ

-- "Z" is written out as "+00:00"
abbrev pub replace_z : List ℕ → List ℕ
replace_z [] = []
replace_z (c ∷ cs) =
    let rest = replace_z cs in if c == 90 then 43 ∷ 48 ∷ 48 ∷ 58 ∷ 48 ∷ 48 ∷ rest else c ∷ rest

unfoldable pub parse_timestamp : Iso → String → Option ℕ
parse_timestamp iso t = iso.read (replace_z (codes_of (strip t)))

unfoldable pub format_time : Iso → Option ℕ → Option String
format_time iso none = none
format_time iso (some t) = some (iso.format t)

unfoldable pub to_dict : Iso → ScheduleState → RawState
unfolding format_time
to_dict iso st = record {
  name = some st.name;
  iterations = some st.iterations;
  last_run_at = format_time iso st.last_run_at;
  last_job_ids = some st.last_job_ids;
  exhausted_reason = st.exhausted_reason;
}

-- the state with the time that was read, or `none` where the text is no timestamp
with_time : RawState → Option ℕ → ScheduleState
with_time r t = record {
  name = get_or "" r.name;
  iterations = get_or 0 r.iterations;
  last_run_at = t;
  last_job_ids = get_or [] r.last_job_ids;
  exhausted_reason = r.exhausted_reason;
}

dated : RawState → Option ℕ → Option ScheduleState
unfolding with_time
dated r none = none
dated r (some t) = some (with_time r (some t))

-- `from_dict`; `none` is the error of a text that is no timestamp
unfoldable pub from_dict : Iso → RawState → Option ScheduleState
unfolding parse_timestamp dated with_time
from_dict iso r = elim r.last_run_at [
  | none ↦ some (with_time r none)
  | some t ↦ if str_eq t "" then some (with_time r none) else dated r (parse_timestamp iso t)
]

unfoldable pub save_states : Iso → Dict ScheduleState → Dict RawState
unfolding to_dict
save_states iso [] = []
save_states iso ((k, st) ∷ rest) = (k, to_dict iso st) ∷ save_states iso rest

-- what is in the file
pub data StateFile : Type 0 where
  missing unreadable not_a_mapping : StateFile
  holds_states : Dict RawState → StateFile

kept_row : String → Option ScheduleState → Dict ScheduleState → Dict ScheduleState
kept_row k none rest = rest
kept_row k (some st) rest = (k, st) ∷ rest

-- A row that cannot be read is dropped; the keys of a mapping are distinct, so each other one is a new row.
unfoldable pub load_rows : Iso → Dict RawState → Dict ScheduleState
unfolding from_dict kept_row
load_rows iso [] = []
load_rows iso ((k, r) ∷ rest) =
    kept_row k (from_dict iso (record r { name = some k })) (load_rows iso rest)

unfoldable pub load_state : Iso → StateFile → Dict ScheduleState
unfolding load_rows
load_state iso (holds_states d) = load_rows iso d
load_state iso _ = []

-- What `datetime` promises of a time: its text is not empty, has no space at an end and no "Z", and is read back.
pub record IsWritten (iso : Iso) (t : ℕ) : Type 0 where
  pub some_text : str_eq (iso.format t) "" ≡ false
  pub tight : strip (iso.format t) ≡ iso.format t
  pub without_z : replace_z (codes_of (iso.format t)) ≡ codes_of (iso.format t)
  pub back : iso.read (codes_of (iso.format t)) ≡ some t

abbrev pub TimeIsWritten : Iso → Option ℕ → Type 0
TimeIsWritten iso none = Unit
TimeIsWritten iso (some t) = IsWritten iso t

-- A row stands under its own name, and its time is one that `datetime` writes.
abbrev pub AllWritten : Iso → Dict ScheduleState → Type 0
AllWritten iso [] = Unit
AllWritten iso ((k, st) ∷ rest) =
    (st.name ≡ k) × TimeIsWritten iso st.last_run_at × AllWritten iso rest

timed :
    (iso : Iso) (o : Option ℕ) (st : ScheduleState)
    → TimeIsWritten iso o
    → from_dict iso (to_dict iso (record st { last_run_at = o }))
      ≡ some (record st { last_run_at = o })
unfolding from_dict to_dict format_time parse_timestamp with_time dated
timed iso none st w = refl
timed iso (some t) st w =
    let read : parse_timestamp iso (iso.format t) ≡ some t =
      ap (λ x. iso.read (replace_z (codes_of x))) w.tight ∙ ap iso.read w.without_z ∙ w.back in
    rw (w.some_text, read) refl

from_dict-to_dict :
    (iso : Iso) (st : ScheduleState)
    → TimeIsWritten iso st.last_run_at
    → from_dict iso (to_dict iso st) ≡ some st
from_dict-to_dict iso st w = timed iso st.last_run_at st w

renamed :
    (iso : Iso) (k : String) (st : ScheduleState)
    → st.name ≡ k
    → record (to_dict iso st) { name = some k } ≡ to_dict iso st
unfolding to_dict
renamed iso k st q = rw (sym q) refl

-- What is saved is read back as it was: every schedule's count of iterations, its last time and jobs, and the reason
-- that it is finished for, where each row stands under its own name and `datetime` reads back what
-- it writes.
pub load_state-save_states :
    (iso : Iso) (d : Dict ScheduleState)
    → AllWritten iso d
    → load_state iso (holds_states (save_states iso d)) ≡ d
unfolding load_state load_rows save_states kept_row
load_state-save_states iso [] w = refl
load_state-save_states iso ((k, st) ∷ d) (q, t, w) =
    let row = ap (from_dict iso) (renamed iso k st q) ∙ from_dict-to_dict iso st t in
    rw (row, kept_row) (ap (λ x. (k, st) ∷ x) (load_state-save_states iso d w))
