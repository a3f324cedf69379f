-- ===== src/Supervisor/Worker.antt =====
-- The state and the operations of one worker (src/mco/agentd/supervisor.py).
use bit_cadence.Prelude.{
  ℕ, ◌-◌, ◌*◌, ◌^◌, String, Bool, true, false, Option, none, some, List, [], ◌∷◌, ◌++◌, ltb, leb,
  if◌then◌else◌, ℤ,
}

abbrev pub second : ℕ
second = 1000

abbrev pub crash_limit : ℕ
crash_limit = 5

abbrev pub crash_window : ℕ
crash_window = 300 * second

abbrev pub stable_reset : ℕ
stable_reset = 60 * second

abbrev pub max_backoff : ℕ
max_backoff = 60 * second

abbrev pub crashloop_cooldown : ℕ
crashloop_cooldown = 900 * second

pub data WorkerState : Type 0 where
  stopped starting running backoff crashlooped : WorkerState

-- VALID_MODES of fleet.py
pub data Mode : Type 0 where
  waker poll off : Mode

abbrev pub is_off : Mode → Bool
is_off off = true
is_off _ = false

abbrev pub is_poll : Mode → Bool
is_poll poll = true
is_poll _ = false

abbrev pub is_running : WorkerState → Bool
is_running running = true
is_running _ = false

abbrev pub is_crashlooped : WorkerState → Bool
is_crashlooped crashlooped = true
is_crashlooped _ = false

-- state in {BACKOFF, STARTING, STOPPED}
abbrev pub is_startable : WorkerState → Bool
is_startable backoff = true
is_startable starting = true
is_startable stopped = true
is_startable _ = false

pub record WorkerConfig : Type 0 where
  pub worker : String
  pub role : String
  pub agent : Option String  -- the field `instance`
  pub mode : Mode
  pub exec_command : Option String
  pub min_interval : ℕ
  pub poll_interval : ℕ
  pub background : Bool

-- The texts of `last_error`, by where they are made.
pub data LastError : Type 0 where
  exited : ℤ → LastError
  spawn_failed : String → LastError
  disabled : String → LastError
  latch_restored : LastError
  cooled_down : LastError
  cooled_down_was : LastError → LastError

pub record WorkerRuntime : Type 0 where
  pub config : WorkerConfig
  pub state : WorkerState
  pub process : Option ℕ  -- the pid
  pub desired_running : Bool
  pub started_at : Option ℕ
  pub next_start_at : Option ℕ
  pub backoff_exponent : ℕ
  pub failure_timestamps : List ℕ
  pub starts : ℕ
  pub last_exit : Option ℤ
  pub last_error : Option LastError

unfoldable pub initial : WorkerConfig → WorkerRuntime
initial c = record {
  config = c;
  state = stopped;
  process = none;
  desired_running = false;
  started_at = none;
  next_start_at = none;
  backoff_exponent = 0;
  failure_timestamps = [];
  starts = 0;
  last_exit = none;
  last_error = none;
}

-- one entry of `_persistent_state`
pub record Saved : Type 0 where
  pub backoff_exponent : ℕ
  pub failure_timestamps : List ℕ
  pub crashlooped : Bool

pub data Effect : Type 0 where
  spawn_call terminate_call kill_call forget_pid : ℕ → Effect

pub record Slot : Type 0 where
  pub runtime : WorkerRuntime
  pub open runtime use *
  pub saved : Option Saved
  pub effects : List Effect  -- oldest first

-- `adapter.spawn` returns a process or raises
pub data SpawnOutcome : Type 0 where
  spawned : ℕ → SpawnOutcome
  spawn_error : String → SpawnOutcome

-- What one operation reads from outside.
pub record Readings : Type 0 where
  pub clock : ℕ  -- self.clock()
  pub wall : ℕ  -- self.wall_clock()
  pub poll_result : Option ℤ  -- process.poll()
  pub wait_timed_out : Bool  -- process.wait after terminate
  pub spawn_outcome : SpawnOutcome

-- An operation returns, or raises OverflowError; what was written stays written.
pub data Outcome : Type 0 where
  done : Slot → Outcome
  overflowed : Slot → Outcome

abbrev pub slot_of : Outcome → Slot
slot_of (done s) = s
slot_of (overflowed s) = s

-- The largest exponent n at which `float(2 ** n)` is a float.
abbrev pub max_float_exponent : ℕ
max_float_exponent = 1023

-- `none` is the OverflowError of `float`, which is called before `min`
unfoldable pub backoff_delay : ℕ → Option ℕ
backoff_delay failures =
    if ltb max_float_exponent failures
    then none
    else some
        (if leb (2 ^ failures * second) max_backoff then 2 ^ failures * second else max_backoff)

unfoldable pub emit : Effect → Slot → Slot
emit e s = record s { effects = s.effects ++ e ∷ [] }

unfoldable pub persist_runtime : Slot → Slot
persist_runtime s = record s {
  saved = some (record {
    backoff_exponent = s.runtime.backoff_exponent;
    failure_timestamps = s.runtime.failure_timestamps;
    crashlooped = is_crashlooped s.runtime.state;
  });
}

-- `popleft` while the oldest is out of the window; `now` may lie before a timestamp
unfoldable pub prune : ℕ → List ℕ → List ℕ
prune now [] = []
prune now (t ∷ ts) = let rest = prune now ts in if ltb crash_window (now - t) then rest else t ∷ ts

unfoldable pub prune_failures : WorkerRuntime → ℕ → WorkerRuntime
unfolding prune
prune_failures r now = record r { failure_timestamps = prune now r.failure_timestamps }
