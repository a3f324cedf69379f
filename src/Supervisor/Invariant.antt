-- ===== src/Supervisor/Invariant.antt =====
-- What holds of a worker between two operations of the supervisor.
use bit_cadence.Prelude.{[], ℕ, true, false, ◌≡◌, Option, none, some, arith, is_some, ℤ}
use bit_cadence.Supervisor.Worker.{
  starting, running, backoff, crashlooped, is_off, WorkerConfig, exited, Saved, Slot, Readings,
  Outcome, done, overflowed, initial,
}
use bit_cadence.Supervisor.Step.{record_failure, spawn, start, stop, restart, reset}
use bit_cadence.Supervisor.Tick.{
  departed, handle_exit, maybe_leave_crashloop, settle, tick_worker, adopt, reconfigure,
  restore_runtime,
}

pub record Inv (s : Slot) : Type 0 where
  pub running_process : s.runtime.state ≡ running → is_some s.runtime.process ≡ true
  pub process_running : is_some s.runtime.process ≡ true → s.runtime.state ≡ running
  pub running_started : s.runtime.state ≡ running → is_some s.runtime.started_at ≡ true
  pub latched_idle : s.runtime.state ≡ crashlooped → s.runtime.next_start_at ≡ none
  pub backoff_due : s.runtime.state ≡ backoff → is_some s.runtime.next_start_at ≡ true
  pub backoff_desired : s.runtime.state ≡ backoff → s.runtime.desired_running ≡ true
  pub desired_on : s.runtime.desired_running ≡ true → is_off s.runtime.config.mode ≡ false

-- What a return promises; an exception promises nothing.
abbrev pub Keeps : Outcome → Type 0
Keeps (done t) = Inv t
Keeps (overflowed t) = Unit

-- No process, and wanted: where a failure is recorded.
record IsWaiting (s : Slot) : Type 0 where
  gone : s.runtime.process ≡ none
  desired : s.runtime.desired_running ≡ true
  on : is_off s.runtime.config.mode ≡ false

record_failure-Keeps :
    (e : Readings) (now : ℕ) (s : Slot) → IsWaiting s → Keeps (record_failure e now s)
unfolding record_failure
record_failure-Keeps e now s w = ground arith

spawn-Keeps :
    (e : Readings) (s : Slot)
    → s.runtime.process ≡ none
    → (s.runtime.desired_running ≡ true → is_off s.runtime.config.mode ≡ false)
    → (s.runtime.desired_running ≡ false → Inv s)
    → (s.runtime.state ≡ crashlooped → Inv s)
    → Keeps (spawn e s)
unfolding spawn
spawn-Keeps e s gone on idle latched = ground arith

pub start-Keeps : (e : Readings) (s : Slot) → Inv s → Keeps (start e s)
unfolding start
start-Keeps e s v = ground (
  arith,
  spawn-Keeps e (record s {
    runtime = record s.runtime {
      desired_running = true;
      state = starting;
      next_start_at = some e.clock;
    };
  }),
)

pub stop-Inv : (e : Readings) (s : Slot) → Inv (stop e s)
unfolding stop
stop-Inv e s = ground arith

pub restart-Keeps : (e : Readings) (s : Slot) → Keeps (restart e s)
unfolding restart
restart-Keeps e s = ground (arith, stop-Inv e s, start-Keeps e (stop e s))

pub reset-Keeps : (e : Readings) (s : Slot) → Inv s → Keeps (reset e s)
unfolding reset
reset-Keeps e s v = ground arith

handle_exit-Keeps :
    (e : Readings) (code : ℤ) (now : ℕ) (s : Slot) → Inv s → Keeps (handle_exit e code now s)
unfolding handle_exit
handle_exit-Keeps e code now s v =
    let t : Slot = departed code now s in
    ground (
      arith,
      record_failure-Keeps e now
          (record t { runtime = record t.runtime { last_error = some (exited code) } }),
    )

maybe_leave_crashloop-Keeps :
    (e : Readings) (now : ℕ) (s : Slot)
    → s.runtime.process ≡ none
    → Inv s
    → Keeps (maybe_leave_crashloop e now s)
unfolding maybe_leave_crashloop
maybe_leave_crashloop-Keeps e now s g v = ground arith

restore_runtime-Inv :
    (wall : ℕ) (c : WorkerConfig) (saved : Option Saved)
    → Inv (restore_runtime wall (record { runtime = initial c; saved = saved; effects = [] }))
unfolding restore_runtime initial
restore_runtime-Inv wall c saved = ground arith

settle-Inv : (now : ℕ) (s : Slot) → Inv s → Inv (settle now s)
unfolding settle
settle-Inv now s v = ground arith

process-settle : (now : ℕ) (s : Slot) → (settle now s).runtime.process ≡ s.runtime.process
unfolding settle
process-settle now s = ground arith

pub tick_worker-Keeps : (e : Readings) (now : ℕ) (s : Slot) → Inv s → Keeps (tick_worker e now s)
unfolding tick_worker
tick_worker-Keeps e now s v = ground arith

pub adopt-Keeps : (e : Readings) (c : WorkerConfig) (saved : Option Saved) → Keeps (adopt e c saved)
unfolding adopt
adopt-Keeps e c saved = ground (arith, restore_runtime-Inv e.wall c saved)

pub reconfigure-Keeps :
    (e : Readings) (c : WorkerConfig) (s : Slot) → Inv s → Keeps (reconfigure e c s)
unfolding reconfigure
reconfigure-Keeps e c s v = ground arith
