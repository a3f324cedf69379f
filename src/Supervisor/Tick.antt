-- ===== src/Supervisor/Tick.antt =====
-- The periodic inspection, restoring and reconciling of a worker (src/mco/agentd/supervisor.py).
use bit_cadence.Prelude.{
  ℕ, ◌+◌, ◌-◌, String, Bool, true, false, ◌&&◌, ◌||◌, not, Option, none, some, List, [], ◌∷◌, ◌++◌,
  ltb, leb, ◌==◌, if◌then◌else◌, is_some, get_or, ℤ, is_zero, length, str_eq,
}
use bit_cadence.Supervisor.Worker.{
  stopped, starting, crashlooped, Mode, waker, poll, off, is_off, is_poll, is_running,
  is_crashlooped, is_startable, WorkerConfig, exited, latch_restored, cooled_down, cooled_down_was,
  LastError, WorkerRuntime, initial, Saved, Effect, forget_pid, Slot, Readings, Outcome, done,
  persist_runtime, prune_failures, crash_limit, stable_reset, crashloop_cooldown,
}
use bit_cadence.Supervisor.Step.{record_failure, spawn, start, stop, restart}

-- `now - started_at`, 0 without a start
abbrev uptime : ℕ → Option ℕ → ℕ
uptime now none = 0
uptime now (some t) = now - t

-- `_forget_pid`, for a worker that has a process
forget : Option ℕ → List Effect → List Effect
forget none es = es
forget (some pid) es = es ++ forget_pid pid ∷ []

-- what `_handle_exit` writes before it looks at the exit code
unfoldable pub departed : ℤ → ℕ → Slot → Slot
unfolding forget
departed code now s =
    let stable = ltb stable_reset (uptime now s.runtime.started_at) in
    record s {
      effects = forget s.runtime.process s.effects;
      runtime = record s.runtime {
        backoff_exponent = if stable then 0 else s.runtime.backoff_exponent;
        process = none;
        started_at = none;
        last_exit = some code;
      };
    }

unfoldable pub handle_exit : Readings → ℤ → ℕ → Slot → Outcome
unfolding departed persist_runtime
handle_exit e code now s =
    let t : Slot = departed code now s in
    if not t.runtime.desired_running
    then done (record t { runtime = record t.runtime { state = stopped } })
    else if is_poll t.runtime.config.mode && is_zero code
    then done (
        persist_runtime (record t {
          runtime = record t.runtime {
            state = stopped;
            next_start_at = some (now + t.runtime.config.poll_interval);
          };
        }))
    else record_failure e now
        (record t { runtime = record t.runtime { last_error = some (exited code) } })

abbrev pub later : ℕ → Option ℕ → ℕ
later t none = t
later t (some m) = if leb m t then t else m

-- max(failure_timestamps, default=None)
unfoldable pub latest : List ℕ → Option ℕ
latest [] = none
latest (t ∷ ts) = some (later t (latest ts))

abbrev pub within_cooldown : ℕ → Option ℕ → Bool
within_cooldown wall none = false
within_cooldown wall (some t) = ltb (wall - t) crashloop_cooldown

abbrev cooldown_note : Option LastError → LastError
cooldown_note none = cooled_down
cooldown_note (some why) = cooled_down_was why

unfoldable pub maybe_leave_crashloop : Readings → ℕ → Slot → Outcome
unfolding persist_runtime spawn
maybe_leave_crashloop e now s =
    if not s.runtime.desired_running || is_off s.runtime.config.mode
    then done s
    else if within_cooldown e.wall (latest s.runtime.failure_timestamps)
    then done s
    else spawn e (
        persist_runtime (record s {
          runtime = record s.runtime {
            failure_timestamps = [];
            backoff_exponent = 0;
            last_error = some (cooldown_note s.runtime.last_error);
            state = starting;
            next_start_at = some now;
          };
        }))

-- a worker that has been up for long enough gets its backoff back
unfoldable pub settle : ℕ → Slot → Slot
unfolding persist_runtime
settle now s =
    if ltb stable_reset (uptime now s.runtime.started_at) && not (s.runtime.backoff_exponent == 0)
    then persist_runtime (record s { runtime = record s.runtime { backoff_exponent = 0 } })
    else s

after_poll : Readings → ℕ → Option ℤ → Slot → Outcome
unfolding handle_exit
after_poll e now none s = done s
after_poll e now (some code) s = handle_exit e code now s

abbrev due : ℕ → Option ℕ → Bool
due now none = false
due now (some t) = leb t now

unfoldable pub tick_worker : Readings → ℕ → Slot → Outcome
unfolding settle after_poll maybe_leave_crashloop spawn
tick_worker e now s =
    if is_running s.runtime.state && is_some s.runtime.process
    then after_poll e now e.poll_result (settle now s)
    else if is_crashlooped s.runtime.state
    then maybe_leave_crashloop e now s
    else if s.runtime.desired_running
        && is_startable s.runtime.state
        && due now s.runtime.next_start_at
    then spawn e (record s { runtime = record s.runtime { state = starting } })
    else done s

-- an absent entry is an empty one
abbrev saved_or_empty : Option Saved → Saved
saved_or_empty =
    get_or (record { backoff_exponent = 0; failure_timestamps = []; crashlooped = false })

unfoldable pub restore_runtime : ℕ → Slot → Slot
unfolding persist_runtime prune_failures
restore_runtime wall s =
    let raw : Saved = saved_or_empty s.saved in
    let r : WorkerRuntime =
      prune_failures
        (record s.runtime {
          backoff_exponent = raw.backoff_exponent;
          failure_timestamps = raw.failure_timestamps;
        })
        wall in
    let latched = raw.crashlooped || leb crash_limit (length r.failure_timestamps) in
    persist_runtime (record s {
      runtime =
          if latched
          then record r {
            state = crashlooped;
            desired_running = not (is_off r.config.mode);
            last_error = some latch_restored;
          }
          else r;
    })

abbrev same_mode : Mode → Mode → Bool
same_mode waker waker = true
same_mode poll poll = true
same_mode off off = true
same_mode _ _ = false

abbrev same_text : Option String → Option String → Bool
same_text none none = true
same_text (some a) (some b) = str_eq a b
same_text _ _ = false

-- `_execution_key(old) == _execution_key(config)`; the poll interval takes no part
unfoldable pub same_execution_key : WorkerConfig → WorkerConfig → Bool
same_execution_key a b =
    same_mode a.mode b.mode
    && str_eq a.role b.role
    && same_text a.agent b.agent
    && same_text a.exec_command b.exec_command
    && (a.min_interval == b.min_interval)

-- `reconcile` for a worker that is new: `saved` is its persistent entry
unfoldable pub adopt : Readings → WorkerConfig → Option Saved → Outcome
unfolding initial restore_runtime start
adopt e c saved =
    let s : Slot =
      restore_runtime e.wall (record { runtime = initial c; saved = saved; effects = [] }) in
    if not (is_off c.mode) && not (is_crashlooped s.runtime.state) then start e s else done s

-- `reconcile` for a worker that is known
unfoldable pub reconfigure : Readings → WorkerConfig → Slot → Outcome
unfolding stop start restart same_execution_key
reconfigure e c s =
    let old = s.runtime.config in
    let t : Slot = record s { runtime = record s.runtime { config = c } } in
    if is_off c.mode
    then done (stop e t)
    else if is_off old.mode
    then start e t
    else if not (same_execution_key old c)
    then restart e t
    else done t
