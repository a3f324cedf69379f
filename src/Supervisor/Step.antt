-- ===== src/Supervisor/Step.antt =====
-- The operations on one worker (src/mco/agentd/supervisor.py). `startup` is taken as done.
use bit_cadence.Prelude.{
  ℕ, ◌+◌, true, false, ◌&&◌, ◌||◌, not, Option, none, some, [], ◌∷◌, ◌++◌, leb, if◌then◌else◌,
  is_some, length,
}
use bit_cadence.Supervisor.Worker.{
  stopped, starting, running, backoff, crashlooped, Mode, off, is_off, is_running, is_crashlooped,
  spawn_failed, disabled, LastError, WorkerRuntime, terminate_call, kill_call, forget_pid,
  spawn_call, Slot, SpawnOutcome, spawned, spawn_error, Readings, Outcome, done, overflowed,
  backoff_delay, emit, persist_runtime, prune_failures, crash_limit,
}

-- `_record_failure`, behind the test on the delay
retry_after : ℕ → Slot → Option ℕ → Outcome
unfolding persist_runtime
retry_after now s none = overflowed s
retry_after now s (some delay) = done (
    persist_runtime (record s {
      runtime = record s.runtime {
        backoff_exponent = s.runtime.backoff_exponent + 1;
        state = backoff;
        next_start_at = some (now + delay);
      };
    }))

unfoldable pub record_failure : Readings → ℕ → Slot → Outcome
unfolding retry_after prune_failures backoff_delay
record_failure e now s =
    let r : WorkerRuntime =
      prune_failures
        (record s.runtime { failure_timestamps = s.runtime.failure_timestamps ++ e.wall ∷ [] })
        e.wall in
    if leb crash_limit (length r.failure_timestamps)
    then done (
        persist_runtime
          (record s { runtime = record r { state = crashlooped; next_start_at = none } }))
    else retry_after now (record s { runtime = r }) (backoff_delay r.backoff_exponent)

fail_spawn : Readings → LastError → Slot → Outcome
unfolding record_failure
fail_spawn e why s =
    record_failure e e.clock (record s { runtime = record s.runtime { last_error = some why } })

attach : Readings → ℕ → Slot → Slot
unfolding emit
attach e pid s = emit (spawn_call pid) (record s {
  runtime = record s.runtime {
    process = some pid;
    started_at = some e.clock;
    next_start_at = none;
    state = running;
    starts = s.runtime.starts + 1;
  };
})

-- `_argv` raises ValueError for a worker that is off; `adapter.spawn` may raise too
try_spawn : Readings → Mode → SpawnOutcome → Slot → Outcome
unfolding fail_spawn attach
try_spawn e off o s = fail_spawn e (disabled s.runtime.config.worker) s
try_spawn e m (spawn_error why) s = fail_spawn e (spawn_failed why) s
try_spawn e m (spawned pid) s = done (attach e pid s)

unfoldable pub spawn : Readings → Slot → Outcome
unfolding try_spawn
spawn e s =
    if not s.runtime.desired_running || is_crashlooped s.runtime.state
    then done s
    else try_spawn e s.runtime.config.mode e.spawn_outcome s

unfoldable pub start : Readings → Slot → Outcome
unfolding spawn
start e s =
    if is_off s.runtime.config.mode || is_running s.runtime.state
    then done s
    else if is_crashlooped s.runtime.state
    then done s
    else spawn e (record s {
      runtime = record s.runtime {
        desired_running = true;
        state = starting;
        next_start_at = some e.clock;
      };
    })

-- terminate, and kill if it does not end in time; a process that has ended is only forgotten
end_process : Readings → Option ℕ → Slot → Slot
unfolding emit
end_process e none s = s
end_process e (some pid) s =
    if is_some e.poll_result
    then emit (forget_pid pid) s
    else if e.wait_timed_out
    then emit (forget_pid pid) (emit (kill_call pid) (emit (terminate_call pid) s))
    else emit (forget_pid pid) (emit (terminate_call pid) s)

unfoldable pub stop : Readings → Slot → Slot
unfolding end_process
stop e s =
    let t : Slot = end_process e s.runtime.process s in
    record t {
      runtime = record t.runtime {
        desired_running = false;
        next_start_at = none;
        process = none;
        started_at = none;
        state = stopped;
      };
    }

unfoldable pub restart : Readings → Slot → Outcome
unfolding stop start
restart e s = let t : Slot = stop e s in if is_off t.runtime.config.mode then done t else start e t

-- the part of `reset` that runs when no process is alive
reset_dead : Readings → Option ℕ → Slot → Outcome
unfolding emit persist_runtime start
reset_dead e none s =
    let t : Slot = persist_runtime (record s { runtime = record s.runtime { state = stopped } }) in
    if is_off t.runtime.config.mode then done t else start e t
reset_dead e (some pid) s =
    let t : Slot = persist_runtime (
      emit (forget_pid pid) (record s {
        runtime = record s.runtime { process = none; started_at = none; state = stopped };
      })) in
    if is_off t.runtime.config.mode then done t else start e t

unfoldable pub reset : Readings → Slot → Outcome
unfolding reset_dead
reset e s =
    let t : Slot = record s {
      runtime = record s.runtime {
        backoff_exponent = 0;
        failure_timestamps = [];
        last_error = none;
      };
    } in
    if is_some t.runtime.process && not (is_some e.poll_result)
    then done (persist_runtime (record t { runtime = record t.runtime { state = running } }))
    else reset_dead e t.runtime.process t
