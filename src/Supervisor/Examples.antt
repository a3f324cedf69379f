-- ===== src/Supervisor/Examples.antt =====
-- Tests of the supervisor's model, and its theorems at concrete inputs. Times are in milliseconds.
use bit_cadence.Prelude.{
  ℕ, ◌+◌, ◌*◌, ◌^◌, ◌≤◌, ◌<◌, ◌≡◌, refl, true, false, none, some, List, [], ◌∷◌, arith, length, ◌⊎◌,
  pos,
}
use bit_cadence.Supervisor.Worker.{
  second, max_backoff, WorkerConfig, waker, Slot, Saved, Readings, done, overflowed, slot_of,
  running, backoff, crashlooped, spawned, prune, initial,
}
use bit_cadence.Supervisor.Step.{record_failure, start, reset}
use bit_cadence.Supervisor.Tick.{handle_exit, tick_worker, adopt}
use bit_cadence.Supervisor.Histories.{Call, ticks, resets, run, run_call, run-adopt-Inv}
use bit_cadence.Supervisor.Overflow.{crash_past_float_range}
use bit_cadence.Supervisor.Invariant.{Inv}
use bit_cadence.Supervisor.Latch.{recent, record_failure_lem}

abbrev builder : WorkerConfig
builder = record {
  worker = "builder";
  role = "builder";
  agent = none;
  mode = waker;
  exec_command = none;
  min_interval = 10;
  poll_interval = 60000;
  background = true;
}

abbrev calm : Readings
calm = record {
  clock = 1000;
  wall = 500000;
  poll_result = none;
  wait_timed_out = false;
  spawn_outcome = spawned 42;
}

-- the same, and the process has exited with code 1
abbrev crash : Readings
crash = record calm { poll_result = some (pos 1) }

abbrev after_cooldown : Readings
after_cooldown = record calm { wall = 1500000 }

abbrev crash_history : List (Readings × Call)
crash_history = (crash, ticks 2000) ∷ (calm, ticks 3500) ∷ (crash, resets) ∷ []

abbrev after_history : Slot
after_history = slot_of (run (adopt calm builder none) crash_history)

crash_runs_again :
    (slot_of (run (adopt calm builder none) ((crash, ticks 2000) ∷ (calm, ticks 3500) ∷ []))).starts
    ≡ 2
unfolding adopt run run_call tick_worker
crash_runs_again = refl

run-adopt-Inv_example : Inv after_history
unfolding adopt run run_call tick_worker reset
run-adopt-Inv_example = run-adopt-Inv calm builder none crash_history after_history refl

abbrev worn_out : Slot
worn_out = record {
  runtime = record (initial builder) {
    state = running;
    process = some 7;
    desired_running = true;
    started_at = some 0;
    backoff_exponent = 1024;
    failure_timestamps = [];
  };
  saved = none;
  effects = [];
}

crash_past_float_range_example :
    (t : Slot) × (handle_exit crash (pos 1) 1000 worn_out ≡ overflowed t)
    × (t.runtime.state ≡ running)
    × (t.runtime.process ≡ none)
    × (tick_worker calm 9000 t ≡ done t)
    × (start calm t ≡ done t)
unfolding initial prune
crash_past_float_range_example =
    crash_past_float_range crash calm (pos 1) 1000 9000 0 worn_out refl refl refl (omega arith) refl
      (omega arith) (omega arith)

abbrev old_and_new : List ℕ
old_and_new = 100 ∷ 410000 ∷ 420000 ∷ 430000 ∷ 440000 ∷ []

abbrev failing : Slot
failing = record worn_out {
  runtime = record worn_out.runtime {
    process = none;
    started_at = none;
    backoff_exponent = 4;
    failure_timestamps = old_and_new;
  };
}

record_failure_lem_example :
    ((5 ≤ length (recent calm failing))
      × (t : Slot) × (record_failure calm 1000 failing ≡ done t)
      × (t.runtime.state ≡ crashlooped)
      × (t.runtime.next_start_at ≡ none)
      × (t.saved
          ≡ some (record {
            backoff_exponent = failing.runtime.backoff_exponent;
            failure_timestamps = recent calm failing;
            crashlooped = true;
          })))
    ⊎ ((length (recent calm failing) < 5)
        × (failing.runtime.backoff_exponent ≤ 1023)
        × (t : Slot) × (d : ℕ) × (record_failure calm 1000 failing ≡ done t)
        × (t.runtime.state ≡ backoff)
        × (t.runtime.next_start_at ≡ some (1000 + d))
        × (d ≤ max_backoff)
        × (d ≤ 2 ^ failing.runtime.backoff_exponent * second)
        × ((d ≡ max_backoff) ⊎ (d ≡ 2 ^ failing.runtime.backoff_exponent * second))
        × (t.runtime.backoff_exponent ≡ failing.runtime.backoff_exponent + 1)
        × (t.runtime.failure_timestamps ≡ recent calm failing))
    ⊎ ((length (recent calm failing) < 5)
        × (1023 < failing.runtime.backoff_exponent)
        × (t : Slot) × (record_failure calm 1000 failing ≡ overflowed t))
record_failure_lem_example = record_failure_lem calm 1000 failing

abbrev latched : Slot
latched = record failing { runtime = record failing.runtime { state = crashlooped } }

abbrev latched_on_disk : Saved
latched_on_disk = record {
  backoff_exponent = 4;
  failure_timestamps = old_and_new;
  crashlooped = true;
}

abbrev just_latched : Slot
just_latched = slot_of (record_failure calm 1000 failing)
