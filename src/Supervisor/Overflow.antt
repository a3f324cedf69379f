-- ===== src/Supervisor/Overflow.antt =====
-- A worker that crashes with a backoff exponent past 1023 (supervisor.py, `backoff_delay`).
use bit_cadence.Prelude.{
  ℕ, ◌-◌, ◌≤◌, ◌<◌, ◌≡◌, refl, true, false, none, some, [], ◌∷◌, ◌++◌, arith, ℤ, length, is_zero,
  ◌&&◌,
}
use bit_cadence.Supervisor.Worker.{
  Slot, Readings, done, overflowed, running, is_poll, prune, prune_failures, exited, stable_reset,
}
use bit_cadence.Supervisor.Step.{record_failure, start}
use bit_cadence.Supervisor.Tick.{departed, handle_exit, tick_worker}

record_failure-overflows :
    (e : Readings) (now : ℕ) (s : Slot)
    → length (prune e.wall (s.runtime.failure_timestamps ++ e.wall ∷ [])) < 5
    → 1023 < s.runtime.backoff_exponent
    → record_failure e now s
      ≡ overflowed (record s {
        runtime =
            prune_failures
              (record s.runtime {
                failure_timestamps = s.runtime.failure_timestamps ++ e.wall ∷ [];
              })
              e.wall;
      })
unfolding record_failure
record_failure-overflows e now s few high = ground arith

running-stuck :
    (e : Readings) (now : ℕ) (t : Slot)
    → t.runtime.state ≡ running
    → t.runtime.process ≡ none
    → (tick_worker e now t ≡ done t) × (start e t ≡ done t)
unfolding tick_worker start
running-stuck e now t r p = (ground arith, ground arith)

-- what a crash leaves behind when it raises
unfoldable pub wreck : Readings → ℤ → ℕ → Slot → Slot
unfolding departed prune_failures
wreck e code now s =
    let t : Slot = departed code now s in
    record t {
      runtime =
          prune_failures
            (record t.runtime {
              last_error = some (exited code);
              failure_timestamps = s.runtime.failure_timestamps ++ e.wall ∷ [];
            })
            e.wall;
    }

-- A wanted, running worker whose exponent is past 1023 exits with an error after at most a minute
-- of uptime, and fewer than five failures are in the window: handling the exit raises, and leaves
-- the worker marked running with no process, which every later tick and start leaves as it is.
pub crash_past_float_range :
    (e e' : Readings) (code : ℤ) (now now' started : ℕ) (s : Slot)
    → s.runtime.state ≡ running
    → s.runtime.desired_running ≡ true
    → s.runtime.started_at ≡ some started
    → now - started ≤ stable_reset
    → (is_poll s.runtime.config.mode && is_zero code) ≡ false
    → 1023 < s.runtime.backoff_exponent
    → length (prune e.wall (s.runtime.failure_timestamps ++ e.wall ∷ [])) < 5
    → (t : Slot) × (handle_exit e code now s ≡ overflowed t)
      × (t.runtime.state ≡ running)
      × (t.runtime.process ≡ none)
      × (tick_worker e' now' t ≡ done t)
      × (start e' t ≡ done t)
unfolding handle_exit wreck
crash_past_float_range e e' code now now' started s r d st short crash high few = (
  wreck e code now s,
  ground (
    arith,
    record_failure-overflows e now (record (departed code now s) {
      runtime = record (departed code now s).runtime { last_error = some (exited code) };
    }),
  ),
  r,
  refl,
  (running-stuck e' now' (wreck e code now s) r refl).0,
  (running-stuck e' now' (wreck e code now s) r refl).1,
)
