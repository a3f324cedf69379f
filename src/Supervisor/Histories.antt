-- ===== src/Supervisor/Histories.antt =====
-- Any sequence of operations on one worker, each with its own readings.
use bit_cadence.Prelude.{ℕ, ◌≡◌, Option, List, [], ◌∷◌, arith}
use bit_cadence.Supervisor.Worker.{WorkerConfig, Saved, Slot, Readings, Outcome, done, overflowed}
use bit_cadence.Supervisor.Step.{start, stop, restart, reset}
use bit_cadence.Supervisor.Tick.{tick_worker, adopt, reconfigure}
use bit_cadence.Supervisor.Invariant.{
  Inv, Keeps, start-Keeps, stop-Inv, restart-Keeps, reset-Keeps, tick_worker-Keeps, adopt-Keeps,
  reconfigure-Keeps,
}

pub data Call : Type 0 where
  ticks : ℕ → Call
  starts stops restarts resets : Call
  reconfigures : WorkerConfig → Call

unfoldable pub run_call : Readings → Call → Slot → Outcome
run_call e (ticks now) s = tick_worker e now s
run_call e starts s = start e s
run_call e stops s = done (stop e s)
run_call e restarts s = restart e s
run_call e resets s = reset e s
run_call e (reconfigures c) s = reconfigure e c s

-- A history ends where an operation raises.
unfoldable pub run : Outcome → List (Readings × Call) → Outcome
run o [] = o
run (overflowed s) (c ∷ cs) = overflowed s
run (done s) ((e, c) ∷ cs) = run (run_call e c s) cs

run_call-Keeps : (e : Readings) (c : Call) (s : Slot) → Inv s → Keeps (run_call e c s)
unfolding run_call
run_call-Keeps e (ticks now) s v = tick_worker-Keeps e now s v
run_call-Keeps e starts s v = start-Keeps e s v
run_call-Keeps e stops s v = stop-Inv e s
run_call-Keeps e restarts s v = restart-Keeps e s
run_call-Keeps e resets s v = reset-Keeps e s v
run_call-Keeps e (reconfigures c) s v = reconfigure-Keeps e c s v

run-Keeps : (o : Outcome) (cs : List (Readings × Call)) → Keeps o → Keeps (run o cs)
unfolding run
run-Keeps o [] k = k
run-Keeps (overflowed s) (c ∷ cs) k = tt
run-Keeps (done s) ((e, c) ∷ cs) k = run-Keeps (run_call e c s) cs (run_call-Keeps e c s k)

-- After a worker is adopted from any persistent entry and any operations are run on it, unless one
-- raised: it has a process exactly if it is running, a running worker has a start time, a worker in
-- backoff is wanted and has its next start set, a latched worker has none, and a worker that is
-- off is not wanted.
pub run-adopt-Inv :
    (e : Readings) (c : WorkerConfig) (saved : Option Saved) (cs : List (Readings × Call))
    (t : Slot)
    → run (adopt e c saved) cs ≡ done t
    → Inv t
run-adopt-Inv e c saved cs t h =
    ground (arith, run-Keeps (adopt e c saved) cs (adopt-Keeps e c saved))
