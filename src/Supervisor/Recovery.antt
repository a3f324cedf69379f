-- ===== src/Supervisor/Recovery.antt =====
-- A supervisor that is started again takes a worker up where the persistent state left it.
use bit_cadence.Prelude.{
  ℕ, ◌≤◌, ◌≡◌, refl, true, false, Option, none, some, List, [], ◌∷◌, arith, not, length, ◌⊎◌, inl,
}
use bit_cadence.Supervisor.Worker.{
  WorkerConfig, Slot, Saved, Readings, done, slot_of, crashlooped, running, spawned, initial, prune,
  is_off,
}
use bit_cadence.Supervisor.Step.{record_failure, start, spawn}
use bit_cadence.Supervisor.Tick.{adopt, restore_runtime, tick_worker}
use bit_cadence.Supervisor.Latch.{recent, AllCooled, tick_worker-cooled}

-- An entry that is latched, or that still holds five failures in the window, is adopted latched and
-- nothing is spawned; the worker is wanted unless it is off.
pub adopt-latched :
    (e : Readings) (c : WorkerConfig) (saved : Saved)
    → (saved.crashlooped ≡ true) ⊎ (5 ≤ length (prune e.wall saved.failure_timestamps))
    → (t : Slot) × (adopt e c (some saved) ≡ done t)
      × (t.runtime.state ≡ crashlooped)
      × (t.runtime.process ≡ none)
      × (t.runtime.desired_running ≡ not (is_off c.mode))
      × (t.runtime.failure_timestamps ≡ prune e.wall saved.failure_timestamps)
      × (t.effects ≡ [])
unfolding adopt restore_runtime initial
adopt-latched e c saved h = (
  slot_of (adopt e c (some saved)),
  ground arith,
  ground arith,
  ground arith,
  ground arith,
  ground arith,
  ground arith,
)

prune-cooled : (now wall : ℕ) (ts : List ℕ) → AllCooled wall ts → AllCooled wall (prune now ts)
unfolding prune
prune-cooled now wall [] a = tt
prune-cooled now wall (t ∷ ts) a = ground (arith, prune-cooled now wall ts a.1)

latched_entry : Readings → Slot → Saved
latched_entry e s = record {
  backoff_exponent = s.runtime.backoff_exponent;
  failure_timestamps = recent e s;
  crashlooped = true;
}

saved-latched :
    (e : Readings) (now : ℕ) (s t : Slot)
    → record_failure e now s ≡ done t
    → t.runtime.state ≡ crashlooped
    → t.saved ≡ some (latched_entry e s)
unfolding record_failure latched_entry
saved-latched e now s t h latched = ground arith

mode-adopt :
    (e : Readings) (c : WorkerConfig) (saved : Option Saved) (u : Slot)
    → adopt e c saved ≡ done u
    → is_off c.mode ≡ false
    → is_off u.runtime.config.mode ≡ false
unfolding adopt restore_runtime initial start spawn record_failure
mode-adopt e c saved u h on = ground arith

-- A worker that latched, on a supervisor that then dies, stays latched under the next supervisor,
-- and a tick of that one after the cooldown starts it, if it is not off and the spawn succeeds.
pub latch_survives_restart :
    (e e' e'' : Readings) (now now' pid : ℕ) (c : WorkerConfig) (s t : Slot)
    → record_failure e now s ≡ done t
    → t.runtime.state ≡ crashlooped
    → is_off c.mode ≡ false
    → e''.spawn_outcome ≡ spawned pid
    → AllCooled e''.wall (recent e s)
    → (u v : Slot) × (adopt e' c t.saved ≡ done u)
      × (u.runtime.state ≡ crashlooped)
      × (tick_worker e'' now' u ≡ done v)
      × (v.runtime.state ≡ running)
      × (v.runtime.process ≡ some pid)
unfolding latched_entry
latch_survives_restart e e' e'' now now' pid c s t h latched on o old =
    let (u, adopted, u_latched, gone, wanted, ts, calls) =
      adopt-latched e' c (latched_entry e s) (inl refl) in
    let cooled : AllCooled e''.wall u.runtime.failure_timestamps =
      rw ts (prune-cooled e'.wall e''.wall (recent e s) old) in
    let (v, ticked, v_running, v_pid, _, _) =
      tick_worker-cooled e'' now' pid u u_latched (ground arith) (mode-adopt e' c _ u adopted on) o
        cooled in
    (u, v, rw (saved-latched e now s t h latched) adopted, u_latched, ticked, v_running, v_pid)
