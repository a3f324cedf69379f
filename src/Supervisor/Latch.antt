-- ===== src/Supervisor/Latch.antt =====
-- The crash-loop latch: when it closes, and that it stays closed through its cooldown.
use bit_cadence.Prelude.{
  ℕ, ◌+◌, ◌-◌, ◌*◌, ◌^◌, ◌≤◌, ◌<◌, ◌≡◌, refl, Bool, true, false, Option, none, some, List, [], ◌∷◌,
  ◌++◌, arith, ltb, leb, not, length, All, filter_by, Bool-cases, inl, inr, ◌⊎◌,
}
use mathlib.Core.List.{Memᴰ}
use bit_cadence.Supervisor.Worker.{
  Slot, Readings, done, crashlooped, backoff, slot_of, running, crash_window, crash_limit, second,
  max_backoff, overflowed, crashloop_cooldown, prune, persist_runtime, is_off, spawned,
}
use bit_cadence.Supervisor.Backoff.{backoff_delay_bounds}
use bit_cadence.Supervisor.Step.{record_failure, spawn}
use bit_cadence.Supervisor.Tick.{later, latest, within_cooldown, maybe_leave_crashloop, tick_worker}

abbrev pub in_window : ℕ → ℕ → Bool
in_window now t = not (ltb crash_window (now - t))

-- oldest first
abbrev pub Ascending : List ℕ → Type 0
Ascending [] = Unit {0}
Ascending (t ∷ ts) = All (λ u. t ≤ u) ts × Ascending ts

filter_by-All :
    (now t : ℕ) (ts : List ℕ)
    → ltb crash_window (now - t) ≡ false
    → All (λ u. t ≤ u) ts
    → filter_by (in_window now) ts ≡ ts
filter_by-All now t [] h a = refl
filter_by-All now t (u ∷ us) h a = ground (arith, filter_by-All now t us h)

-- Dropping from the left until one is in the window keeps exactly the failures in the window, if
-- they are in order of time.
pub prune-filter_by :
    (now : ℕ) (ts : List ℕ) → Ascending ts → prune now ts ≡ filter_by (in_window now) ts
unfolding prune
prune-filter_by now [] a = refl
prune-filter_by now (t ∷ ts) a = ground (arith, prune-filter_by now ts, filter_by-All now t ts)

abbrev pub recent : Readings → Slot → List ℕ
recent e s = prune e.wall (s.runtime.failure_timestamps ++ e.wall ∷ [])

-- What recording a failure leaves, by the number of failures in the window.
latched_by : Readings → Slot → Slot
unfolding persist_runtime
latched_by e s = persist_runtime (record s {
  runtime = record s.runtime {
    failure_timestamps = recent e s;
    state = crashlooped;
    next_start_at = none;
  };
})

put_off : Readings → ℕ → Slot → Slot
unfolding persist_runtime
put_off e until s = persist_runtime (record s {
  runtime = record s.runtime {
    failure_timestamps = recent e s;
    backoff_exponent = s.runtime.backoff_exponent + 1;
    state = backoff;
    next_start_at = some until;
  };
})

-- Recording a failure latches the worker, on the disk too, if five or more failures are in the
-- window. With fewer, and an exponent n of 1023 at most, the worker is put off by the lesser of a minute and
-- two to the n seconds, and the exponent goes up by one. With fewer, and an exponent past 1023, the
-- call raises.
pub record_failure_lem :
    (e : Readings) (now : ℕ) (s : Slot)
    → ((5 ≤ length (recent e s))
        × (t : Slot) × (record_failure e now s ≡ done t)
        × (t.runtime.state ≡ crashlooped)
        × (t.runtime.next_start_at ≡ none)
        × (t.saved
            ≡ some (record {
              backoff_exponent = s.runtime.backoff_exponent;
              failure_timestamps = recent e s;
              crashlooped = true;
            })))
      ⊎ ((length (recent e s) < 5)
          × (s.runtime.backoff_exponent ≤ 1023)
          × (t : Slot) × (d : ℕ) × (record_failure e now s ≡ done t)
          × (t.runtime.state ≡ backoff)
          × (t.runtime.next_start_at ≡ some (now + d))
          × (d ≤ max_backoff)
          × (d ≤ 2 ^ s.runtime.backoff_exponent * second)
          × ((d ≡ max_backoff) ⊎ (d ≡ 2 ^ s.runtime.backoff_exponent * second))
          × (t.runtime.backoff_exponent ≡ s.runtime.backoff_exponent + 1)
          × (t.runtime.failure_timestamps ≡ recent e s))
      ⊎ ((length (recent e s) < 5)
          × (1023 < s.runtime.backoff_exponent)
          × (t : Slot) × (record_failure e now s ≡ overflowed t))
unfolding record_failure latched_by put_off
record_failure_lem e now s = elim (Bool-cases (leb crash_limit (length (recent e s)))) [
  | inl many ↦
      inl (ground arith, latched_by e s, ground arith, ground arith, ground arith, ground arith)
  | inr few ↦ elim (backoff_delay_bounds s.runtime.backoff_exponent) [
    | inl (low, d, h, _, most, short, exact) ↦ inr (
        inl (
          ground arith,
          low,
          put_off e (now + d) s,
          d,
          ground arith,
          ground arith,
          ground arith,
          most,
          short,
          exact,
          ground arith,
          ground arith,
        ))
    | inr (high, h) ↦ inr (inr (ground arith, high, slot_of (record_failure e now s), ground arith))
  ]
]

later-ge : (t : ℕ) (o : Option ℕ) → t ≤ later t o
later-ge t none = omega arith
later-ge t (some m) = ground arith

later-ge_old : (t m : ℕ) (o : Option ℕ) → o ≡ some m → m ≤ later t o
later-ge_old t m none e = cc
later-ge_old t m (some n) e = ground arith

latest-ge : (t : ℕ) (ts : List ℕ) → Memᴰ t ts → (m : ℕ) × (latest ts ≡ some m) × (t ≤ m)
unfolding latest
latest-ge t [] h = elim h [ ]
latest-ge t (u ∷ us) (Memᴰ.head e) =
    (later u (latest us), refl, omega (arith, later-ge u (latest us), e))
latest-ge t (u ∷ us) (Memᴰ.tail h) =
    let (m, p, le) = latest-ge t us h in
    (later u (latest us), refl, omega (arith, later-ge_old u m (latest us) p, le))

-- While any failure that counted is younger than the cooldown, a tick leaves a latched worker as it
-- is: nothing is spawned and nothing is written.
pub tick_worker-latched :
    (e : Readings) (now t : ℕ) (s : Slot)
    → s.runtime.state ≡ crashlooped
    → Memᴰ t s.runtime.failure_timestamps
    → e.wall - t < crashloop_cooldown
    → tick_worker e now s ≡ done s
unfolding tick_worker maybe_leave_crashloop
tick_worker-latched e now t s latched m young =
    let (l, p, le) = latest-ge t s.runtime.failure_timestamps m in ground arith

abbrev pub AllCooled : ℕ → List ℕ → Type 0
AllCooled wall = All (λ t. crashloop_cooldown ≤ wall - t)

latest-cooled :
    (wall : ℕ) (ts : List ℕ) → AllCooled wall ts → within_cooldown wall (latest ts) ≡ false
unfolding latest
latest-cooled wall [] a = refl
latest-cooled wall (t ∷ ts) a = ground (arith, latest-cooled wall ts a.1)

-- Once every failure is as old as the cooldown, a tick starts a latched worker that is wanted and
-- not off: if the spawn succeeds it runs, with no failures and no backoff on record.
pub tick_worker-cooled :
    (e : Readings) (now pid : ℕ) (s : Slot)
    → s.runtime.state ≡ crashlooped
    → s.runtime.desired_running ≡ true
    → is_off s.runtime.config.mode ≡ false
    → e.spawn_outcome ≡ spawned pid
    → AllCooled e.wall s.runtime.failure_timestamps
    → (t : Slot) × (tick_worker e now s ≡ done t)
      × (t.runtime.state ≡ running)
      × (t.runtime.process ≡ some pid)
      × (t.runtime.failure_timestamps ≡ [])
      × (t.runtime.backoff_exponent ≡ 0)
unfolding tick_worker maybe_leave_crashloop spawn
tick_worker-cooled e now pid s latched wanted on o old =
    let cold = latest-cooled e.wall s.runtime.failure_timestamps old in
    (
      slot_of (tick_worker e now s),
      ground arith,
      ground arith,
      ground arith,
      ground arith,
      ground arith,
    )
