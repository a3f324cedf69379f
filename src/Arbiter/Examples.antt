-- ===== src/Arbiter/Examples.antt =====
-- Tests of the arbiter's model, and its theorems at concrete inputs. Times of day are in minutes.
use bit_cadence.Prelude.{
  ℕ, ◌≡◌, refl, arith, none, some, List, [], ◌∷◌, lookup, insert, pos, str_eq, if◌then◌else◌,
}
use bit_cadence.Arbiter.Resource.{Waiter, Holder, ResourceState, Config, idle_to_busy, unused}
use bit_cadence.Arbiter.Operations.{Arbiter, Request, granted, queued, acquire}
use bit_cadence.Arbiter.Soundness.{
  AllSound, IsSound, run, Command, acquires, releases, watchdog, run-AllSound,
}
use bit_cadence.Arbiter.Expiry.{looks, acquire_after_soft_expiry}

-- the GPU must be free by 08:00
abbrev night_only : Config
night_only = record {
  hard_deadline = λ rid. if str_eq rid "gpu" then some 480 else none;
  local_time = λ now. now;
}

abbrev trainer : Holder
trainer = record { owner = "trainer"; priority = pos 1; acquired_at = 10; deadline = some 100 }

abbrev renderer : Waiter
renderer = record { owner = "renderer"; priority = pos 5; requested_at = 30; deadline = none }

abbrev indexer : Waiter
indexer = record { owner = "indexer"; priority = pos 5; requested_at = 20; deadline = none }

abbrev busy : ResourceState
busy = record { holder = some trainer; queue = indexer ∷ renderer ∷ [] }

abbrev alone : ResourceState
alone = record { holder = some trainer; queue = [] }

abbrev office : Arbiter
office = record { states = ("gpu", busy) ∷ ("printer", alone) ∷ []; hooks = [] }

abbrev urgent : Request
urgent = record { owner = "chat"; priority = pos 9; deadline = none }

urgent_is_first : (acquire night_only "gpu" urgent 50 office).0 ≡ queued "trainer" (some 1)
unfolding acquire lookup insert
urgent_is_first = refl

busy-IsSound : IsSound busy
busy-IsSound = record {
  apart = (refl, (refl, tt));
  distinct = ((refl, tt), (tt, tt));
  sorted = ((refl, tt), (tt, tt));
}

abbrev day : List (ℕ × Command)
day =
    (50, acquires "gpu" urgent)
    ∷ (101, watchdog)
    ∷ (102, releases "gpu" "chat")
    ∷ (480, watchdog)
    ∷ []

run-AllSound_example :
    AllSound (run night_only (record { states = ("gpu", busy) ∷ []; hooks = [] }) day).states
run-AllSound_example =
    run-AllSound night_only (record { states = ("gpu", busy) ∷ []; hooks = [] }) day
      (busy-IsSound, tt)

abbrev morning : Arbiter
morning = record { states = ("printer", unused) ∷ []; hooks = [] }

abbrev short : Request
short = record { owner = "trainer"; priority = pos 1; deadline = some 100 }

acquire_after_soft_expiry_example :
    let b =
      looks night_only "printer"
        (50 ∷ 110 ∷ [])
        (acquire night_only "printer" short 10 morning).1 in
    ((acquire night_only "printer" short 10 morning).0 ≡ granted "trainer")
    × ((acquire night_only "printer" urgent 120 b).0 ≡ granted "chat")
    × ((acquire night_only "printer" urgent 120 b).1.hooks
        ≡ idle_to_busy "printer" ∷ idle_to_busy "printer" ∷ [])
unfolding lookup
acquire_after_soft_expiry_example =
    acquire_after_soft_expiry night_only "printer" short urgent 10 100 120 (50 ∷ 110 ∷ []) morning
      refl refl refl (omega arith)
