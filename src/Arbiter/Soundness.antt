-- ===== src/Arbiter/Soundness.antt =====
-- What holds of every resource between two calls (resource_arbiter.py).
use bit_cadence.Prelude.{
  ℕ, ◌≡◌, refl, String, Bool, true, false, Option, none, some, List, [], ◌∷◌, arith, str_eq,
  Bool-cases, inl, inr, if◌then◌else◌, Dict, lookup, insert, Option-cases, ◌||◌,
}
use bit_cadence.Arbiter.Resource.{
  Waiter, Holder, ResourceState, Config, unused, promote, next_holder, apply_soft_deadline,
  apply_hard_deadline, is_empty,
}
use bit_cadence.Arbiter.Operations.{
  Arbiter, Request, take, apply_deadlines, state_or_new, acquire, release, status, sweep, sweep_one,
  enforce_deadlines, held_by,
}
use bit_cadence.Arbiter.Queue.{
  Absent, Distinct, Sorted, enqueue-Distinct, enqueue-Sorted, enqueue-Absent, differ_sym,
}

abbrev pub Apart : Option Holder → List Waiter → Type 0
Apart none ws = ws ≡ []
Apart (some h) ws = Absent h.owner ws

-- Nobody waits for an idle resource, the holder does not wait for its own, nobody waits twice, and
-- the queue is in order.
pub record IsSound (rs : ResourceState) : Type 0 where
  pub apart : Apart rs.holder rs.queue
  pub distinct : Distinct rs.queue
  pub sorted : Sorted rs.queue

unused-IsSound : IsSound unused
unused-IsSound = record { apart = refl; distinct = tt; sorted = tt }

next_holder-IsSound :
    (ws : List Waiter) (now : ℕ) → Distinct ws → Sorted ws → IsSound (next_holder ws now)
next_holder-IsSound [] now d s = unused-IsSound
next_holder-IsSound (w ∷ ws) now d s = record { apart = d.0; distinct = d.1; sorted = s.1 }

promote-IsSound : (rs : ResourceState) (now : ℕ) → IsSound rs → IsSound (promote rs now)
unfolding promote
promote-IsSound rs now v = next_holder-IsSound rs.queue now v.distinct v.sorted

soft-IsSound : (rs : ResourceState) (now : ℕ) → IsSound rs → IsSound (apply_soft_deadline rs now).0
unfolding apply_soft_deadline
soft-IsSound rs now v = ground (arith, promote-IsSound rs now)

hard-IsSound :
    (cfg : Config) (rid : String) (rs : ResourceState) (now : ℕ)
    → IsSound rs
    → IsSound (apply_hard_deadline cfg rid rs now).0
unfolding apply_hard_deadline
hard-IsSound cfg rid rs now v = ground (arith, unused-IsSound)

deadlines-IsSound :
    (cfg : Config) (rid : String) (rs : ResourceState) (now : ℕ)
    → IsSound rs
    → IsSound (apply_deadlines cfg rid rs now).0
unfolding apply_deadlines
deadlines-IsSound cfg rid rs now v =
    soft-IsSound (apply_hard_deadline cfg rid rs now).0 now (hard-IsSound cfg rid rs now v)

take_parts-IsSound :
    (rid : String) (q : Request) (now : ℕ) (ws : List Waiter) (o : Option Holder)
    → Apart o ws
    → Distinct ws
    → Sorted ws
    → IsSound (take rid q now ws o).1
unfolding take
take_parts-IsSound rid q now [] none a d s = unused_queue
  where
    unused_queue : IsSound (take rid q now [] none).1
    unused_queue = record { apart = tt; distinct = tt; sorted = tt }
take_parts-IsSound rid q now (w ∷ ws) none a d s = absurd (cc)
take_parts-IsSound rid q now ws (some h) a d s = elim (Bool-cases (str_eq h.owner q.owner)) [
  | inl own ↦ rw own (record { apart = a; distinct = d; sorted = s })
  | inr other ↦ rw other (record {
    apart = enqueue-Absent q now h.owner ws (differ_sym h.owner q.owner other) a;
    distinct = enqueue-Distinct q now ws d;
    sorted = enqueue-Sorted q now ws;
  })
]

take-IsSound :
    (rid : String) (q : Request) (now : ℕ) (rs : ResourceState)
    → IsSound rs
    → IsSound (take rid q now rs.queue rs.holder).1
take-IsSound rid q now rs v =
    take_parts-IsSound rid q now rs.queue rs.holder v.apart v.distinct v.sorted

-- every resource of the state file
abbrev pub AllSound : Dict ResourceState → Type 0
AllSound [] = Unit {0}
AllSound ((rid, rs) ∷ d) = IsSound rs × AllSound d

lookup-IsSound :
    (rid : String) (d : Dict ResourceState) → AllSound d → IsSound (state_or_new (lookup rid d))
unfolding lookup
lookup-IsSound rid [] a = unused-IsSound
lookup-IsSound rid ((i, rs) ∷ d) a = elim (Bool-cases (str_eq i rid)) [
  | inl hit ↦ rw hit a.0
  | inr miss ↦ rw miss (lookup-IsSound rid d a.1)
]

insert-AllSound :
    (rid : String) (rs : ResourceState) (d : Dict ResourceState)
    → IsSound rs
    → AllSound d
    → AllSound (insert rid rs d)
unfolding insert
insert-AllSound rid rs [] v a = (v, tt)
insert-AllSound rid rs ((i, r) ∷ d) v a = elim (Bool-cases (str_eq i rid)) [
  | inl hit ↦ rw hit (v, a.1)
  | inr miss ↦ rw miss (a.0, insert-AllSound rid rs d v a.1)
]

acquire-AllSound :
    (cfg : Config) (rid : String) (q : Request) (now : ℕ) (a : Arbiter)
    → AllSound a.states
    → AllSound (acquire cfg rid q now a).1.states
unfolding acquire
acquire-AllSound cfg rid q now a v =
    insert-AllSound rid _ a.states
      (take-IsSound rid q now _ (deadlines-IsSound cfg rid _ now (lookup-IsSound rid a.states v))) v

release-AllSound :
    (rid o : String) (now : ℕ) (a : Arbiter)
    → AllSound a.states
    → AllSound (release rid o now a).1.states
unfolding release
release-AllSound rid o now a v = elim (Option-cases (lookup rid a.states)) [
  | inl n ↦ rw (n, release) v
  | inr (rs, e) ↦
      let sound : IsSound rs = rw e at (lookup-IsSound rid a.states v) in
      rw (e, release)
        (elim (Bool-cases (held_by o rs.holder)) [
          | inl held ↦
              rw held
                (insert-AllSound rid (promote rs now) a.states (promote-IsSound rs now sound) v)
          | inr free ↦ rw free v
        ])
]

status-AllSound :
    (cfg : Config) (rid : String) (now : ℕ) (a : Arbiter)
    → AllSound a.states
    → AllSound (status cfg rid now a).1.states
unfolding status
status-AllSound cfg rid now a v =
    let rs = state_or_new (lookup rid a.states) in
    let (rs', hard, soft, _) = apply_deadlines cfg rid rs now in
    if_sound (hard || soft) _ a.states
      (insert-AllSound rid rs' a.states
        (deadlines-IsSound cfg rid rs now (lookup-IsSound rid a.states v)) v)
      v
  where
    if_sound :
        (b : Bool) (d d' : Dict ResourceState)
        → AllSound d
        → AllSound d'
        → AllSound (if b then d else d')
    if_sound true d d' x y = x
    if_sound false d d' x y = y

sweep_one-IsSound :
    (cfg : Config) (now : ℕ) (rid : String) (rs : ResourceState)
    → IsSound rs
    → IsSound (sweep_one cfg now rid rs).0
unfolding sweep_one
sweep_one-IsSound cfg now rid rs v =
    let (rs', hard, _) = apply_hard_deadline cfg rid rs now in
    let cleared = hard-IsSound cfg rid rs now v in
    either hard rs' (apply_soft_deadline rs' now).0 cleared (soft-IsSound rs' now cleared)
  where
    either : (b : Bool) (x y : ResourceState) → IsSound x → IsSound y → IsSound (if b then x else y)
    either true x y p q = p
    either false x y p q = q

sweep-AllSound :
    (cfg : Config) (now : ℕ) (d : Dict ResourceState) → AllSound d → AllSound (sweep cfg now d).0
unfolding sweep
sweep-AllSound cfg now [] a = tt
sweep-AllSound cfg now ((rid, rs) ∷ d) a =
    (sweep_one-IsSound cfg now rid rs a.0, sweep-AllSound cfg now d a.1)

enforce_deadlines-AllSound :
    (cfg : Config) (now : ℕ) (a : Arbiter)
    → AllSound a.states
    → AllSound (enforce_deadlines cfg now a).1.states
unfolding enforce_deadlines
enforce_deadlines-AllSound cfg now a v =
    either (is_empty (sweep cfg now a.states).1) a.states (sweep cfg now a.states).0 v
      (sweep-AllSound cfg now a.states v)
  where
    either :
        (b : Bool) (x y : Dict ResourceState)
        → AllSound x
        → AllSound y
        → AllSound (if b then x else y)
    either true x y p q = p
    either false x y p q = q

pub data Command : Type 0 where
  acquires : String → Request → Command
  releases : String → String → Command
  inspects : String → Command
  watchdog : Command

-- one run of the command line, each under the file lock, and a sequence of them at their times
unfoldable pub command : Config → ℕ → Command → Arbiter → Arbiter
command cfg now (acquires rid q) a = (acquire cfg rid q now a).1
command cfg now (releases rid o) a = (release rid o now a).1
command cfg now (inspects rid) a = (status cfg rid now a).1
command cfg now watchdog a = (enforce_deadlines cfg now a).1

unfoldable pub run : Config → Arbiter → List (ℕ × Command) → Arbiter
run cfg a [] = a
run cfg a ((now, c) ∷ cs) = run cfg (command cfg now c a) cs

command-AllSound :
    (cfg : Config) (now : ℕ) (c : Command) (a : Arbiter)
    → AllSound a.states
    → AllSound (command cfg now c a).states
unfolding command
command-AllSound cfg now (acquires rid q) a v = acquire-AllSound cfg rid q now a v
command-AllSound cfg now (releases rid o) a v = release-AllSound rid o now a v
command-AllSound cfg now (inspects rid) a v = status-AllSound cfg rid now a v
command-AllSound cfg now watchdog a v = enforce_deadlines-AllSound cfg now a v

-- Whatever commands any processes run, at whatever times, if the state file was sound it stays so: no
-- idle resource has waiters, no holder waits for its own resource, no owner waits twice for one, and
-- each queue is ordered by falling priority and then by time of request.
pub run-AllSound :
    (cfg : Config) (a : Arbiter) (cs : List (ℕ × Command))
    → AllSound a.states
    → AllSound (run cfg a cs).states
unfolding run
run-AllSound cfg a [] v = v
run-AllSound cfg a ((now, c) ∷ cs) v =
    run-AllSound cfg (command cfg now c a) cs (command-AllSound cfg now c a v)
