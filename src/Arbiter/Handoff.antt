-- ===== src/Arbiter/Handoff.antt =====
-- Who holds a resource after a call, and which hooks ran (resource_arbiter.py).
use bit_cadence.Prelude.{
  ℕ, ◌≤◌, ◌≡◌, ap, ◌≢◌, ◌∙◌, refl, sym, subst, String, true, false, Option, none, some, List, [],
  ◌∷◌, ◌++◌, arith, str_eq, eq_iff, eq_refl, All, Bool-cases, inl, inr, Dict, lookup, insert,
  lookup-insert, ◌⊎◌,
}
use mathlib.Core.List.{Memᴰ}
use bit_cadence.Arbiter.Resource.{
  Waiter, Holder, ResourceState, Config, Hook, busy_to_idle, unused, holder_of, ahead,
  apply_hard_deadline, is_empty,
}
use bit_cadence.Arbiter.Operations.{
  Arbiter, Request, Reply, granted, queued, take, position, apply_deadlines, state_or_new, acquire,
  release, sweep, sweep_one, enforce_deadlines, Event, held_by, holder_name, released, not_released,
}
use bit_cadence.Arbiter.Queue.{Sorted, position-enqueue}
use bit_cadence.Arbiter.Soundness.{IsSound}

List-cases : {A : Type 0} (xs : List A) → (xs ≡ []) ⊎ ((y : A) × (ys : List A) × (xs ≡ y ∷ ys))
List-cases [] = inl refl
List-cases (y ∷ ys) = inr (y, ys, refl)

abbrev pub Answers : Reply → String → Option Holder → List Waiter → Type 0
Answers (granted o) caller h ws = (o ≡ caller) × (holder_name h ≡ some caller)
Answers (queued o p) caller h ws =
    (holder_name h ≡ some o) × (str_eq o caller ≡ false) × (p ≡ position caller ws) × (p ≢ none)

take-Answers :
    (rid : String) (q : Request) (now : ℕ) (ws : List Waiter) (o : Option Holder)
    → let (reply, rs, _) = take rid q now ws o in Answers reply q.owner rs.holder rs.queue
unfolding take
take-Answers rid q now ws none = (refl, refl)
take-Answers rid q now ws (some h) = elim (Bool-cases (str_eq h.owner q.owner)) [
  | inl own ↦ rw own (ground (arith, eq_iff h.owner q.owner))
  | inr other ↦
      let (n, e) = position-enqueue q now ws in rw other (refl, other, refl, λ p. ground arith)
]

-- `acquire` answers "granted" exactly to the caller that holds the resource in the state it writes; any
-- other caller is told the holder, which is not itself, and its own place in the queue, which
-- is always found.
pub acquire-Answers :
    (cfg : Config) (rid : String) (q : Request) (now : ℕ) (a : Arbiter)
    → let (reply, a') = acquire cfg rid q now a in
      let rs = state_or_new (lookup rid a'.states) in Answers reply q.owner rs.holder rs.queue
unfolding acquire
acquire-Answers cfg rid q now a =
    let (rs, _, _, _) = apply_deadlines cfg rid (state_or_new (lookup rid a.states)) now in
    let (_, rs', _) = take rid q now rs.queue rs.holder in
    rw (lookup-insert rid rid rs' a.states, eq_refl rid) (take-Answers rid q now rs.queue rs.holder)

abbrev pub handed : String → Waiter → ℕ → List Waiter → Arbiter → Arbiter
handed rid w now ws a = record {
  states = insert rid (record { holder = some (holder_of w now); queue = ws }) a.states;
  hooks = a.hooks;
}

abbrev pub freed : String → Arbiter → Arbiter
freed rid a = record {
  states = insert rid unused a.states;
  hooks = a.hooks ++ busy_to_idle rid ∷ [];
}

-- A release of a resource in a sound state, by the three cases. By anyone but the holder, it changes
-- nothing. By the holder, it makes the first of the queue the holder, who comes before or level with
-- all who still wait, and runs no hook; with nobody waiting it leaves the resource unused and runs
-- the idle hook.
pub release_lem :
    (rid o : String) (now : ℕ) (a : Arbiter) (rs : ResourceState)
    → lookup rid a.states ≡ some rs
    → IsSound rs
    → ((held_by o rs.holder ≡ false) × (release rid o now a ≡ (not_released, a)))
      ⊎ ((w : Waiter) × (ws : List Waiter) × (held_by o rs.holder ≡ true)
          × (rs.queue ≡ w ∷ ws)
          × (release rid o now a ≡ (released (some w.owner), handed rid w now ws a))
          × All (λ v. ahead w v ≡ true) ws)
      ⊎ ((held_by o rs.holder ≡ true)
          × (rs.queue ≡ [])
          × (release rid o now a ≡ (released none, freed rid a)))
unfolding release
release_lem rid o now a rs e v = elim (Bool-cases (held_by o rs.holder)) [
  | inr free ↦ inl (free, rw (e, release) (rw free refl))
  | inl held ↦ elim (List-cases rs.queue) [
    | inl q ↦ inr (inr (held, q, rw (e, release) (rw (held, q) refl)))
    | inr (w, ws, q) ↦
        inr (inl (w, ws, held, q, rw (e, release) (rw (held, q) refl), (subst Sorted q v.sorted).0))
  ]
]

swept : Config → ℕ → String → Option ResourceState → Option ResourceState
swept cfg now rid none = none
swept cfg now rid (some rs) = some (sweep_one cfg now rid rs).0

lookup-sweep :
    (cfg : Config) (now : ℕ) (rid : String) (d : Dict ResourceState)
    → lookup rid (sweep cfg now d).0 ≡ swept cfg now rid (lookup rid d)
unfolding lookup sweep swept
lookup-sweep cfg now rid [] = refl
lookup-sweep cfg now rid ((i, rs) ∷ d) = elim (Bool-cases (str_eq i rid)) [
  | inl hit ↦ let same = (eq_iff i rid).0 hit in rw hit (rw same refl)
  | inr miss ↦ rw miss (lookup-sweep cfg now rid d)
]

sweep_one-overdue :
    (cfg : Config) (now t : ℕ) (rid : String) (h : Holder) (ws : List Waiter)
    → cfg.hard_deadline rid ≡ some t
    → t ≤ cfg.local_time now
    → sweep_one cfg now rid (record { holder = some h; queue = ws }) ≡ (
      unused,
      record { resource_id = rid; expired_owner = some h.owner; new_holder = none; hard = true }
          ∷ [],
      busy_to_idle rid ∷ [],
    )
unfolding sweep_one apply_hard_deadline
sweep_one-overdue cfg now t rid h ws e late = ground arith

module _ {A : Type 0} {x : A} where
  mem_left : (xs ys : List A) → Memᴰ x xs → Memᴰ x (xs ++ ys)
  mem_left [] ys m = elim m [ ]
  mem_left (z ∷ zs) ys (Memᴰ.head e) = Memᴰ.head e
  mem_left (z ∷ zs) ys (Memᴰ.tail m) = Memᴰ.tail (mem_left zs ys m)

  mem_right : (xs ys : List A) → Memᴰ x ys → Memᴰ x (xs ++ ys)
  mem_right [] ys m = m
  mem_right (z ∷ zs) ys m = Memᴰ.tail (mem_right zs ys m)

  mem-is_empty : (xs : List A) → Memᴰ x xs → is_empty xs ≡ false
  mem-is_empty [] m = elim m [ ]
  mem-is_empty (z ∷ zs) m = refl

-- what the watchdog reports of a hard cutoff
abbrev pub cut_off : String → Holder → Event
cut_off rid h = record {
  resource_id = rid;
  expired_owner = some h.owner;
  new_holder = none;
  hard = true;
}

abbrev Swept : Type 0
Swept = ResourceState × List Event × List Hook

sweep-overdue :
    (cfg : Config) (now t : ℕ) (rid : String) (h : Holder) (ws : List Waiter)
    (d : Dict ResourceState)
    → cfg.hard_deadline rid ≡ some t
    → t ≤ cfg.local_time now
    → lookup rid d ≡ some (record { holder = some h; queue = ws })
    → Memᴰ (cut_off rid h) (sweep cfg now d).1 × Memᴰ (busy_to_idle rid) (sweep cfg now d).2
unfolding sweep lookup
sweep-overdue cfg now t rid h ws [] c late e = absurd (ground arith)
sweep-overdue cfg now t rid h ws ((i, rs) ∷ d) c late e = elim (Bool-cases (str_eq i rid)) [
  | inl hit ↦
      let whole : sweep_one cfg now i rs ≡ (unused, cut_off rid h ∷ [], busy_to_idle rid ∷ []) =
        ground (arith, sweep_one-overdue cfg now t rid h ws, (eq_iff i rid).0 hit) in
      (
        mem_left (sweep_one cfg now i rs).1 (sweep cfg now d).1
            (subst (λ (p : Swept). Memᴰ (cut_off rid h) p.1) (sym whole) (Memᴰ.head refl)),
        mem_left (sweep_one cfg now i rs).2 (sweep cfg now d).2
            (subst (λ (p : Swept). Memᴰ (busy_to_idle rid) p.2) (sym whole) (Memᴰ.head refl)),
      )
  | inr miss ↦
      let (events, calls) = sweep-overdue cfg now t rid h ws d c late (ground arith) in
      (
        mem_right (sweep_one cfg now i rs).1 (sweep cfg now d).1 events,
        mem_right (sweep_one cfg now i rs).2 (sweep cfg now d).2 calls,
      )
]

-- The hard cutoff is unconditional: a sweep at or after a resource's local cutoff leaves a held
-- resource unused, whatever its holder's own deadline and however many wait, writes that to the
-- state file, reports the expired owner, and runs the idle hook.
pub enforce_deadlines-overdue :
    (cfg : Config) (now t : ℕ) (rid : String) (h : Holder) (ws : List Waiter) (a : Arbiter)
    → cfg.hard_deadline rid ≡ some t
    → t ≤ cfg.local_time now
    → lookup rid a.states ≡ some (record { holder = some h; queue = ws })
    → let (events, a') = enforce_deadlines cfg now a in
      (lookup rid a'.states ≡ some unused)
      × Memᴰ (cut_off rid h) events
      × Memᴰ (busy_to_idle rid) a'.hooks
unfolding enforce_deadlines swept
enforce_deadlines-overdue cfg now t rid h ws a c late e =
    let (events, calls) = sweep-overdue cfg now t rid h ws a.states c late e in
    (
      rw (mem-is_empty (sweep cfg now a.states).1 events) (
          lookup-sweep cfg now rid a.states
          ∙ rw e (ap (λ x. some x.0) (sweep_one-overdue cfg now t rid h ws c late))),
      events,
      mem_right a.hooks _ calls,
    )
