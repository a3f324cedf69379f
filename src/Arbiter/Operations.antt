-- ===== src/Arbiter/Operations.antt =====
-- acquire, release, status and the watchdog (src/mco/orchestrator/resource_arbiter.py).
use bit_cadence.Prelude.{
  ℕ, ◌+◌, String, Bool, true, false, ◌&&◌, ◌||◌, not, Option, none, some, List, [], ◌∷◌, ◌++◌,
  if◌then◌else◌, is_some, ℤ, str_eq, Dict, lookup, insert, filter_by, any_by,
}
use bit_cadence.Arbiter.Resource.{
  Waiter, Holder, ResourceState, Config, Hook, idle_to_busy, busy_to_idle, unused, promote,
  apply_soft_deadline, apply_hard_deadline, sort_queue, is_empty,
}

-- The state file, and every hook called so far, oldest first.
pub record Arbiter : Type 0 where
  pub states : Dict ResourceState
  pub hooks : List Hook

pub data Reply : Type 0 where
  granted : String → Reply
  queued : String → Option ℕ → Reply  -- the holder, and the position counted from one

-- what a caller asks for
pub record Request : Type 0 where
  pub owner : String
  pub priority : ℤ
  pub deadline : Option ℕ

abbrev pub state_or_new : Option ResourceState → ResourceState
state_or_new none = unused
state_or_new (some rs) = rs

-- both deadlines, the hard one first; what changed, and the hooks called
unfoldable pub apply_deadlines :
    Config → String → ResourceState → ℕ → ResourceState × Bool × Bool × List Hook
unfolding apply_hard_deadline apply_soft_deadline
apply_deadlines cfg rid rs now =
    let (rs', hard, calls) = apply_hard_deadline cfg rid rs now in
    let (rs'', soft) = apply_soft_deadline rs' now in (rs'', hard, soft, calls)

unfoldable pub waits : String → List Waiter → Bool
waits o = any_by (λ w. str_eq w.owner o)

-- `existing.priority, existing.deadline = priority, deadline`, for the first such waiter
unfoldable pub refresh : Request → List Waiter → List Waiter
refresh q [] = []
refresh q (w ∷ ws) =
    if str_eq w.owner q.owner
    then record w { priority = q.priority; deadline = q.deadline } ∷ ws
    else w ∷ refresh q ws

-- the queue with the caller's entry, before it is sorted
unfoldable pub joined : Request → ℕ → List Waiter → List Waiter
unfolding waits refresh
joined q now ws =
    if waits q.owner ws
    then refresh q ws
    else ws
      ++ record {
        owner = q.owner;
        priority = q.priority;
        requested_at = now;
        deadline = q.deadline;
      }
        ∷ []

unfoldable pub enqueue : Request → ℕ → List Waiter → List Waiter
unfolding joined sort_queue
enqueue q now ws = sort_queue (joined q now ws)

-- [w.owner for w in queue].index(owner) + 1; `none` is the ValueError
unfoldable pub position : String → List Waiter → Option ℕ
position o [] = none
position o (w ∷ ws) =
    let later = position o ws in
    if str_eq w.owner o then some 1 else elim later [ none ↦ none | some n ↦ some (n + 1) ]

-- `acquire` once the deadlines are applied: the reply, the state, and the hooks
unfoldable pub take :
    String → Request → ℕ → List Waiter → Option Holder → Reply × ResourceState × List Hook
unfolding enqueue position
take rid q now ws none = (
  granted q.owner,
  record {
    holder = some (record {
      owner = q.owner;
      priority = q.priority;
      acquired_at = now;
      deadline = q.deadline;
    });
    queue = filter_by (λ w. not (str_eq w.owner q.owner)) ws;
  },
  idle_to_busy rid ∷ [],
)
take rid q now ws (some h) =
    if str_eq h.owner q.owner
    then (
      granted h.owner,
      record {
        holder = some (record h { priority = q.priority; deadline = q.deadline });
        queue = ws;
      },
      [],
    )
    else (
      queued h.owner (position q.owner (enqueue q now ws)),
      record { holder = some h; queue = enqueue q now ws },
      [],
    )

unfoldable pub acquire : Config → String → Request → ℕ → Arbiter → Reply × Arbiter
unfolding apply_deadlines take
acquire cfg rid q now a =
    let (rs, hard, soft, calls) =
      apply_deadlines cfg rid (state_or_new (lookup rid a.states)) now in
    let (reply, rs', more) = take rid q now rs.queue rs.holder in
    (reply, record { states = insert rid rs' a.states; hooks = a.hooks ++ (calls ++ more) })

pub data Release : Type 0 where
  not_released : Release
  released : Option String → Release  -- the new holder

abbrev pub holder_name : Option Holder → Option String
holder_name none = none
holder_name (some h) = some h.owner

abbrev pub held_by : String → Option Holder → Bool
held_by o none = false
held_by o (some h) = str_eq h.owner o

release_known : String → String → ℕ → Arbiter → ResourceState → Release × Arbiter
unfolding promote
release_known rid o now a rs =
    if held_by o rs.holder
    then (
      released (holder_name (promote rs now).holder),
      record {
        states = insert rid (promote rs now) a.states;
        hooks =
            if is_some (promote rs now).holder then a.hooks else a.hooks ++ busy_to_idle rid ∷ [];
      },
    )
    else (not_released, a)

-- an absent resource has no holder, so it is not released either
unfoldable pub release : String → String → ℕ → Arbiter → Release × Arbiter
unfolding release_known
release rid o now a = elim (lookup rid a.states) [
  | none ↦ (not_released, a)
  | some rs ↦ release_known rid o now a rs
]

-- the state is written only if a deadline was applied
unfoldable pub status : Config → String → ℕ → Arbiter → ResourceState × Arbiter
unfolding apply_deadlines
status cfg rid now a =
    let (rs, hard, soft, calls) =
      apply_deadlines cfg rid (state_or_new (lookup rid a.states)) now in
    (
      rs,
      record {
        states = if hard || soft then insert rid rs a.states else a.states;
        hooks = a.hooks ++ calls;
      },
    )

pub record Event : Type 0 where
  pub resource_id : String
  pub expired_owner : Option String
  pub new_holder : Option String
  pub hard : Bool

abbrev pub same_name : Option String → Option String → Bool
same_name none none = true
same_name (some x) (some y) = str_eq x y
same_name _ _ = false

-- one resource of the sweep: the soft deadline is skipped where the hard one has cleared it
unfoldable pub sweep_one :
    Config → ℕ → String → ResourceState → ResourceState × List Event × List Hook
unfolding apply_hard_deadline apply_soft_deadline
sweep_one cfg now rid rs =
    let (rs', hard, calls) = apply_hard_deadline cfg rid rs now in
    let (rs'', soft) = apply_soft_deadline rs' now in
    let final : ResourceState = if hard then rs' else rs'' in
    let before = holder_name rs.holder in
    let after = holder_name final.holder in
    (
      final,
      if (hard || soft) && not (same_name before after)
          then record { resource_id = rid; expired_owner = before; new_holder = after; hard = hard }
            ∷ []
          else [],
      calls,
    )

unfoldable pub sweep : Config → ℕ → Dict ResourceState → Dict ResourceState × List Event × List Hook
unfolding sweep_one
sweep cfg now [] = ([], [], [])
sweep cfg now ((rid, rs) ∷ rest) =
    let (rs', events, calls) = sweep_one cfg now rid rs in
    let (rest', more, later) = sweep cfg now rest in
    ((rid, rs') ∷ rest', events ++ more, calls ++ later)

-- the file is written only if a holder changed
unfoldable pub enforce_deadlines : Config → ℕ → Arbiter → List Event × Arbiter
unfolding sweep
enforce_deadlines cfg now a =
    let (states', events, calls) = sweep cfg now a.states in
    (
      events,
      record { states = if is_empty events then a.states else states'; hooks = a.hooks ++ calls },
    )
