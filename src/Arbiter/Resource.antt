-- ===== src/Arbiter/Resource.antt =====
-- The state of one resource and its deadlines (src/mco/orchestrator/resource_arbiter.py).
use bit_cadence.Prelude.{
  ℕ, String, Bool, true, false, ◌&&◌, not, Option, none, some, List, [], ◌∷◌, ltb, leb,
  if◌then◌else◌, is_some, ℤ, leb_ℤ,
}

pub record Waiter : Type 0 where
  pub owner : String
  pub priority : ℤ
  pub requested_at : ℕ
  pub deadline : Option ℕ

pub record Holder : Type 0 where
  pub owner : String
  pub priority : ℤ
  pub acquired_at : ℕ
  pub deadline : Option ℕ

pub record ResourceState : Type 0 where
  pub holder : Option Holder
  pub queue : List Waiter

-- What the arbiter reads of its configuration and of the host's time zone.
pub record Config : Type 0 where
  pub hard_deadline : String → Option ℕ  -- a resource's HH:MM as a local time of day
  pub local_time : ℕ → ℕ  -- the local time of day of an instant

-- the calls of `_run_hook`
pub data Hook : Type 0 where
  idle_to_busy busy_to_idle : String → Hook

abbrev pub unused : ResourceState
unused = record { holder = none; queue = [] }

abbrev pub holder_of : Waiter → ℕ → Holder
holder_of w now = record {
  owner = w.owner;
  priority = w.priority;
  acquired_at = now;
  deadline = w.deadline;
}

-- `_promote`, by the queue
abbrev pub next_holder : List Waiter → ℕ → ResourceState
next_holder [] now = unused
next_holder (w ∷ ws) now = record { holder = some (holder_of w now); queue = ws }

unfoldable pub promote : ResourceState → ℕ → ResourceState
promote rs now = next_holder rs.queue now

abbrev pub reached : Option ℕ → ℕ → Bool
reached none now = false
reached (some t) now = leb t now

abbrev pub holder_due : Option Holder → ℕ → Bool
holder_due none now = false
holder_due (some h) now = reached h.deadline now

unfoldable pub apply_soft_deadline : ResourceState → ℕ → ResourceState × Bool
unfolding promote
apply_soft_deadline rs now =
    if holder_due rs.holder now then (promote rs now, true) else (rs, false)

abbrev pub is_empty {ℓ} : {A : Type ℓ} → List A → Bool
is_empty [] = true
is_empty (x ∷ xs) = false

-- `_apply_hard_deadline` behind the test that a cutoff is configured
abbrev pub past_cutoff : Config → ℕ → Option ℕ → ResourceState → Bool
past_cutoff cfg now none rs = false
past_cutoff cfg now (some cutoff) rs =
    if not (is_some rs.holder) && is_empty rs.queue
    then false
    else not (ltb (cfg.local_time now) cutoff)

unfoldable pub apply_hard_deadline :
    Config → String → ResourceState → ℕ → ResourceState × Bool × List Hook
apply_hard_deadline cfg rid rs now =
    if past_cutoff cfg now (cfg.hard_deadline rid) rs
    then (unused, true, if is_some rs.holder then busy_to_idle rid ∷ [] else [])
    else (rs, false, [])

-- `a` sorts before `b`, or has the same key: (-priority, requested_at)
abbrev pub ahead : Waiter → Waiter → Bool
ahead a b =
    if leb_ℤ b.priority a.priority
    then (if leb_ℤ a.priority b.priority then leb a.requested_at b.requested_at else true)
    else false

abbrev pub put_in : Waiter → List Waiter → List Waiter
put_in w [] = w ∷ []
put_in w (v ∷ vs) = if ahead w v then w ∷ v ∷ vs else v ∷ put_in w vs

-- `queue.sort(key=...)`, which is stable
unfoldable pub sort_queue : List Waiter → List Waiter
sort_queue [] = []
sort_queue (w ∷ ws) = put_in w (sort_queue ws)
