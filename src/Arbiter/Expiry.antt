-- ===== src/Arbiter/Expiry.antt =====
-- A soft deadline that frees a resource runs no hook (resource_arbiter.py, `_apply_soft_deadline`).
use bit_cadence.Prelude.{
  ℕ, ◌≤◌, ◌≡◌, ap, ◌∙◌, refl, String, true, none, some, List, [], ◌∷◌, ◌++◌, arith, eq_refl,
  Bool-cases, inl, inr, lookup, lookup-insert, ◌⊎◌,
}
use mathlib.Core.List.{append-nil}
use bit_cadence.Arbiter.Resource.{
  ResourceState, Config, Hook, idle_to_busy, unused, promote, apply_soft_deadline,
  apply_hard_deadline, holder_due,
}
use bit_cadence.Arbiter.Operations.{
  Arbiter, Request, granted, take, apply_deadlines, acquire, status,
}

-- a resource that was taken with this request, and that nobody waits for
abbrev pub taken_by : Request → ℕ → ResourceState
taken_by p now = record {
  holder =
      some (record {
        owner = p.owner;
        priority = p.priority;
        acquired_at = now;
        deadline = p.deadline;
      });
  queue = [];
}

-- calls of `status` at these times
unfoldable pub looks : Config → String → List ℕ → Arbiter → Arbiter
looks cfg rid [] a = a
looks cfg rid (t ∷ ts) a = looks cfg rid ts (status cfg rid t a).1

-- Held as it was taken or free, and these hooks called.
record Quiet (rid : String) (p : Request) (now : ℕ) (hooks : List Hook) (a : Arbiter) : Type 0 where
  hooked : a.hooks ≡ hooks
  state : (lookup rid a.states ≡ some (taken_by p now)) ⊎ (lookup rid a.states ≡ some unused)

module _ (cfg : Config) (rid : String) (free : cfg.hard_deadline rid ≡ none) (p : Request) (now : ℕ)
    (hooks : List Hook) where
  status-Quiet :
      (t : ℕ) (a : Arbiter) → Quiet rid p now hooks a → Quiet rid p now hooks (status cfg rid t a).1
  unfolding status apply_deadlines apply_hard_deadline apply_soft_deadline promote
  status-Quiet t a q = elim q.state [
    | inr idle ↦ record {
      hooked = rw (idle, free) (append-nil a.hooks ∙ q.hooked);
      state = rw (idle, free) (inr idle);
    }
    | inl held ↦
        elim (Bool-cases (
          holder_due
            (some (record {
              owner = p.owner;
              priority = p.priority;
              acquired_at = now;
              deadline = p.deadline;
            }))
            t)) [
              | inl due ↦ record {
                hooked = rw (held, free) (append-nil a.hooks ∙ q.hooked);
                state =
                    rw (held, free, due)
                      (inr (ground (arith, lookup-insert rid rid unused a.states, eq_refl rid)));
              }
              | inr early ↦ record {
                hooked = rw (held, free) (append-nil a.hooks ∙ q.hooked);
                state = rw (held, free, early) (inl held);
              }
            ]
  ]

  looks-Quiet :
      (ts : List ℕ) (a : Arbiter)
      → Quiet rid p now hooks a
      → Quiet rid p now hooks (looks cfg rid ts a)
  unfolding looks
  looks-Quiet [] a q = q
  looks-Quiet (t ∷ ts) a q = looks-Quiet ts (status cfg rid t a).1 (status-Quiet t a q)

-- Who acquires it then, and what that calls.
acquire-idle :
    (cfg : Config) (rid : String) (q : Request) (now : ℕ) (a : Arbiter)
    → lookup rid a.states ≡ some unused
    → cfg.hard_deadline rid ≡ none
    → let (reply, b) = acquire cfg rid q now a in
      (reply ≡ granted q.owner)
      × (b.hooks ≡ a.hooks ++ idle_to_busy rid ∷ [])
      × (lookup rid b.states ≡ some (taken_by q now))
unfolding acquire apply_deadlines apply_hard_deadline apply_soft_deadline promote take
acquire-idle cfg rid q now a idle free = (
  rw (idle, free) refl,
  rw (idle, free) refl,
  rw (idle, free) (ground (arith, lookup-insert rid rid (taken_by q now) a.states, eq_refl rid)),
)

acquire-due :
    (cfg : Config) (rid : String) (p q : Request) (now later : ℕ) (a : Arbiter)
    → lookup rid a.states ≡ some (taken_by p now)
    → cfg.hard_deadline rid ≡ none
    → holder_due (taken_by p now).holder later ≡ true
    → let (reply, b) = acquire cfg rid q later a in
      (reply ≡ granted q.owner) × (b.hooks ≡ a.hooks ++ idle_to_busy rid ∷ [])
unfolding acquire apply_deadlines apply_hard_deadline apply_soft_deadline promote take
acquire-due cfg rid p q now later a held free due =
    (rw (held, free, due) refl, rw (held, free, due) refl)

-- A resource without a daily cutoff is free and is acquired with a deadline; however often its status is then asked,
-- before and after the deadline, the next `acquire` at or after the deadline is granted, and of the hooks
-- the busy one has then run twice and none in between: the idle hook did not run for the holder
-- that the deadline removed.
pub acquire_after_soft_expiry :
    (cfg : Config) (rid : String) (p q : Request) (now until later : ℕ) (asked : List ℕ)
    (a : Arbiter)
    → lookup rid a.states ≡ some unused
    → cfg.hard_deadline rid ≡ none
    → p.deadline ≡ some until
    → until ≤ later
    → let b = looks cfg rid asked (acquire cfg rid p now a).1 in
      ((acquire cfg rid p now a).0 ≡ granted p.owner)
      × ((acquire cfg rid q later b).0 ≡ granted q.owner)
      × ((acquire cfg rid q later b).1.hooks
          ≡ (a.hooks ++ idle_to_busy rid ∷ []) ++ idle_to_busy rid ∷ [])
acquire_after_soft_expiry cfg rid p q now until later asked a idle free ends due =
    let hooks = a.hooks ++ idle_to_busy rid ∷ [] in
    let (reply, called, row) = acquire-idle cfg rid p now a idle free in
    let last =
      looks-Quiet cfg rid free p now hooks asked (acquire cfg rid p now a).1
        (record { hooked = called; state = inl row }) in
    let b = looks cfg rid asked (acquire cfg rid p now a).1 in
    let over : holder_due (taken_by p now).holder later ≡ true = ground arith in
    let both = ap (λ x. x ++ idle_to_busy rid ∷ []) last.hooked in
    elim last.state [
      | inl held ↦
          let (again, more) = acquire-due cfg rid p q now later b held free over in
          (reply, again, more ∙ both)
      | inr gone ↦
          let (again, more, _) = acquire-idle cfg rid q later b gone free in
          (reply, again, more ∙ both)
    ]
