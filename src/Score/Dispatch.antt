-- ===== src/Score/Dispatch.antt =====
-- What it takes to start a task, and that a started task keeps a run sound (scores.py, `blockers`, `start`).
use bit_cadence.Prelude.{
  ℕ, ◌+◌, ◌≤◌, ◌<◌, ◌≡◌, refl, ap, String, Bool, true, false, ◌&&◌, ◌||◌, not, some, List, [], ◌∷◌,
  arith, is_some, lookup, insert, lookup-insert, Dict, str_eq, eq_iff, Bool-cases, inl, inr, All,
  contains, is_blank,
}
use bit_cadence.Score.Plan.{disjoint, within, is_nil}
use bit_cadence.Score.Run.{
  Entry, Run, is_pending, is_active, is_accepted, count_active, accepted_entry, dependencies_met,
  locks_free, blockers, Blocker, reasons, tests_of, gates_of, gate_approved, started_entry,
  start_entry,
}
use bit_cadence.Score.Invariant.{Apart, IsOwn, IsSound, count_active-insert, IsOwn-insert}
use bit_cadence.Score.Frames.{still-IsSound}

reasons-nil : (xs : List (Bool × Blocker)) → is_nil (reasons xs) ≡ true → All (λ x. x.0 ≡ false) xs
reasons-nil [] h = tt
reasons-nil ((true, b) ∷ xs) h = absurd (ground arith)
reasons-nil ((false, b) ∷ xs) h = (refl, reasons-nil xs h)

-- Nothing blocks the task.
pub record IsReady (r : Run) (e : Entry) : Type 0 where
  pub waits : is_pending e.status ≡ true
  pub met : dependencies_met e.task.depends_on r.states ≡ true
  pub allowed : within e.task.capabilities r.grants ≡ true
  pub passed :
      ((is_some e.task.checkpoint || not (is_nil (gates_of r e)))
        && not (gate_approved r e (gates_of r e)))
      ≡ false
  pub affordable : r.reserved + e.task.max_cost_cents ≤ r.budget
  pub room : count_active r.states < r.max_parallel
  pub free : locks_free e.task.resources r.states ≡ true

pub blockers-IsReady : (r : Run) (e : Entry) → is_nil (blockers r e) ≡ true → IsReady r e
unfolding blockers tests_of
blockers-IsReady r e h = elim (Bool-cases (is_pending e.status)) [
  | inr other ↦ absurd (ground arith)
  | inl waits ↦
      let (met, (allowed, (passed, (paid, (full, (held, _)))))) =
        reasons-nil (tests_of r e) (rw waits at h) in
      record {
        waits = waits;
        met = ground arith;
        allowed = ground arith;
        passed = passed;
        affordable = ground arith;
        room = ground arith;
        free = ground arith;
      }
]

disjoint-Apart : (xs ys : List String) → disjoint xs ys ≡ true → Apart xs ys
disjoint-Apart [] ys h z m = absurd (ground arith)
disjoint-Apart (w ∷ ws) ys h z m = elim (Bool-cases (str_eq w z)) [
  | inl same ↦ ground (arith, eq_iff w z)
  | inr other ↦ disjoint-Apart ws ys (ground arith) z (ground arith)
]

Apart-sym : (xs ys : List String) → Apart xs ys → Apart ys xs
Apart-sym xs ys a z m = elim (Bool-cases (contains z xs)) [
  | inl there ↦ absurd (ground (arith, a z there))
  | inr gone ↦ gone
]

locks_free-Apart :
    (resources : List String) (d : Dict Entry) (j : String) (f : Entry)
    → locks_free resources d ≡ true
    → lookup j d ≡ some f
    → is_active f.status ≡ true
    → Apart resources f.task.resources
unfolding locks_free lookup
locks_free-Apart resources [] j f h p a = absurd (ground arith)
locks_free-Apart resources ((k, e) ∷ d) j f h p a = elim (Bool-cases (str_eq k j)) [
  | inl same ↦
      let q : e ≡ f = ground arith in disjoint-Apart resources f.task.resources (ground arith)
  | inr other ↦ locks_free-Apart resources d j f (ground arith) (rw (other, lookup) at p) a
]

dependencies_met-insert :
    (deps : List String) (k : String) (e f : Entry) (d : Dict Entry)
    → lookup k d ≡ some e
    → is_accepted e.status ≡ false
    → dependencies_met deps d ≡ true
    → dependencies_met deps (insert k f d) ≡ true
unfolding dependencies_met
dependencies_met-insert [] k e f d p n h = refl
dependencies_met-insert (x ∷ deps) k e f d p n h = elim (Bool-cases (str_eq k x)) [
  | inl same ↦
      let q : lookup x d ≡ some e = ground (arith, eq_iff k x) in
      absurd (ground (arith, ap accepted_entry q))
  | inr other ↦ elim (Bool-cases (accepted_entry (lookup x d))) [
    | inl a ↦
        rw (lookup-insert k x f d, other, a)
          (dependencies_met-insert deps k e f d p n (rw (a, dependencies_met) at h))
    | inr no_more ↦ absurd (ground arith)
  ]
]

started_run : Run → String → String → ℕ → Entry → Run
unfolding started_entry
started_run r k actor now e = record r {
  reserved = r.reserved + e.task.max_cost_cents;
  states = insert k (started_entry r k actor now e) r.states;
}

started-IsOwn :
    (r : Run) (k actor : String) (now : ℕ) (e : Entry)
    → IsOwn r k e
    → is_pending e.status ≡ true
    → IsOwn (started_run r k actor now e) k (started_entry r k actor now e)
unfolding started_run started_entry
started-IsOwn r k actor now e v w = record {
  tries = omega (arith, v.more_tries w);
  more_tries = λ h. absurd (ground arith);
  claimed = λ h. refl;
  written = λ h. refl;
  timed = λ h. refl;
}

-- The row under a key of an extended table: the new one, or the old one.
insert-hit :
    (k j : String) (f g : Entry) (d : Dict Entry)
    → lookup j (insert k f d) ≡ some g
    → str_eq k j ≡ true
    → g ≡ f
insert-hit k j f g d q same = ground (arith, lookup-insert k j f d)

insert-miss :
    (k j : String) (f g : Entry) (d : Dict Entry)
    → lookup j (insert k f d) ≡ some g
    → str_eq k j ≡ false
    → lookup j d ≡ some g
insert-miss k j f g d q other = ground (arith, lookup-insert k j f d)

started-count :
    (r : Run) (k actor : String) (now : ℕ) (e : Entry)
    → lookup k r.states ≡ some e
    → IsReady r e
    → count_active (insert k (started_entry r k actor now e) r.states) ≤ r.max_parallel
unfolding started_entry
started-count r k actor now e p y =
    ground
      (arith, y.room, y.waits, count_active-insert k e (started_entry r k actor now e) r.states p)

started-locks :
    (r : Run) (k actor : String) (now : ℕ) (e : Entry)
    → lookup k r.states ≡ some e
    → IsReady r e
    → IsSound r
    → (j l : String) (g m : Entry) → str_eq j l ≡ false
    → lookup j (insert k (started_entry r k actor now e) r.states) ≡ some g
    → lookup l (insert k (started_entry r k actor now e) r.states) ≡ some m
    → is_active g.status ≡ true
    → is_active m.status ≡ true
    → Apart g.task.resources m.task.resources
unfolding started_entry
started-locks r k actor now e p y i j l g m ne q q' a a' =
    let f = started_entry r k actor now e in
    elim (Bool-cases (str_eq k j)) [
      | inl here ↦ elim (Bool-cases (str_eq k l)) [
        | inl both ↦ absurd (ground (arith, eq_iff k j, eq_iff k l, eq_iff j l))
        | inr there ↦ rw (insert-hit k j f g r.states q here) (
            locks_free-Apart e.task.resources r.states l m y.free
              (insert-miss k l f m r.states q' there) a')
      ]
      | inr away ↦ elim (Bool-cases (str_eq k l)) [
        | inl there ↦ rw (insert-hit k l f m r.states q' there) (
            Apart-sym e.task.resources g.task.resources (
              locks_free-Apart e.task.resources r.states j g y.free
                (insert-miss k j f g r.states q away) a))
        | inr gone ↦
            i.locks j l g m ne (insert-miss k j f g r.states q away)
              (insert-miss k l f m r.states q' gone) a a'
      ]
    ]

started-IsSound :
    (r : Run) (k actor : String) (now : ℕ) (e : Entry)
    → lookup k r.states ≡ some e
    → IsReady r e
    → IsSound r
    → IsSound (started_run r k actor now e)
unfolding started_run started_entry
started-IsSound r k actor now e p y i =
    let f = started_entry r k actor now e in
    let cold : is_accepted e.status ≡ false = ground (arith, y.waits) in
    record {
      budget = y.affordable;
      parallel = started-count r k actor now e p y;
      own =
          IsOwn-insert r (started_run r k actor now e) k f refl refl refl
            (started-IsOwn r k actor now e (i.own k e p) y.waits) i.own;
      unblocked = λ j g q h. elim (Bool-cases (str_eq k j)) [
        | inl same ↦
            rw (insert-hit k j f g r.states q same)
              (dependencies_met-insert e.task.depends_on k e f r.states p cold y.met)
        | inr other ↦
            dependencies_met-insert g.task.depends_on k e f r.states p cold
              (i.unblocked j g (insert-miss k j f g r.states q other) h)
      ];
      granted = λ j g q h. elim (Bool-cases (str_eq k j)) [
        | inl same ↦ rw (insert-hit k j f g r.states q same) y.allowed
        | inr other ↦ i.granted j g (insert-miss k j f g r.states q other) h
      ];
      locks = started-locks r k actor now e p y i;
    }

-- A run stays sound when a task is started, and when it is refused.
pub start_entry-IsSound :
    (k actor role : String) (now : ℕ) (r : Run) (e : Entry)
    → lookup k r.states ≡ some e
    → IsSound r
    → IsSound (start_entry k actor role now r e).1
unfolding start_entry started_run
start_entry-IsSound k actor role now r e p i = elim (Bool-cases (is_blank actor)) [
  | inl blank ↦ rw (blank, start_entry) i
  | inr named ↦ elim (Bool-cases (not (str_eq role e.task.role) || not (is_nil (blockers r e)))) [
    | inl blocked ↦ rw (named, blocked, start_entry) i
    | inr free ↦
        let y = blockers-IsReady r e (ground arith) in
        rw (named, free, start_entry)
          (still-IsSound (started_run r k actor now e) _
            (record {
              budget = refl;
              reserved = refl;
              parallel = refl;
              grants = refl;
              run_id = refl;
              fingerprint = refl;
            })
            refl (started-IsSound r k actor now e p y i))
  ]
]
